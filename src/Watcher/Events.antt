-- ===== src/Watcher/Events.antt =====
-- Window events into signals to capture: `debounce` of agent/crates/sr-agent/src/watcher/events.rs.
-- Times are milliseconds. The thread takes no time but where it waits, and an event that comes at the
-- end of the quiet period still counts.
use session_restore.Common.{ℕ, ◌+◌, Bool, true, false, List, [], ◌∷◌, leb, if◌then◌else◌}
pub mod Answered
pub mod Apart

-- DEBOUNCE and MAX_DEFER
abbrev pub quiet : ℕ
quiet = 2000

abbrev pub max_defer : ℕ
max_defer = 10000

-- Where the thread is: in `recv` since a time; or draining a burst, with the time of its first event
-- and the time from which it waits.
pub data Waiting : Type 0 where
  idle : ℕ → Waiting
  draining : ℕ → ℕ → Waiting

-- The time at which what was sent is received.
abbrev pub later : ℕ → ℕ → ℕ
later t a = if leb t a then a else t

abbrev pub started : ℕ → Waiting
started t = draining t t

-- `tx.send`, which fails when nobody listens any more, and then the thread ends.
abbrev pub emit : (ℕ → Bool) → ℕ → List ℕ → List ℕ
emit listens t rest = if listens t then t ∷ rest else []

-- The times of the signals, from the times at which the events are sent; `stays` is whether the
-- sender is kept after the last of them.
unfoldable pub debounce : (ℕ → Bool) → Bool → Waiting → List ℕ → List ℕ
debounce listens stays (idle t) [] = []
debounce listens stays (idle t) (a ∷ more) = debounce listens stays (started (later t a)) more
debounce listens stays (draining first t) [] = if stays then emit listens (t + quiet) [] else []
debounce listens stays (draining first t) (a ∷ more) =
    let now = later t a in
    let ceiling = debounce listens stays (idle now) more in
    let longer = debounce listens stays (draining first now) more in
    let next = debounce listens stays (started (later (t + quiet) a)) more in
    if leb a (t + quiet)
    then (if leb (first + max_defer) now then emit listens now ceiling else longer)
    else emit listens (t + quiet) next
