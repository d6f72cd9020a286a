-- ===== src/Watcher/Events/Apart.antt =====
-- Signals do not come faster than the quiet period.
use session_restore.Common.{
  ℕ, ◌+◌, ◌≤◌, Bool, List, [], ◌∷◌, leb, if_both, arith, inl, inr, Bool-cases,
}
use session_restore.Watcher.Events.{
  quiet, max_defer, Waiting, idle, draining, later, started, emit, debounce,
}

-- Each time is later than the one before, or than the first of all, by the quiet period or more.
abbrev pub IsApart : ℕ → List ℕ → Type 0
IsApart t [] = Unit
IsApart t (e ∷ signals) = (t + quiet ≤ e) × IsApart e signals

IsApart-earlier : (t u : ℕ) (signals : List ℕ) → t ≤ u → IsApart u signals → IsApart t signals
IsApart-earlier t u [] h apart = tt
IsApart-earlier t u (e ∷ signals) h (low, apart) = (omega arith, apart)

emit-IsApart :
    (listens : ℕ → Bool) (t e : ℕ) (rest : List ℕ)
    → t + quiet ≤ e
    → IsApart e rest
    → IsApart t (emit listens e rest)
emit-IsApart listens t e rest h apart = if_both (IsApart t) (listens e) (e ∷ rest) [] (h, apart) tt

-- What a burst waits from is not before its first event.
abbrev IsBegun : Waiting → Type 0
IsBegun (idle t) = Unit
IsBegun (draining first t) = first ≤ t

abbrev begin : Waiting → ℕ
begin (idle t) = t
begin (draining first t) = first

later_after : (t a : ℕ) → t ≤ later t a
later_after t a = ground arith

waiting-IsApart :
    (listens : ℕ → Bool) (stays : Bool) (w : Waiting) (more : List ℕ)
    → IsBegun w
    → IsApart (begin w) (debounce listens stays w more)
unfolding debounce
waiting-IsApart listens stays (idle t) [] h = tt
waiting-IsApart listens stays (idle t) (a ∷ more) h =
    IsApart-earlier t (later t a) _ (later_after t a)
      (waiting-IsApart listens stays (started (later t a)) more (omega arith))
waiting-IsApart listens stays (draining first t) [] h =
    if_both (IsApart first) stays (emit listens (t + quiet) []) []
      (emit-IsApart listens first (t + quiet) [] (omega arith) tt) tt
waiting-IsApart listens stays (draining first t) (a ∷ more) h =
    let now = later t a in
    if_both (IsApart first) (leb a (t + quiet)) _ _
      (elim (Bool-cases (leb (first + max_defer) now)) [
        | inl full ↦ rw full (
            emit-IsApart listens first now _ (ground (arith, full))
              (waiting-IsApart listens stays (idle now) more tt))
        | inr room ↦ rw room (
            waiting-IsApart listens stays (draining first now) more
              (omega (arith, later_after t a)))
      ])
      (emit-IsApart listens first (t + quiet) _ (omega arith) (
        IsApart-earlier (t + quiet) (later (t + quiet) a) _ (later_after (t + quiet) a)
          (waiting-IsApart listens stays (started (later (t + quiet) a)) more (omega arith))))

-- From when the thread waits, no signal comes before the quiet period has passed, and none sooner
-- than that after another, whatever the events and whoever is still there.
pub debounce-IsApart :
    (listens : ℕ → Bool) (stays : Bool) (t : ℕ) (events : List ℕ)
    → IsApart t (debounce listens stays (idle t) events)
debounce-IsApart listens stays t events = waiting-IsApart listens stays (idle t) events tt
