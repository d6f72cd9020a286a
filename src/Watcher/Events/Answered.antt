-- ===== src/Watcher/Events/Answered.antt =====
-- Every window event is followed by a signal.
use mathlib.Core.Path.{subst}
use session_restore.Common.{
  sym, ℕ, ◌+◌, ◌≤◌, ◌<◌, ◌≡◌, refl, Bool, true, false, ◌&&◌, List, [], ◌∷◌, any, All, All-imp, leb,
  ltb, arith, inl, inr, Bool-cases,
}
use session_restore.Watcher.Events.{quiet, max_defer, idle, draining, later, debounce}

-- Times that do not go back, from one on.
abbrev pub IsAscending : ℕ → List ℕ → Type 0
IsAscending t [] = Unit
IsAscending t (a ∷ more) = (t ≤ a) × IsAscending a more

-- One of the signals comes at the time of the event or later, and within the two waits.
abbrev pub IsAnswered : List ℕ → ℕ → Type 0
IsAnswered signals a = any (λ e. leb a e && ltb e (a + max_defer + quiet)) signals ≡ true

abbrev pub always : ℕ → Bool
always t = true

IsAnswered-skip : (e a : ℕ) (signals : List ℕ) → IsAnswered signals a → IsAnswered (e ∷ signals) a
unfolding any
IsAnswered-skip e a signals h = ground (arith, h)

IsAnswered-now :
    (e a : ℕ) (signals : List ℕ) → a ≤ e → e < a + max_defer + quiet → IsAnswered (e ∷ signals) a
unfolding any
IsAnswered-now e a signals h k = ground arith

later-max : (t a : ℕ) → t ≤ a → later t a ≡ a
later-max t a h = ground arith

-- What was received in the burst is answered, and what is to come.
abbrev IsAnsweredFrom : ℕ → ℕ → List ℕ → List ℕ → Type 0
IsAnsweredFrom first t signals more =
    ((p : ℕ) → first ≤ p → p ≤ t → IsAnswered signals p) × All (IsAnswered signals) more

-- The burst ends at the ceiling, with the event at `a`.
ceiling :
    (first t a : ℕ) (more : List ℕ)
    → first ≤ t
    → t < first + max_defer
    → t ≤ a
    → a ≤ t + quiet
    → All (IsAnswered (debounce always true (idle a) more)) more
    → IsAnsweredFrom first t (a ∷ debounce always true (idle a) more) (a ∷ more)
ceiling first t a more h k ge soon rest = (
  (λ p low high. IsAnswered-now a p _ (omega arith) (omega arith)),
  (
    IsAnswered-now a a _ (omega arith) (omega arith),
    All-imp _ _ more (λ b. IsAnswered-skip a b _) rest,
  ),
)

-- It goes on with the event at `a`.
longer :
    (first t a : ℕ) (signals more : List ℕ)
    → first ≤ t
    → t ≤ a
    → IsAnsweredFrom first a signals more
    → IsAnsweredFrom first t signals (a ∷ more)
longer first t a signals more h ge rest =
    ((λ p low high. rest.0 p low (omega arith)), (rest.0 a (omega arith) (omega arith), rest.1))

-- It has ended when the event at `a` starts another.
next :
    (first t a : ℕ) (signals more : List ℕ)
    → first ≤ t
    → t < first + max_defer
    → t ≤ a
    → IsAnsweredFrom a a signals more
    → IsAnsweredFrom first t ((t + quiet) ∷ signals) (a ∷ more)
next first t a signals more h k ge rest = (
  (λ p low high. IsAnswered-now (t + quiet) p signals (omega arith) (omega arith)),
  (
    IsAnswered-skip (t + quiet) a signals (rest.0 a (omega arith) (omega arith)),
    All-imp _ _ more (λ b. IsAnswered-skip (t + quiet) b signals) rest.1,
  ),
)

debounce-full :
    (first t a : ℕ) (more : List ℕ)
    → t ≤ a
    → leb a (t + quiet) ≡ true
    → leb (first + max_defer) a ≡ true
    → debounce always true (draining first t) (a ∷ more) ≡ a ∷ debounce always true (idle a) more
unfolding debounce
debounce-full first t a more ge soon full = rw (later-max t a ge, soon, full) refl

debounce-longer :
    (first t a : ℕ) (more : List ℕ)
    → t ≤ a
    → leb a (t + quiet) ≡ true
    → leb (first + max_defer) a ≡ false
    → debounce always true (draining first t) (a ∷ more)
      ≡ debounce always true (draining first a) more
unfolding debounce
debounce-longer first t a more ge soon room = rw (later-max t a ge, soon, room) refl

debounce-next :
    (first t a : ℕ) (more : List ℕ)
    → t ≤ a
    → leb a (t + quiet) ≡ false
    → debounce always true (draining first t) (a ∷ more)
      ≡ (t + quiet) ∷ debounce always true (draining a a) more
unfolding debounce
debounce-next first t a more ge late =
    rw (late, later-max (t + quiet) a (ground (arith, late))) refl

debounce-first :
    (t a : ℕ) (more : List ℕ)
    → t ≤ a
    → debounce always true (idle t) (a ∷ more) ≡ debounce always true (draining a a) more
unfolding debounce
debounce-first t a more ge = rw (later-max t a ge) refl

-- Whatever comes next.
mutual
  unfolding debounce

  burst :
      (first t : ℕ) (more : List ℕ)
      → first ≤ t
      → t < first + max_defer
      → IsAscending t more
      → IsAnsweredFrom first t (debounce always true (draining first t) more) more
  burst first t [] h k asc =
      ((λ p low high. IsAnswered-now (t + quiet) p [] (omega arith) (omega arith)), tt)
  burst first t (a ∷ more) h k (ge, asc) =
      let P : List ℕ → Type 0 = λ signals. IsAnsweredFrom first t signals (a ∷ more) in
      elim (Bool-cases (leb a (t + quiet))) [
        | inl soon ↦ elim (Bool-cases (leb (first + max_defer) a)) [
          | inl full ↦
              subst P (sym (debounce-full first t a more ge soon full))
                (ceiling first t a more h k ge (ground (arith, soon)) (from_idle a more asc))
          | inr room ↦ subst P (sym (debounce-longer first t a more ge soon room)) (
              longer first t a _ more h ge
                (burst first a more (omega (arith, h)) (ground (arith, room)) asc))
        ]
        | inr late ↦
            subst P (sym (debounce-next first t a more ge late))
              (next first t a _ more h k ge (burst a a more (omega arith) (omega arith) asc))
      ]

  from_idle :
      (t : ℕ) (more : List ℕ)
      → IsAscending t more
      → All (IsAnswered (debounce always true (idle t) more)) more
  from_idle t [] asc = tt
  from_idle t (a ∷ more) (ge, asc) =
      let rest = burst a a more (omega arith) (omega arith) asc in
      subst (λ signals. All (IsAnswered signals) (a ∷ more)) (sym (debounce-first t a more ge))
        (rest.0 a (omega arith) (omega arith), rest.1)

-- While the sender and the receiver are there, every window event is followed by a signal, at the
-- latest when both waits have passed, however many events come.
pub debounce-IsAnswered :
    (t : ℕ) (events : List ℕ)
    → IsAscending t events
    → All (IsAnswered (debounce always true (idle t) events)) events
debounce-IsAnswered t events asc = from_idle t events asc
