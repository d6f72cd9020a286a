-- ===== src/Restore/Runs/Status.antt =====
-- The status of a report, and the end of a run (`apply_result`).
use mathlib.Core.Path.{subst}
use mathlib.Core.Option
use session_restore.Common.{
  eq_of_==, select_agree, All-always, ℕ, ◌≡◌, refl, sym, String, Bool, false, not, ◌||◌, Option,
  none, some, List, [], ◌∷◌, arith, ◌==◌, ℕ_eq, String_eq, select, length, Bool-cases, Option-cases,
  inl, inr, ap, if◌then◌else◌,
}
use session_restore.Common.Int.{ℤ}
use session_restore.Store.Db.{RunRow, ItemStatus, launched, placed, skipped, failed}
use session_restore.Proto.{ResultItem}
use session_restore.Restore.Runs.{mapped, is_restored, finish_run}
use session_restore.Restore.Runs.Recorded.{restored_count}

-- What is recorded for the status of a report.
pub data IsStatus : Option String → ItemStatus → Type 0 where
  created : IsStatus (some "created") launched
  already_open : IsStatus (some "already_open") placed
  left_out : IsStatus (some "skipped") skipped
  missing : IsStatus none failed
  other :
      (s : String)
      → (s == "created") ≡ false
      → (s == "already_open") ≡ false
      → (s == "skipped") ≡ false
      → IsStatus (some s) failed

abbrev pub is_success : Option String → Bool
is_success none = false
is_success (some s) = s == "created" || s == "already_open"

abbrev mapped_of : Option String → ItemStatus
mapped_of o =
    let s = Option.get_or o "failed" in
    if s == "created"
    then launched
    else if s == "already_open"
    then placed
    else if s == "skipped"
    then skipped
    else failed

mapped_of-IsStatus : (o : Option String) → IsStatus o (mapped_of o)
mapped_of-IsStatus none = missing
mapped_of-IsStatus (some s) = elim (Bool-cases (s == "created")) [
  | inl e ↦
      subst (λ t. IsStatus (some t) (mapped_of (some t))) (sym (eq_of_== s "created" e)) created
  | inr a ↦ elim (Bool-cases (s == "already_open")) [
    | inl e ↦
        subst (λ t. IsStatus (some t) (mapped_of (some t))) (sym (eq_of_== s "already_open" e))
          already_open
    | inr b ↦ elim (Bool-cases (s == "skipped")) [
      | inl e ↦
          subst (λ t. IsStatus (some t) (mapped_of (some t))) (sym (eq_of_== s "skipped" e))
            left_out
      | inr c ↦ rw (a, b, c) (other s a b c)
    ]
  ]
]

pub mapped-IsStatus : (i : ResultItem) → IsStatus i.status (mapped i)
unfolding mapped
mapped-IsStatus i = mapped_of-IsStatus i.status

success : (i : ResultItem) → is_restored i ≡ is_success i.status
unfolding is_restored
success i = elim (Option-cases i.status) [ inl e ↦ rw e refl | inr (s, e) ↦ rw e refl ]

pub restored_successes :
    (is : List ResultItem) → restored_count is ≡ length (select (λ i. is_success i.status) is)
restored_successes is = ap length (select_agree is_restored _ is (All-always _ success is))

pub failures :
    (is : List ResultItem)
    → length (select (λ i. not (is_restored i)) is)
      ≡ length (select (λ i. not (is_success i.status)) is)
failures is =
    ap length
      (select_agree (λ i. not (is_restored i)) _ is (All-always _ (λ i. ap not (success i)) is))

-- The rows of the run are finished now, and every other row is as it was.
pub data Finished (now : ℤ) (run : ℕ) : List RunRow → List RunRow → Type 0 where
  no_more : Finished now run [] []
  ended :
      (r : RunRow) (rs qs : List RunRow)
      → r.id ≡ run
      → Finished now run rs qs
      → Finished now run (r ∷ rs) (record r { finished_at = some now } ∷ qs)
  as_it_was :
      (r : RunRow) (rs qs : List RunRow)
      → (r.id == run) ≡ false
      → Finished now run rs qs
      → Finished now run (r ∷ rs) (r ∷ qs)

pub finish_run-Finished :
    (now : ℤ) (run : ℕ) (rs : List RunRow) → Finished now run rs (finish_run now run rs)
unfolding finish_run
finish_run-Finished now run [] = no_more
finish_run-Finished now run (r ∷ rs) = elim (Bool-cases (r.id == run)) [
  | inl e ↦ rw e (ended r rs _ (ground (arith, e)) (finish_run-Finished now run rs))
  | inr e ↦ rw e (as_it_was r rs _ e (finish_run-Finished now run rs))
]
