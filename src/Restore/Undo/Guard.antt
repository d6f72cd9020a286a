-- ===== src/Restore/Undo/Guard.antt =====
-- What `undo_last` does when `can_undo` says that there is nothing to undo.
use mathlib.Core.Path.{subst}
use session_restore.Common.{
  All, ℕ, ◌≡◌, refl, Bool, true, false, Option, none, some, List, [], ◌∷◌, arith, any, Option-cases,
  Bool-cases, inl, inr,
}
use session_restore.Common.Int.{ltb_ℤ}
use session_restore.Store.Db.{Db, RunRow}
use session_restore.Restore.Apps.{Desktop, PlannedApp}
use session_restore.Restore.Runs.{latest_run, has_undo}
use session_restore.Restore.Undo.{
  UndoOutcome, nothing_to_undo, no_undo_point, restored, undo_run, can_undo, undo_last,
}

abbrev pub reverts : UndoOutcome → Bool
reverts nothing_to_undo = false
reverts (no_undo_point run) = false
reverts (restored run l p s) = true

none_has_undo :
    (runs : List RunRow) → any has_undo runs ≡ false → All (λ r. has_undo r ≡ false) runs
unfolding any
none_has_undo [] h = tt
none_has_undo (q ∷ qs) h = elim (Bool-cases (has_undo q)) [
  | inl undone ↦ absurd (ground (arith, h, undone))
  | inr never ↦ (never, none_has_undo qs (ground (arith, h, never)))
]

-- The run that is taken is one of the list.
latest_run-All :
    (P : RunRow → Type 0) (r : RunRow) (runs : List RunRow)
    → latest_run runs ≡ some r
    → All P runs
    → P r
unfolding latest_run
latest_run-All P r [] e h = cc
latest_run-All P r (q ∷ qs) e (h, hs) = elim (Option-cases (latest_run qs)) [
  | inl last ↦ subst P (ground (arith, e, last)) h
  | inr (w, found) ↦ elim (Bool-cases (ltb_ℤ q.started_at w.started_at)) [
    | inl later ↦ latest_run-All P r qs (ground (arith, e, found, later)) hs
    | inr earlier ↦ subst P (ground (arith, e, found, earlier)) h
  ]
]

undo_run-has_undo :
    (d : Desktop) (placed : List PlannedApp → ℕ) (db : Db) (run : Option RunRow)
    → ((r : RunRow) → run ≡ some r → has_undo r ≡ false)
    → ((undo_run d placed db run).1 ≡ []) × (reverts (undo_run d placed db run).0 ≡ false)
undo_run-has_undo d placed db none h = (refl, refl)
undo_run-has_undo d placed db (some r) h = elim (Option-cases r.undo_snapshot_id) [
  | inl never ↦ ground (arith, never)
  | inr (point, found) ↦ absurd (ground (arith, found, h r refl))
]

-- When `can_undo` says that there is nothing to undo, `undo_last` starts nothing and its outcome is
-- not that of a restore.
pub undo_last-can_undo :
    (d : Desktop) (placed : List PlannedApp → ℕ) (db : Db)
    → can_undo db ≡ false
    → ((undo_last d placed db).1 ≡ []) × (reverts (undo_last d placed db).0 ≡ false)
unfolding can_undo undo_last
undo_last-can_undo d placed db h =
    undo_run-has_undo d placed db (latest_run db.restore_runs) (λ r latest.
      latest_run-All (λ q. has_undo q ≡ false) r db.restore_runs latest
        (none_has_undo db.restore_runs h))
