-- ===== src/Restore/Runs/Outcomes.antt =====
-- What is counted and recorded of the outcomes that the extension reports (`apply_result`).
use session_restore.Restore.Runs.Status.{
  is_success, restored_successes, failures, Finished, finish_run-Finished,
}
use session_restore.Restore.Runs.Reports.{
  last_report, of_other, Recorded, recorded-others, recorded-Recorded,
}
use mathlib.Core.Path.{subst}
use session_restore.Common.{
  ℕ, ◌≡◌, refl, sym, String, true, false, not, List, ◌∷◌, ℕ_eq, String_eq, select, length,
}
use session_restore.Common.Int.{ℤ}
use session_restore.Exec.{Outcome, ok, err, constraint}
use session_restore.Store.Db.{Db}
use session_restore.Proto.{ResultItem}
use session_restore.Restore.Runs.{put_item, apply_items, apply_result}
use session_restore.Restore.Runs.Recorded.{has_run, apply_result-recorded}

-- What the answer and the database are after a result.
pub record IsApplied (now : ℤ) (run : ℕ) (is : List ResultItem) (before : Db)
    (out : Outcome (ℕ × ℕ)) (after : Db) : Type 0 where
  pub counted :
      out
      ≡ ok (
        length (select (λ i. is_success i.status) is),
        length (select (λ i. not (is_success i.status)) is),
      )
  pub reported :
      (u : String) → Recorded run u (last_report u is) before.restore_items after.restore_items
  pub others :
      select (of_other run) after.restore_items ≡ select (of_other run) before.restore_items
  pub finished : Finished now run before.restore_runs after.restore_runs
  pub rest :
      after
      ≡ record before { restore_items = after.restore_items; restore_runs = after.restore_runs }

-- For a run that exists: the answer counts the reports of status "created" or "already_open", and
-- all others. Of every tab that is reported the table has one row for this run, with the detail of
-- its last report and the status that is recorded for it; of a tab that is not reported it has the
-- rows from before, and so it has those of other runs and kinds. The run is finished at `now`, and
-- every other run and table is as it was.
pub apply_result_lem :
    (now : ℤ) (run : ℕ) (is : List ResultItem) (db : Db)
    → has_run run db ≡ true
    → IsApplied now run is db (apply_result now run is db).0 (apply_result now run is db).1
apply_result_lem now run is db h =
    subst (λ (done : Outcome (ℕ × ℕ) × Db). IsApplied now run is db done.0 done.1)
      (sym (apply_result-recorded now run is db h))
      record {
        counted = rw (restored_successes is, failures is) refl;
        reported = λ u. recorded-Recorded run u is db.restore_items;
        others = recorded-others run is db.restore_items;
        finished = finish_run-Finished now run db.restore_runs;
        rest = refl;
      }

-- A result for a run that does not exist is refused at its first item, and changes nothing.
pub apply_result_unknown :
    (now : ℤ) (run : ℕ) (i : ResultItem) (is : List ResultItem) (db : Db)
    → has_run run db ≡ false
    → apply_result now run (i ∷ is) db ≡ (err constraint, db)
unfolding apply_result apply_items put_item
apply_result_unknown now run i is db h = simp h
