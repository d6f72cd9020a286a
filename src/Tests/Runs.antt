-- ===== src/Tests/Runs.antt =====
-- Restore runs.
use session_restore.Common.{refl, false, none, some, List, [], ◌∷◌, any, ℕ_eq}
use session_restore.Common.Int.{pos}
use session_restore.Store.Db.{Db}
use session_restore.Proto.{ResultItem}
use session_restore.Restore.Runs.{apply_result}
use session_restore.Restore.Runs.Outcomes.{IsApplied, apply_result_lem}
use session_restore.Restore.Runs.Steps.{Step, recorded, answered, another}
use session_restore.Tests.Fixtures.{two_snapshots}

abbrev pub with_run : Db
with_run = record two_snapshots {
  restore_runs =
      record {
        id = 4;
        snapshot_id = 1;
        started_at = pos 40;
        finished_at = none;
        mode = "ask";
        undo_snapshot_id = none;
      }
      ∷ [];
}

abbrev two_results : List ResultItem
two_results =
    record { tab_key = some "a"; status = some "created"; detail = none }
    ∷ record { tab_key = some "b"; status = none; detail = some "no" }
    ∷ []

apply_result_lem_example :
    IsApplied
      (pos 60)
      4
      two_results
      with_run
      (apply_result (pos 60) 4 two_results with_run).0
      (apply_result (pos 60) 4 two_results with_run).1
apply_result_lem_example = apply_result_lem (pos 60) 4 two_results with_run (unfold any in refl)

abbrev in_between : List Step
in_between =
    recorded 1 (
      record {
        window_id = "w";
        is_private = false;
        state = none;
        x = none;
        y = none;
        w = none;
        h = none;
        tabs =
            record {
              tab_key = "a";
              url = "https://a.org/";
              title = none;
              index = pos 0;
              pinned = false;
              active = false;
              group_key = none;
            }
            ∷ [];
      }
      ∷ [])
    ∷ another (pos 60) "manual"
    ∷ answered (pos 65) 1 two_results
    ∷ []
