-- ===== src/Tests/Applications.antt =====
-- The restore of applications, and undo.
use session_restore.Common.{◌≡◌, refl, String, none, some, List, [], ◌∷◌, map, ℕ_eq, All, false}
use session_restore.Proto.{as_str}
use session_restore.Watcher.Identity.{tier_d}
use session_restore.Store.Db.{Db, RunRow, ItemStatus, ItemRow, tab, launched, placed}
use session_restore.Restore.Apps.{Desktop, PlannedApp, planned_app}
use session_restore.Restore.Apps.Launch.{missing_documents, restore_app}
use session_restore.Restore.Apps.Safety.{Reopens, restore_app_open}
use session_restore.Restore.Undo.{OpenedTab, readable, tabs_opened_by_last_restore}
use session_restore.Restore.Undo.Sorted.{IsAscending, times}
use session_restore.Restore.Undo.Opened.{launches, IsLatest, tabs_opened_by_last_restore_lem}
use session_restore.Tests.Fixtures.{two_snapshots, app_at}
use session_restore.Tests.Runs.{with_run}

-- Notes is open with one document; nothing can be started.
abbrev notes_open : Desktop
notes_open = record {
  parse_documents = λ json. some ("a.txt" ∷ "b.txt" ∷ []);
  lower = λ s. s;
  open_now = λ key. some ("a.txt" ∷ []);
  attempt = λ action. some "access denied";
}

abbrev notes : PlannedApp
notes = planned_app notes_open two_snapshots (app_at 0 "notes")

restore_app_open_example :
    (notes.tier ≡ tier_d → (restore_app notes_open false notes).1 ≡ [])
    × ((docs : List String)
        → notes_open.open_now notes.app_key ≡ some docs
        → All
            (Reopens (missing_documents notes_open notes.documents docs))
            (restore_app notes_open false notes).1)
restore_app_open_example = restore_app_open notes_open false notes

abbrev item : String → ItemStatus → ItemRow
item url status = record {
  run_id = 4;
  item_kind = tab;
  item_key = url;
  status = status;
  detail = none;
}

abbrev after_run : Db
after_run = record with_run {
  restore_items = item "https://www.example.org/?q" launched ∷ item "https://b.org/" placed ∷ [];
}

abbrev one_opened : List OpenedTab
one_opened =
    record { url = "https://www.example.org/?q"; label = "example.org/"; browser = "chrome" } ∷ []

tabs_opened_by_last_restore_lem_example :
    ((r : RunRow) × (r.id ≡ 4) × IsLatest r after_run.restore_runs)
    × IsAscending (map (λ t. t.url) one_opened)
    × ((u : String) → times u (map (λ t. t.url) one_opened) ≡ launches 4 u after_run.restore_items)
unfolding tabs_opened_by_last_restore as_str
tabs_opened_by_last_restore_lem_example =
    tabs_opened_by_last_restore_lem after_run 4 one_opened refl

-- Byte 67 of this address lies inside a character, where the slice panics.
readable_panics :
    readable "aaaaaaaaaaaaaaaaaaaaaaaaaaaaaaaaaaaaaaaaaaaaaaaaaaaaaaaaaaaaaaaaaaééé" ≡ none
readable_panics = unfold readable in refl
