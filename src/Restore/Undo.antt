-- ===== src/Restore/Undo.antt =====
-- Reversing the last restore: agent/crates/sr-agent/src/restore/undo.rs.
use Prim.Native.String
use Prim.Native.String.{len, ◌++◌ as append}
use text.Mathlib.Text.{is_lt, starts_with, get?, find?}
use mathlib.Core.Option
use session_restore.Common.{
  ℕ, zero, suc, String, Bool, true, false, not, ◌&&◌, Option, none, some, List, [], ◌∷◌, map, ◌==◌,
  ℕ_eq, ltb, select, find, any, length, if◌then◌else◌,
}
use session_restore.Proto.{as_str}
use session_restore.Restore.Apps.{Action, Desktop, PlannedApp, plan_from_snapshot}
use session_restore.Restore.Apps.Launch.{Report, restore_apps}
use session_restore.Restore.Runs.{latest_run, has_undo, same_kind}
use session_restore.Store.Db.{Db, RunRow, ItemRow, ItemStatus, tab, launched}
pub mod Guard
pub mod Sorted
pub mod Opened

pub record OpenedTab : Type 0 where
  pub url : String
  pub label : String
  pub browser : String

-- `trim_start_matches`: each round drops a pattern, which is not empty, so the length of the text
-- is rounds enough.
unfoldable pub trim_start : ℕ → String → String → String
trim_start zero pattern s = s
trim_start (suc rounds) pattern s =
    let rest = trim_start rounds pattern (Option.get_or (get? s (len pattern) (len s)) s) in
    if starts_with s pattern then rest else s

abbrev trimmed : String → String
trimmed url =
    let a = trim_start (len url) "https://" url in
    let b = trim_start (len a) "http://" a in trim_start (len b) "www." b

-- Up to the first '?'.
abbrev before_query : String → String
before_query s = Option.get_or (get? s 0 (Option.get_or (find? s "?") (len s))) s

-- A slice that is cut inside a character panics, and gives none here.
unfoldable pub shortened : String → Option String
shortened s = if ltb 70 (len s) then Option.map (λ t. append t "...") (get? s 0 67) else some s

unfoldable pub readable : String → Option String
unfolding trim_start shortened
readable url = shortened (before_query (trimmed url))

abbrev pub is_launched : ItemStatus → Bool
is_launched launched = true
is_launched _ = false

-- WHERE run_id = run AND item_kind = 'tab' AND status = 'launched'
abbrev pub is_opened : ℕ → ItemRow → Bool
is_opened run i = i.run_id == run && (same_kind i.item_kind tab && is_launched i.status)

-- ORDER BY item_key
unfoldable pub insert_url : String → List String → List String
insert_url u [] = u ∷ []
insert_url u (v ∷ vs) =
    let rest = insert_url u vs in if is_lt (String.compare v u) then v ∷ rest else u ∷ v ∷ vs

unfoldable pub sort_urls : List String → List String
unfolding insert_url
sort_urls [] = []
sort_urls (u ∷ us) = insert_url u (sort_urls us)

unfoldable pub opened_urls : ℕ → List ItemRow → List String
unfolding sort_urls select
opened_urls run items = sort_urls (map (λ i. i.item_key) (select (is_opened run) items))

-- The browser of the first window of the snapshot that the run restored.
unfoldable pub browser_of_run : Db → RunRow → String
unfolding find
browser_of_run db run =
    Option.get_or
      (Option.map (λ w. as_str w.browser)
        (find (λ w. w.snapshot_id == run.snapshot_id) db.browser_windows))
      "chrome"

abbrev pub labelled :
    String → String → Option String → Option (List OpenedTab) → Option (List OpenedTab)
labelled browser url (some label) (some rest) =
    some (record { url = url; label = label; browser = browser } ∷ rest)
labelled browser url _ _ = none

unfoldable pub opened_tabs : String → List String → Option (List OpenedTab)
unfolding readable
opened_tabs browser [] = some []
opened_tabs browser (u ∷ us) = labelled browser u (readable u) (opened_tabs browser us)

abbrev pub of_run : Db → Option RunRow → Option (Option ℕ × List OpenedTab)
of_run db none = some (none, [])
of_run db (some run) =
    Option.map (λ tabs. (some run.id, tabs))
      (opened_tabs (browser_of_run db run) (opened_urls run.id db.restore_items))

-- The most recent restore, and the tabs that it created.
unfoldable pub tabs_opened_by_last_restore : Db → Option (Option ℕ × List OpenedTab)
unfolding opened_tabs opened_urls browser_of_run latest_run
tabs_opened_by_last_restore db = of_run db (latest_run db.restore_runs)

unfoldable pub can_undo : Db → Bool
unfolding any
can_undo db = any has_undo db.restore_runs

pub data UndoOutcome : Type 0 where
  nothing_to_undo : UndoOutcome
  no_undo_point : ℕ → UndoOutcome
  restored : ℕ → ℕ → ℕ → ℕ → UndoOutcome

-- The undo of a run that has an undo point; `placed` counts the windows that were moved.
unfoldable pub undo_to : Desktop → (List PlannedApp → ℕ) → Db → ℕ → ℕ → UndoOutcome × List Action
undo_to d placed db run point =
    let apps = plan_from_snapshot d db point in
    let (report, actions) = restore_apps d false apps in
    (restored run (length report.launched) (placed apps) (length report.skipped), actions)

abbrev pub undo_run :
    Desktop → (List PlannedApp → ℕ) → Db → Option RunRow → UndoOutcome × List Action
undo_run d placed db none = (nothing_to_undo, [])
undo_run d placed db (some run) = elim run.undo_snapshot_id [
  | none ↦ (no_undo_point run.id, [])
  | some point ↦ undo_to d placed db run.id point
]

unfoldable pub undo_last : Desktop → (List PlannedApp → ℕ) → Db → UndoOutcome × List Action
unfolding undo_to latest_run
undo_last d placed db = undo_run d placed db (latest_run db.restore_runs)
