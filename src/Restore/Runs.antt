-- ===== src/Restore/Runs.antt =====
-- The record of what was restored: `begin_run`, `record_items` and `apply_result` of
-- agent/crates/sr-agent/src/restore/mod.rs.
use session_restore.Common.{
  ℕ, suc, String, Bool, true, false, not, ◌&&◌, ◌||◌, Option, none, some, List, [], ◌∷◌, ◌++◌, map,
  ◌==◌, ℕ_eq, String_eq, select, any, if◌then◌else◌,
}
use mathlib.Core.Option
use session_restore.Common.Int.{ℤ, pos, ◌-ℤ◌, leb_ℤ, ltb_ℤ}
use session_restore.Exec.{Exec, ok, err, constraint, pure, gets, modify, for_each, ◌>>=◌, ◌>>◌}
use session_restore.Store.Db.{
  Db, RunRow, ItemRow, ItemKind, app, browser_window, tab, ItemStatus, pending, launched, placed,
  skipped, failed, next_id, pre_restore,
}
use session_restore.Store.Snapshot.{create_from_live}
use session_restore.Proto.{ResultItem}
use session_restore.Restore.Payload.{RestoreTab, RestoreWindow}
pub mod Recorded
pub mod Status
pub mod Reports
pub mod Outcomes
pub mod Shared
pub mod Begin
pub mod Steps
pub mod Episode

abbrev pub undo_episode_millis : ℤ
undo_episode_millis = pos 300_000

-- ORDER BY started_at DESC LIMIT 1
unfoldable pub latest_run : List RunRow → Option RunRow
latest_run [] = none
latest_run (r ∷ rs) = elim (latest_run rs) [
  | none ↦ some r
  | some q ↦ if ltb_ℤ r.started_at q.started_at then some q else some r
]

abbrev pub has_undo : RunRow → Bool
has_undo r = elim r.undo_snapshot_id [ none ↦ false | some _ ↦ true ]

abbrev pub in_episode : ℤ → ℕ → RunRow → Bool
in_episode now id r =
    r.snapshot_id == id && (has_undo r && leb_ℤ (now -ℤ undo_episode_millis) r.started_at)

abbrev pub undo_of : Option RunRow → Option ℕ
undo_of none = none
undo_of (some r) = r.undo_snapshot_id

-- The undo point of a run of the same restore, if there is one.
unfoldable pub recent_undo : ℤ → ℕ → List RunRow → Option ℕ
unfolding latest_run
recent_undo now id runs = undo_of (latest_run (select (in_episode now id) runs))

-- CHECK (mode IN ('ask','auto','manual'))
abbrev pub is_mode : String → Bool
is_mode mode = mode == "ask" || (mode == "auto" || mode == "manual")

abbrev pub run_row : ℤ → ℕ → String → Option ℕ → List RunRow → RunRow
run_row now id mode undo runs = record {
  id = next_id (map (λ r. r.id) runs);
  snapshot_id = id;
  started_at = now;
  finished_at = none;
  mode = mode;
  undo_snapshot_id = undo;
}

unfoldable pub insert_run : ℤ → ℕ → String → Option ℕ → Exec Db ℕ
insert_run now id mode undo db =
    let row = run_row now id mode undo db.restore_runs in
    if is_mode mode
    then (ok row.id, record db { restore_runs = db.restore_runs ++ (row ∷ []) })
    else (err constraint, db)

abbrev pub undo_point : ℤ → Option ℕ → Exec Db (Option ℕ)
undo_point now (some id) = pure (some id)
undo_point now none = create_from_live now pre_restore (some "before restore")

unfoldable pub begin_run : ℤ → ℕ → String → Exec Db ℕ
unfolding recent_undo insert_run
begin_run now id mode = do
  recent ← gets (λ db. recent_undo now id db.restore_runs)
  undo ← undo_point now recent
  insert_run now id mode undo

abbrev pub same_kind : ItemKind → ItemKind → Bool
same_kind app app = true
same_kind browser_window browser_window = true
same_kind tab tab = true
same_kind _ _ = false

abbrev pub same_item : ItemRow → ItemRow → Bool
same_item i j =
    j.run_id == i.run_id && (same_kind j.item_kind i.item_kind && j.item_key == i.item_key)

-- INSERT OR REPLACE; the FOREIGN KEY refuses a run that does not exist.
unfoldable pub put_item : ItemRow → Exec Db (Unit {0})
put_item i db =
    if any (λ r. r.id == i.run_id) db.restore_runs
    then (
      ok tt,
      record db { restore_items = select (λ j. not (same_item i j)) db.restore_items ++ (i ∷ []) },
    )
    else (err constraint, db)

abbrev pub pending_item : ℕ → RestoreTab → ItemRow
pending_item run t = record {
  run_id = run;
  item_kind = tab;
  item_key = t.url;
  status = pending;
  detail = none;
}

unfoldable pub record_items : ℕ → List RestoreWindow → Exec Db (Unit {0})
unfolding put_item
record_items run windows =
    for_each (λ w. for_each (λ t. put_item (pending_item run t)) w.tabs) windows

abbrev pub status_of : ResultItem → String
status_of i = Option.get_or i.status "failed"

-- "created" and "already_open" count as restored.
unfoldable pub is_restored : ResultItem → Bool
is_restored i = status_of i == "created" || status_of i == "already_open"

unfoldable pub mapped : ResultItem → ItemStatus
mapped i =
    if status_of i == "created"
    then launched
    else if status_of i == "already_open"
    then placed
    else if status_of i == "skipped"
    then skipped
    else failed

abbrev pub result_row : ℕ → ResultItem → ItemRow
result_row run i = record {
  run_id = run;
  item_kind = tab;
  item_key = Option.get_or i.tab_key "";
  status = mapped i;
  detail = i.detail;
}

-- The loop of `apply_result`, with its two counters.
unfoldable pub apply_items : ℕ → ℕ → ℕ → List ResultItem → Exec Db (ℕ × ℕ)
unfolding put_item mapped is_restored
apply_items run good bad [] = pure (good, bad)
apply_items run good bad (i ∷ is) = do
  let counts : ℕ × ℕ = if is_restored i then (suc good, bad) else (good, suc bad)
  put_item (result_row run i)
  apply_items run counts.0 counts.1 is

unfoldable pub finish_run : ℤ → ℕ → List RunRow → List RunRow
finish_run now run = map (λ r. if r.id == run then record r { finished_at = some now } else r)

-- `apply_result`, on the items of the array; anything else is no items.
unfoldable pub apply_result : ℤ → ℕ → List ResultItem → Exec Db (ℕ × ℕ)
unfolding apply_items finish_run
apply_result now run items = do
  counts ← apply_items run 0 0 items
  modify (λ db. record db { restore_runs = finish_run now run db.restore_runs })
  pure counts
