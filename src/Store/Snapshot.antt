-- ===== src/Store/Snapshot.antt =====
-- Snapshots, immutable copies of the live session: agent/crates/sr-agent/src/store/snapshot.rs.
use session_restore.Common.{
  ℕ, zero, suc, ◌+◌, ◌≡◌, refl, String, Bool, true, false, not, ◌&&◌, ◌||◌, Option, none, some,
  List, [], ◌∷◌, ◌++◌, map, ◌==◌, ℕ_eq, if◌then◌else◌, select, length, drop, take,
}
use mathlib.Core.Option
use session_restore.Common.Int.{ℤ, ltb_ℤ}
use session_restore.Exec.{
  Outcome, ok, err, Exec, constraint, live_state, pure, raise, gets, modify, for_each, ◌>>=◌, ◌>>◌,
}
use session_restore.Store.Row.{Row, rows_at, delete_at, copy_rows, collides}
use session_restore.Store.Schema.{
  WindowRow, TabRow, PrivateRow, GroupRow, DisplayRow, AppRow, DesktopRow, WindowRow_row,
  TabRow_row, PrivateRow_row, GroupRow_row, DisplayRow_row, AppRow_row, DesktopRow_row,
}
use session_restore.Store.Db.{
  Db, SnapshotRow, SnapshotKind, shutdown, periodic, manual, live, next_id, lookup_meta,
}
pub mod Tables
pub mod Create
pub mod Delete
pub mod Prune

-- INSERT INTO a table of what it has under LIVE; a row that meets the primary key fails it.
abbrev insert_copies : Bool → (Db → Db) → Exec Db (Unit {0})
insert_copies true f = raise constraint
insert_copies false f = modify f

abbrev insert_windows : ℕ → Exec Db (Unit {0})
insert_windows id db =
    insert_copies (collides live id db.browser_windows)
      (λ s. record s { browser_windows = copy_rows live id s.browser_windows }) db

abbrev insert_tabs : ℕ → Exec Db (Unit {0})
insert_tabs id db =
    insert_copies (collides live id db.tabs) (λ s. record s { tabs = copy_rows live id s.tabs }) db

abbrev insert_tabs_private : ℕ → Exec Db (Unit {0})
insert_tabs_private id db =
    insert_copies (collides live id db.tabs_private)
      (λ s. record s { tabs_private = copy_rows live id s.tabs_private }) db

abbrev insert_tab_groups : ℕ → Exec Db (Unit {0})
insert_tab_groups id db =
    insert_copies (collides live id db.tab_groups)
      (λ s. record s { tab_groups = copy_rows live id s.tab_groups }) db

abbrev insert_displays : ℕ → Exec Db (Unit {0})
insert_displays id db =
    insert_copies (collides live id db.displays)
      (λ s. record s { displays = copy_rows live id s.displays }) db

abbrev insert_apps : ℕ → Exec Db (Unit {0})
insert_apps id db =
    insert_copies (collides live id db.apps) (λ s. record s { apps = copy_rows live id s.apps }) db

abbrev insert_desktop : ℕ → Exec Db (Unit {0})
insert_desktop id db =
    insert_copies (collides live id db.windows)
      (λ s. record s { windows = copy_rows live id s.windows }) db

-- The loop over COPIED_TABLES.
unfoldable pub copy_tables : ℕ → Exec Db (Unit {0})
copy_tables id = do
  insert_windows id
  insert_tabs id
  insert_tabs_private id
  insert_tab_groups id
  insert_displays id
  insert_apps id
  insert_desktop id

unfoldable pub live_tab_count : Db → ℕ
live_tab_count db = length (rows_at live db.tabs) + length (rows_at live db.tabs_private)

unfoldable pub live_app_count : Db → ℕ
live_app_count db = length (rows_at live db.apps)

abbrev pub snapshot_ids : List SnapshotRow → List ℕ
snapshot_ids = map (λ s. s.id)

-- The row that `create_from_live` adds to `snapshots`.
unfoldable pub snapshot_row : ℤ → SnapshotKind → Option String → Db → SnapshotRow
snapshot_row now kind label db = record {
  id = next_id (snapshot_ids db.snapshots);
  captured_at = now;
  kind = kind;
  label = label;
  machine_id = Option.get_or (lookup_meta "machine_id" db.meta) "unknown";
  pinned = false;
  app_count = live_app_count db;
  tab_count = live_tab_count db;
}

abbrev insert_snapshot : SnapshotRow → Exec Db (Unit {0})
insert_snapshot row = modify (λ db. record db { snapshots = db.snapshots ++ (row ∷ []) })

-- Copies the live state into a new snapshot, and returns its id; nothing if there is nothing live.
unfoldable pub create_from_live : ℤ → SnapshotKind → Option String → Exec Db (Option ℕ)
unfolding live_tab_count live_app_count snapshot_row
create_from_live now kind label db =
    if live_tab_count db == 0 && live_app_count db == 0
    then (ok none, db)
    else (do
      let row = snapshot_row now kind label db
      insert_snapshot row
      copy_tables row.id
      pure (some row.id))
        db

abbrev pub is_restorable : SnapshotKind → Bool
is_restorable shutdown = true
is_restorable periodic = true
is_restorable manual = true
is_restorable _ = false

-- ORDER BY captured_at DESC
unfoldable pub insert_newest : SnapshotRow → List SnapshotRow → List SnapshotRow
insert_newest s [] = s ∷ []
insert_newest s (r ∷ rs) =
    let rest = insert_newest s rs in
    if ltb_ℤ r.captured_at s.captured_at then s ∷ r ∷ rs else r ∷ rest

unfoldable pub newest_first : List SnapshotRow → List SnapshotRow
unfolding insert_newest
newest_first [] = []
newest_first (s ∷ rs) = insert_newest s (newest_first rs)

abbrev pub first_id : List SnapshotRow → Option ℕ
first_id [] = none
first_id (s ∷ _) = some s.id

-- The most recent snapshot that is a plausible restore candidate.
unfoldable pub newest_restorable : Db → Option ℕ
unfolding newest_first
newest_restorable db =
    first_id (newest_first (select (λ s. not (s.id == live) && is_restorable s.kind) db.snapshots))

unfoldable pub list : Db → ℕ → List SnapshotRow
unfolding newest_first
list db limit = take limit (newest_first (select (λ s. not (s.id == live)) db.snapshots))

-- The deletions from COPIED_TABLES and from `snapshots`.
unfoldable pub delete_rows : ℕ → Db → Db
delete_rows id db = record db {
  browser_windows = delete_at id db.browser_windows;
  tabs = delete_at id db.tabs;
  tabs_private = delete_at id db.tabs_private;
  tab_groups = delete_at id db.tab_groups;
  displays = delete_at id db.displays;
  apps = delete_at id db.apps;
  windows = delete_at id db.windows;
  snapshots = select (λ s. not (s.id == id)) db.snapshots;
}

unfoldable pub delete : ℕ → Exec Db (Unit {0})
delete id = if id == live then raise live_state else modify (delete_rows id)

-- The snapshots that `prune` deletes.
unfoldable pub doomed : Db → ℕ → List ℕ
unfolding newest_first
doomed db keep =
    snapshot_ids
      (drop keep (newest_first (select (λ s. not (s.id == live) && not s.pinned) db.snapshots)))

-- Keeps the newest `keep` snapshots plus every pinned one.
unfoldable pub prune : ℕ → Exec Db ℕ
unfolding doomed
prune keep = do ids ← gets (λ db. doomed db keep); for_each delete ids; pure (length ids)
