-- ===== src/Store/Snapshot/Create.antt =====
-- What a new snapshot holds, and what it leaves alone.
use session_restore.Common.{
  ℕ, ◌+◌, ◌<◌, ◌≡◌, ◌≢◌, refl, String, true, false, Option, some, List, [], ◌∷◌, ◌++◌, map, arith,
  ◌==◌, ℕ_eq, nat_eq_iff, any, All-imp, ◌&&◌,
}
use session_restore.Common.Int.{ℤ}
use session_restore.Exec.{ok}
use session_restore.Store.Row.{Row, copy_rows}
use session_restore.Store.Row.Copies.{
  IsEmptyAt, rows_at-copy_rows, rows_at-copy_rows_other, collides_fresh,
}
use session_restore.Store.Schema.{
  WindowRow_row, TabRow_row, PrivateRow_row, GroupRow_row, DisplayRow_row, AppRow_row,
  DesktopRow_row,
}
use session_restore.Store.Db.{Db, SnapshotRow, SnapshotKind, live, next_id}
use session_restore.Store.Snapshot.Tables.{
  SameAt, CopiedAt, EmptyAt, IsOwned, InSnapshots, has_snapshot,
}
use session_restore.Store.Snapshot.{
  copy_tables, live_tab_count, live_app_count, snapshot_row, snapshot_ids, create_from_live,
}

-- The new id is above every id in use, so no row has it.
lt_next_id :
    (s : SnapshotRow → ℕ) (rows : List SnapshotRow) (id : ℕ)
    → any (λ r. s r == id) rows ≡ true
    → id < next_id (map s rows)
unfolding any next_id
lt_next_id s [] id h = cc
lt_next_id s (r ∷ rows) id h = ground (arith, nat_eq_iff (s r) id, lt_next_id s rows id)

fresh_table {ℓ} :
    {R : Type ℓ} ⦃t : Row R⦄ (snapshots : List SnapshotRow) (rows : List R)
    → InSnapshots snapshots rows
    → IsEmptyAt (next_id (snapshot_ids snapshots)) rows
fresh_table ⦃t⦄ snapshots rows h =
    All-imp (λ r. has_snapshot snapshots (t.snapshot_id r) ≡ true) _ rows
      (λ r owned. ground (
        arith,
        nat_eq_iff (t.snapshot_id r) (next_id (snapshot_ids snapshots)),
        lt_next_id (λ s. s.id) snapshots (t.snapshot_id r) owned,
      ))
      h

pub IsOwned-EmptyAt : (db : Db) → IsOwned db → EmptyAt (next_id (snapshot_ids db.snapshots)) db
IsOwned-EmptyAt db h = record {
  browser_windows = fresh_table db.snapshots db.browser_windows h.browser_windows;
  tabs = fresh_table db.snapshots db.tabs h.tabs;
  tabs_private = fresh_table db.snapshots db.tabs_private h.tabs_private;
  tab_groups = fresh_table db.snapshots db.tab_groups h.tab_groups;
  displays = fresh_table db.snapshots db.displays h.displays;
  apps = fresh_table db.snapshots db.apps h.apps;
  windows = fresh_table db.snapshots db.windows h.windows;
}

-- The database after the seven copies.
abbrev pub copied : ℕ → Db → Db
copied id db = record db {
  browser_windows = copy_rows live id db.browser_windows;
  tabs = copy_rows live id db.tabs;
  tabs_private = copy_rows live id db.tabs_private;
  tab_groups = copy_rows live id db.tab_groups;
  displays = copy_rows live id db.displays;
  apps = copy_rows live id db.apps;
  windows = copy_rows live id db.windows;
}

copy_tables-fresh : (id : ℕ) (db : Db) → EmptyAt id db → copy_tables id db ≡ (ok tt, copied id db)
unfolding copy_tables
copy_tables-fresh id db h = simp (
  collides_fresh live id db.browser_windows h.browser_windows,
  collides_fresh live id db.tabs h.tabs,
  collides_fresh live id db.tabs_private h.tabs_private,
  collides_fresh live id db.tab_groups h.tab_groups,
  collides_fresh live id db.displays h.displays,
  collides_fresh live id db.apps h.apps,
  collides_fresh live id db.windows h.windows,
)

abbrev pub with_snapshot : SnapshotRow → Db → Db
with_snapshot row db = record db { snapshots = db.snapshots ++ (row ∷ []) }

pub copied-CopiedAt :
    (id : ℕ) (row : SnapshotRow) (db : Db)
    → EmptyAt id db
    → CopiedAt live id db (copied id (with_snapshot row db))
copied-CopiedAt id row db h = record {
  browser_windows = rows_at-copy_rows live id db.browser_windows h.browser_windows;
  tabs = rows_at-copy_rows live id db.tabs h.tabs;
  tabs_private = rows_at-copy_rows live id db.tabs_private h.tabs_private;
  tab_groups = rows_at-copy_rows live id db.tab_groups h.tab_groups;
  displays = rows_at-copy_rows live id db.displays h.displays;
  apps = rows_at-copy_rows live id db.apps h.apps;
  windows = rows_at-copy_rows live id db.windows h.windows;
}

copied-SameAt :
    (id other : ℕ) (row : SnapshotRow) (db : Db)
    → other ≢ id
    → SameAt other db (copied id (with_snapshot row db))
copied-SameAt id other row db ne = record {
  browser_windows = rows_at-copy_rows_other live id other db.browser_windows ne;
  tabs = rows_at-copy_rows_other live id other db.tabs ne;
  tabs_private = rows_at-copy_rows_other live id other db.tabs_private ne;
  tab_groups = rows_at-copy_rows_other live id other db.tab_groups ne;
  displays = rows_at-copy_rows_other live id other db.displays ne;
  apps = rows_at-copy_rows_other live id other db.apps ne;
  windows = rows_at-copy_rows_other live id other db.windows ne;
}

0-lt-next_id : (ids : List ℕ) → 0 < next_id ids
unfolding next_id
0-lt-next_id [] = omega arith
0-lt-next_id (i ∷ ids) = ground (arith, 0-lt-next_id ids)

EmptyAt-with_snapshot :
    (id : ℕ) (row : SnapshotRow) (db : Db) → EmptyAt id db → EmptyAt id (with_snapshot row db)
EmptyAt-with_snapshot id row db h = record {
  browser_windows = h.browser_windows;
  tabs = h.tabs;
  tabs_private = h.tabs_private;
  tab_groups = h.tab_groups;
  displays = h.displays;
  apps = h.apps;
  windows = h.windows;
}

not_both_zero : (t a : ℕ) → 0 < t + a → (t == 0 && a == 0) ≡ false
not_both_zero t a h = ground arith

-- The database after a snapshot that had something to copy.
pub create_from_live-copied :
    (now : ℤ) (kind : SnapshotKind) (label : Option String) (db : Db)
    → IsOwned db
    → 0 < live_tab_count db + live_app_count db
    → let row = snapshot_row now kind label db in
      create_from_live now kind label db ≡ (ok (some row.id), copied row.id (with_snapshot row db))
unfolding create_from_live
create_from_live-copied now kind label db owned some_live =
    let row : SnapshotRow = snapshot_row now kind label db in
    simp (
      not_both_zero (live_tab_count db) (live_app_count db) some_live,
      copy_tables-fresh row.id (with_snapshot row db)
          (EmptyAt-with_snapshot row.id row db (IsOwned-EmptyAt db owned)),
    )

-- With something live, the snapshot gets a new id that is not LIVE. Under that id each of the seven
-- tables holds exactly the live rows, column for column; under every other id, LIVE included, each
-- holds what it held; and `snapshots` gains the row with the counts and loses none.
pub create_from_live_lem :
    (now : ℤ) (kind : SnapshotKind) (label : Option String) (db : Db)
    → IsOwned db
    → 0 < live_tab_count db + live_app_count db
    → let row = snapshot_row now kind label db in
      let (result, after) = create_from_live now kind label db in
      (result ≡ ok (some row.id))
      × (row.id ≢ live)
      × CopiedAt live row.id db after
      × ((other : ℕ) → other ≢ row.id → SameAt other db after)
      × (after.snapshots ≡ db.snapshots ++ (row ∷ []))
unfolding snapshot_row
create_from_live_lem now kind label db owned some_live =
    let row : SnapshotRow = snapshot_row now kind label db in
    rw (create_from_live-copied now kind label db owned some_live) (
      refl,
      (λ e. omega (arith, 0-lt-next_id (snapshot_ids db.snapshots))),
      copied-CopiedAt row.id row db (IsOwned-EmptyAt db owned),
      (λ other ne. copied-SameAt row.id other row db ne),
      refl,
    )
