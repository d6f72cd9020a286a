-- ===== src/Store/Snapshot/Delete.antt =====
-- What the deletion of a snapshot removes.
use session_restore.Common.{
  ℕ, ◌≡◌, ◌≢◌, refl, not, List, [], arith, ◌==◌, ℕ_eq, nat_eq_iff, select, select_implied,
  select_disjoint,
}
use native.Mathlib.Decide.{ℕ_discrete}
use session_restore.Exec.{ok, err, live_state}
use session_restore.Store.Row.{Row, rows_at, delete_at, in_snapshot}
use session_restore.Store.Schema.{
  WindowRow_row, TabRow_row, PrivateRow_row, GroupRow_row, DisplayRow_row, AppRow_row,
  DesktopRow_row,
}
use session_restore.Store.Db.{Db, live}
use session_restore.Store.Snapshot.Tables.{SameAt, SameAt-refl}
use session_restore.Store.Snapshot.{delete_rows, delete}

module _ {ℓ} {R : Type ℓ} ⦃t : Row R⦄ where
  rows_at-delete_at_self : (id : ℕ) (rows : List R) → rows_at id (delete_at id rows) ≡ []
  rows_at-delete_at_self id rows =
      select_disjoint (in_snapshot id) (λ r. not (in_snapshot id r)) rows (λ r h. ground arith)

  rows_at-delete_at :
      (id other : ℕ) (rows : List R)
      → other ≢ id
      → rows_at other (delete_at id rows) ≡ rows_at other rows
  rows_at-delete_at id other rows ne =
      select_implied (in_snapshot other) (λ r. not (in_snapshot id r)) rows
        (λ r h. ground (arith, nat_eq_iff (t.snapshot_id r) other, nat_eq_iff (t.snapshot_id r) id))

-- `b` has nothing under `id`.
pub record GoneAt (id : ℕ) (b : Db) : Type 0 where
  pub browser_windows : rows_at id b.browser_windows ≡ []
  pub tabs : rows_at id b.tabs ≡ []
  pub tabs_private : rows_at id b.tabs_private ≡ []
  pub tab_groups : rows_at id b.tab_groups ≡ []
  pub displays : rows_at id b.displays ≡ []
  pub apps : rows_at id b.apps ≡ []
  pub windows : rows_at id b.windows ≡ []
  pub snapshots : select (λ s. s.id == id) b.snapshots ≡ []

pub delete_rows-GoneAt : (id : ℕ) (db : Db) → GoneAt id (delete_rows id db)
unfolding delete_rows
delete_rows-GoneAt id db = record {
  browser_windows = rows_at-delete_at_self id db.browser_windows;
  tabs = rows_at-delete_at_self id db.tabs;
  tabs_private = rows_at-delete_at_self id db.tabs_private;
  tab_groups = rows_at-delete_at_self id db.tab_groups;
  displays = rows_at-delete_at_self id db.displays;
  apps = rows_at-delete_at_self id db.apps;
  windows = rows_at-delete_at_self id db.windows;
  snapshots =
      select_disjoint (λ s. s.id == id) (λ s. not (s.id == id)) db.snapshots (λ s h. ground arith);
}

pub delete_rows-SameAt : (id other : ℕ) (db : Db) → other ≢ id → SameAt other db (delete_rows id db)
unfolding delete_rows
delete_rows-SameAt id other db ne = record {
  browser_windows = rows_at-delete_at id other db.browser_windows ne;
  tabs = rows_at-delete_at id other db.tabs ne;
  tabs_private = rows_at-delete_at id other db.tabs_private ne;
  tab_groups = rows_at-delete_at id other db.tab_groups ne;
  displays = rows_at-delete_at id other db.displays ne;
  apps = rows_at-delete_at id other db.apps ne;
  windows = rows_at-delete_at id other db.windows ne;
}

pub snapshots-delete_rows :
    (id other : ℕ) (db : Db)
    → other ≢ id
    → select (λ s. s.id == other) (delete_rows id db).snapshots
      ≡ select (λ s. s.id == other) db.snapshots
unfolding delete_rows
snapshots-delete_rows id other db ne =
    select_implied (λ s. s.id == other) (λ s. not (s.id == id)) db.snapshots
      (λ s h. ground (arith, nat_eq_iff s.id other, nat_eq_iff s.id id))

pub delete-ne : (id : ℕ) (db : Db) → id ≢ live → delete id db ≡ (ok tt, delete_rows id db)
unfolding delete
delete-ne id db ne = ground arith

delete-live : (id : ℕ) (db : Db) → id ≡ live → delete id db ≡ (err live_state, db)
unfolding delete
delete-live id db e = ground arith

-- Deleting a snapshot removes its row and its rows in all seven tables, and leaves every other
-- snapshot as it was; the live state is refused, and then nothing changes.
pub delete_lem :
    (id : ℕ) (db : Db)
    → (id ≡ live → delete id db ≡ (err live_state, db))
      × (id ≢ live → ((delete id db).0 ≡ ok tt) × GoneAt id (delete id db).1)
      × ((other : ℕ) → other ≢ id → SameAt other db (delete id db).1)
delete_lem id db = elim (ℕ_discrete id live) [
  | yes e ↦
      rw (delete-live id db e)
        ((λ _. refl), (λ ne. absurd (ne e)), (λ other _. SameAt-refl other db))
  | no ne ↦ rw (delete-ne id db ne) (
    (λ e. absurd (ne e)),
    (λ _. (refl, delete_rows-GoneAt id db)),
    (λ other apart. delete_rows-SameAt id other db apart),
  )
]
