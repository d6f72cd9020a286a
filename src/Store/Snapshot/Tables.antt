-- ===== src/Store/Snapshot/Tables.antt =====
-- Statements about all the tables that a snapshot copies at once.
use session_restore.Common.{ℕ, ◌≡◌, Bool, true, List, map, refl, ◌∙◌, All, any, ◌==◌, ℕ_eq}
use session_restore.Store.Row.{Row, rows_at}
use session_restore.Store.Row.Copies.{IsEmptyAt}
use session_restore.Store.Schema.{
  WindowRow, TabRow, PrivateRow, GroupRow, WindowRow_row, TabRow_row, PrivateRow_row, GroupRow_row,
  DisplayRow_row, AppRow_row, DesktopRow_row,
}
use session_restore.Store.Db.{Db, SnapshotRow}

-- `b` has under `id` the rows that `a` has under it.
pub record SameAt (id : ℕ) (a b : Db) : Type 0 where
  pub browser_windows : rows_at id b.browser_windows ≡ rows_at id a.browser_windows
  pub tabs : rows_at id b.tabs ≡ rows_at id a.tabs
  pub tabs_private : rows_at id b.tabs_private ≡ rows_at id a.tabs_private
  pub tab_groups : rows_at id b.tab_groups ≡ rows_at id a.tab_groups
  pub displays : rows_at id b.displays ≡ rows_at id a.displays
  pub apps : rows_at id b.apps ≡ rows_at id a.apps
  pub windows : rows_at id b.windows ≡ rows_at id a.windows

pub SameAt-refl : (id : ℕ) (a : Db) → SameAt id a a
SameAt-refl id a = record {
  browser_windows = refl;
  tabs = refl;
  tabs_private = refl;
  tab_groups = refl;
  displays = refl;
  apps = refl;
  windows = refl;
}

pub SameAt-trans : {id : ℕ} {a b c : Db} → SameAt id a b → SameAt id b c → SameAt id a c
SameAt-trans h k = record {
  browser_windows = k.browser_windows ∙ h.browser_windows;
  tabs = k.tabs ∙ h.tabs;
  tabs_private = k.tabs_private ∙ h.tabs_private;
  tab_groups = k.tab_groups ∙ h.tab_groups;
  displays = k.displays ∙ h.displays;
  apps = k.apps ∙ h.apps;
  windows = k.windows ∙ h.windows;
}

abbrev pub copies_of {ℓ} : {R : Type ℓ} ⦃t : Row R⦄ → ℕ → ℕ → List R → List R
copies_of ⦃t⦄ from to rows = map (t.restamp to) (rows_at from rows)

-- `b` has under `to` the rows that `a` has under `from`, with nothing changed but the id.
pub record CopiedAt (from to : ℕ) (a b : Db) : Type 0 where
  pub browser_windows : rows_at to b.browser_windows ≡ copies_of from to a.browser_windows
  pub tabs : rows_at to b.tabs ≡ copies_of from to a.tabs
  pub tabs_private : rows_at to b.tabs_private ≡ copies_of from to a.tabs_private
  pub tab_groups : rows_at to b.tab_groups ≡ copies_of from to a.tab_groups
  pub displays : rows_at to b.displays ≡ copies_of from to a.displays
  pub apps : rows_at to b.apps ≡ copies_of from to a.apps
  pub windows : rows_at to b.windows ≡ copies_of from to a.windows

pub record EmptyAt (id : ℕ) (a : Db) : Type 0 where
  pub browser_windows : IsEmptyAt id a.browser_windows
  pub tabs : IsEmptyAt id a.tabs
  pub tabs_private : IsEmptyAt id a.tabs_private
  pub tab_groups : IsEmptyAt id a.tab_groups
  pub displays : IsEmptyAt id a.displays
  pub apps : IsEmptyAt id a.apps
  pub windows : IsEmptyAt id a.windows

abbrev pub has_snapshot : List SnapshotRow → ℕ → Bool
has_snapshot snapshots id = any (λ s. s.id == id) snapshots

abbrev pub InSnapshots {ℓ} : {R : Type ℓ} ⦃t : Row R⦄ → List SnapshotRow → List R → Type 0
InSnapshots ⦃t⦄ snapshots rows = All (λ r. has_snapshot snapshots (t.snapshot_id r) ≡ true) rows

-- Every row belongs to a snapshot that exists.
pub record IsOwned (a : Db) : Type 0 where
  pub browser_windows : InSnapshots a.snapshots a.browser_windows
  pub tabs : InSnapshots a.snapshots a.tabs
  pub tabs_private : InSnapshots a.snapshots a.tabs_private
  pub tab_groups : InSnapshots a.snapshots a.tab_groups
  pub displays : InSnapshots a.snapshots a.displays
  pub apps : InSnapshots a.snapshots a.apps
  pub windows : InSnapshots a.snapshots a.windows

-- The four tables of the browsers, each with its own reason.
pub SameAt-browser :
    (id : ℕ) (a : Db) (ws : List WindowRow) (ts : List TabRow) (ps : List PrivateRow)
    (gs : List GroupRow)
    → rows_at id ws ≡ rows_at id a.browser_windows
    → rows_at id ts ≡ rows_at id a.tabs
    → rows_at id ps ≡ rows_at id a.tabs_private
    → rows_at id gs ≡ rows_at id a.tab_groups
    → SameAt id a (record a { browser_windows = ws; tabs = ts; tabs_private = ps; tab_groups = gs })
SameAt-browser id a ws ts ps gs hw ht hp hg = record {
  browser_windows = hw;
  tabs = ht;
  tabs_private = hp;
  tab_groups = hg;
  displays = refl;
  apps = refl;
  windows = refl;
}
