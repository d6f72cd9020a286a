-- ===== src/Ingest/Tables.antt =====
-- What the two tab tables hold after a tab was ingested.
use session_restore.Common.{
  ℕ, ◌≡◌, refl, String, false, none, some, ◌==◌, ℕ_eq, String_eq, ◌&&◌, if◌then◌else◌,
}
use mathlib.Core.Option
use session_restore.Common.Int.{pos}
use session_restore.Exec.{ok}
use session_restore.Proto.{upsert, remove, TabDelta}
use session_restore.Store.Row.{get}
use session_restore.Store.Row.Laws.{get-upsert, get-delete_key}
use session_restore.Store.Schema.{TabRow, TabRow_row, PrivateRow_row}
use session_restore.Store.Db.{Db}
use session_restore.Ingest.{from_delta, IngestCtx, overwrite, store_normal, remove_tab, ingest_tab}

-- The columns that the wire message reports, with the schema's defaults for what it leaves out.
abbrev pub reported_row : IngestCtx → TabDelta → TabRow
reported_row ctx tab = record {
  snapshot_id = ctx.snapshot_id;
  tab_key = tab.tab_key;
  browser_window_id = tab.window_id;
  group_key = tab.group_key;
  tab_index = Option.get_or tab.index (pos 0);
  url = Option.get_or tab.url "";
  title = tab.title;
  favicon_hash = tab.favicon_hash;
  pinned = tab.pinned;
  active = tab.active;
  muted = tab.muted;
  restorable = tab.restorable;
  last_accessed = tab.last_accessed;
  updated_at = ctx.now;
}

-- An ordinary tab is found in `tabs` under its key, as it was reported; every other key of `tabs`
-- shows what it showed; and no other table of the database changes.
pub ingest_tab_normal :
    (ctx : IngestCtx) (tab : TabDelta) (db : Db)
    → tab.op ≡ upsert
    → tab.is_private ≡ false
    → ((ingest_tab ctx tab db).0 ≡ ok tt)
      × ((id : ℕ) (k : String)
          → get id k (ingest_tab ctx tab db).1.tabs ≡ (
              if ctx.snapshot_id == id && tab.tab_key == k
              then some (reported_row ctx tab)
              else get id k db.tabs))
      × ((ingest_tab ctx tab db).1 ≡ record db { tabs = (ingest_tab ctx tab db).1.tabs })
unfolding ingest_tab store_normal from_delta
ingest_tab_normal ctx tab db u p =
    simp (u, p)
      (refl, (λ id k. get-upsert overwrite (reported_row ctx tab) db.tabs id k (λ old. refl)), refl)

-- After a removal neither table has the key, whichever held it; every other key of both shows what
-- it showed; and no other table changes.
pub ingest_tab_remove :
    (ctx : IngestCtx) (tab : TabDelta) (db : Db)
    → tab.op ≡ remove
    → ((ingest_tab ctx tab db).0 ≡ ok tt)
      × ((id : ℕ) (k : String)
          → get id k (ingest_tab ctx tab db).1.tabs
            ≡ (if ctx.snapshot_id == id && tab.tab_key == k then none else get id k db.tabs))
      × ((id : ℕ) (k : String)
          → get id k (ingest_tab ctx tab db).1.tabs_private ≡ (
              if ctx.snapshot_id == id && tab.tab_key == k then none else get id k db.tabs_private))
      × ((ingest_tab ctx tab db).1 ≡ record db {
        tabs = (ingest_tab ctx tab db).1.tabs;
        tabs_private = (ingest_tab ctx tab db).1.tabs_private;
      })
unfolding ingest_tab remove_tab
ingest_tab_remove ctx tab db u = simp u (
  refl,
  (λ id k. get-delete_key ctx.snapshot_id tab.tab_key db.tabs id k),
  (λ id k. get-delete_key ctx.snapshot_id tab.tab_key db.tabs_private id k),
  refl,
)
