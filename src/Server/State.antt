-- ===== src/Server/State.antt =====
-- Applying a batch of deltas: `apply_state` of agent/crates/sr-agent/src/server.rs.
use session_restore.Common.{
  ℕ, String, Bool, true, false, not, ◌&&◌, Option, none, some, List, [], ◌∷◌, ◌==◌, ℕ_eq, String_eq,
  if◌then◌else◌, select, map, contains,
}
use session_restore.Common.Int.{ℤ}
use session_restore.Exec.{Exec, constraint, pure, raise, modify, for_each, ◌>>◌}
use session_restore.Proto.{
  BrowserKind, BrowserKind_eq, Op, upsert, remove, BrowserWindowDelta, TabGroupDelta, StateBody,
}
use session_restore.Store.Row
use session_restore.Store.Row.{delete_key}
use session_restore.Store.Schema.{
  WindowRow, TabRow, PrivateRow, GroupRow, WindowRow_row, TabRow_row, PrivateRow_row, GroupRow_row,
}
use session_restore.Store.Crypto.{Platform}
use session_restore.Store.Db.{Db, live}
use session_restore.Ingest.{IngestCtx, live_ctx, overwrite, ingest_tab}

-- Who reports: the browser is none when the relay stamped nothing, and then the text is "unknown".
pub record Reporter : Type 0 where
  pub browser : Option BrowserKind
  pub profile : String

abbrev pub window_row : ℤ → BrowserKind → String → BrowserWindowDelta → WindowRow
window_row now browser profile w = record {
  snapshot_id = live;
  browser_window_id = w.window_id;
  browser = browser;
  profile_key = profile;
  is_private = w.is_private;
  window_state = w.state;
  x = w.x;
  y = w.y;
  w = w.w;
  h = w.h;
  focused = w.focused;
  updated_at = now;
}

-- DO UPDATE sets every column but the key and `browser`.
abbrev pub merge_window : WindowRow → WindowRow → WindowRow
merge_window old new = record new {
  snapshot_id = old.snapshot_id;
  browser_window_id = old.browser_window_id;
  browser = old.browser;
}

-- The CHECK on `browser` refuses "unknown".
unfoldable pub upsert_window : ℤ → Reporter → BrowserWindowDelta → Exec Db (Unit {0})
upsert_window now r w = elim r.browser [
  | none ↦ raise constraint
  | some b ↦ modify (λ db. record db {
    browser_windows = Row.upsert merge_window (window_row now b r.profile w) db.browser_windows;
  })
]

abbrev pub route_window : Op → ℤ → Reporter → BrowserWindowDelta → Exec Db (Unit {0})
route_window remove now r w =
    modify (λ db. record db { browser_windows = delete_key live w.window_id db.browser_windows })
route_window upsert now r w = upsert_window now r w

unfoldable pub apply_window : ℤ → Reporter → BrowserWindowDelta → Exec Db (Unit {0})
unfolding upsert_window
apply_window now r w = route_window w.op now r w

abbrev pub group_row : TabGroupDelta → GroupRow
group_row g = record {
  snapshot_id = live;
  group_key = g.group_key;
  browser_window_id = g.window_id;
  title = g.title;
  color = g.color;
  collapsed = g.collapsed;
}

abbrev pub route_group : Op → TabGroupDelta → Exec Db (Unit {0})
route_group remove g =
    modify (λ db. record db { tab_groups = delete_key live g.group_key db.tab_groups })
route_group upsert g =
    modify (λ db. record db { tab_groups = Row.upsert overwrite (group_row g) db.tab_groups })

unfoldable pub apply_group : TabGroupDelta → Exec Db (Unit {0})
apply_group g = route_group g.op g

abbrev is_upsert : Op → Bool
is_upsert upsert = true
is_upsert remove = false

-- The windows and the tabs that an authoritative payload says exist.
abbrev pub live_windows : StateBody → List String
live_windows body = map (λ w. w.window_id) (select (λ w. is_upsert w.op) body.windows)

abbrev pub live_tabs : StateBody → List String
live_tabs body = map (λ t. t.tab_key) (select (λ t. is_upsert t.op) body.tabs)

abbrev pub is_owned : Reporter → WindowRow → Bool
is_owned r row = elim r.browser [
  | none ↦ false
  | some b ↦ row.snapshot_id == live && (row.browser == b && row.profile_key == r.profile)
]

-- The windows that this browser and profile have on record.
abbrev pub owned : Reporter → Db → List String
owned r db = map (λ row. row.browser_window_id) (select (is_owned r) db.browser_windows)

-- The rows of a table that lie in a live window.
abbrev pub in_window : String → ℕ → String → Bool
in_window window id w = id == live && w == window

-- DELETE .. WHERE tab_key, for each key of the list.
abbrev pub delete_keys {ℓ} : {R : Type ℓ} ⦃t : Row.Row R⦄ → List String → List R → List R
delete_keys [] rows = rows
delete_keys (k ∷ ks) rows = delete_keys ks (delete_key live k rows)

-- The stored keys of a window that the payload does not report.
abbrev pub stale : List String → List String → List String
stale reported keys = select (λ k. not (contains k reported)) keys

abbrev pub keys_of_tabs : String → List TabRow → List String
keys_of_tabs window rows =
    map (λ r. r.tab_key) (select (λ r. in_window window r.snapshot_id r.browser_window_id) rows)

abbrev pub keys_of_private : String → List PrivateRow → List String
keys_of_private window rows =
    map (λ r. r.tab_key) (select (λ r. in_window window r.snapshot_id r.browser_window_id) rows)

-- The window still exists: drop only the tabs that it no longer reports.
unfoldable pub reap_tabs : StateBody → String → Db → Db
reap_tabs body window db = record db {
  tabs = delete_keys (stale (live_tabs body) (keys_of_tabs window db.tabs)) db.tabs;
  tabs_private =
      delete_keys (stale (live_tabs body) (keys_of_private window db.tabs_private)) db.tabs_private;
}

-- The window is gone: take its tabs and groups with it.
unfoldable pub reap_window : String → Db → Db
reap_window window db = record db {
  tabs = select (λ r. not (in_window window r.snapshot_id r.browser_window_id)) db.tabs;
  tabs_private =
      select (λ r. not (in_window window r.snapshot_id r.browser_window_id)) db.tabs_private;
  tab_groups = select (λ r. not (in_window window r.snapshot_id r.browser_window_id)) db.tab_groups;
  browser_windows = delete_key live window db.browser_windows;
}

unfoldable pub reap_one : StateBody → String → Db → Db
unfolding reap_tabs reap_window
reap_one body window db =
    if contains window (live_windows body) then reap_tabs body window db else reap_window window db

unfoldable pub reap_all : StateBody → List String → Db → Db
unfolding reap_one
reap_all body [] db = db
reap_all body (window ∷ windows) db = reap_all body windows (reap_one body window db)

-- `reap_missing_for_browser`
unfoldable pub reap_missing : StateBody → Reporter → Db → Db
unfolding reap_all
reap_missing body r db = reap_all body (owned r db) db

abbrev pub reap_if : Bool → StateBody → Reporter → Exec Db (Unit {0})
reap_if authoritative body r = if authoritative then modify (reap_missing body r) else pure tt

-- The batch under the settings that were read when it began.
unfoldable pub apply_in : IngestCtx → StateBody → Bool → Reporter → Exec Db (Unit {0})
apply_in ctx body authoritative r = do
  for_each (apply_window ctx.now r) body.windows
  for_each (ingest_tab ctx) body.tabs
  for_each apply_group body.groups
  reap_if authoritative body r

unfoldable pub apply_state : Platform → ℤ → StateBody → Bool → Reporter → Exec Db (Unit {0})
unfolding apply_in live_ctx
apply_state platform now body authoritative r db =
    apply_in (live_ctx platform now db) body authoritative r db
