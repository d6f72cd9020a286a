-- ===== src/Ingest.antt =====
-- The privacy chokepoint: agent/crates/sr-agent/src/ingest.rs.
use session_restore.Common.{
  ℕ, ◌+◌, ◌≡◌, refl, String, Bool, true, false, not, Option, none, some, List, [], ◌∷◌, ◌==◌, ℕ_eq,
  String_eq, length, ◌-◌, if◌then◌else◌, select,
}
use mathlib.Core.Option
use session_restore.Common.Int.{ℤ, pos, ◌+ℤ◌, ◌*ℤ◌, ltb_ℤ}
use session_restore.Exec.{Outcome, ok, err, Exec, pure, lift, modify, gets, ◌>>=◌, ◌>>◌}
use session_restore.Proto.{Op, upsert, remove, TabDelta}
use session_restore.Store.Row
use session_restore.Store.Row.{delete_key}
use session_restore.Store.Schema.{TabRow, PrivateRow, TabRow_row, PrivateRow_row}
use session_restore.Store.Crypto.{Platform, PrivatePayload, nonce_len, aad, seal}
use session_restore.Store.Keys.{draw, active_dek}
use session_restore.Store.Db.{Db, live, setting_bool, setting_i64}
pub mod Routing
pub mod Tables
pub mod RoundTrip

-- A tab that is cloud-eligible and safe to store in plaintext.
pub record NormalTab : Type 0 where
  pub tab_key : String
  pub browser_window_id : String
  pub group_key : Option String
  pub tab_index : ℤ
  pub url : String
  pub title : Option String
  pub favicon_hash : Option String
  pub pinned : Bool
  pub active : Bool
  pub muted : Bool
  pub restorable : Bool
  pub last_accessed : Option ℤ

-- `NormalTab::from_delta`: a private tab has no such form.
unfoldable pub from_delta : TabDelta → Option NormalTab
from_delta d =
    if d.is_private
    then none
    else some (record {
      tab_key = d.tab_key;
      browser_window_id = d.window_id;
      group_key = d.group_key;
      tab_index = Option.get_or d.index (pos 0);
      url = Option.get_or d.url "";
      title = d.title;
      favicon_hash = d.favicon_hash;
      pinned = d.pinned;
      active = d.active;
      muted = d.muted;
      restorable = d.restorable;
      last_accessed = d.last_accessed;
    })

-- `now` is the clock when the message is applied.
pub record IngestCtx : Type 0 where
  pub platform : Platform
  pub capture_private : Bool
  pub private_ttl_hours : ℤ
  pub snapshot_id : ℕ
  pub now : ℤ

-- `IngestCtx::live`: the settings, and the live snapshot.
unfoldable pub live_ctx : Platform → ℤ → Db → IngestCtx
live_ctx platform now db = record {
  platform = platform;
  capture_private = setting_bool "capture_private_windows" false db.settings;
  private_ttl_hours = setting_i64 "private_ttl_hours" (pos 24) db.settings;
  snapshot_id = live;
  now = now;
}

-- The row that a tab is stored as.
unfoldable pub tab_row : IngestCtx → NormalTab → TabRow
tab_row ctx tab = record {
  snapshot_id = ctx.snapshot_id;
  tab_key = tab.tab_key;
  browser_window_id = tab.browser_window_id;
  group_key = tab.group_key;
  tab_index = tab.tab_index;
  url = tab.url;
  title = tab.title;
  favicon_hash = tab.favicon_hash;
  pinned = tab.pinned;
  active = tab.active;
  muted = tab.muted;
  restorable = tab.restorable;
  last_accessed = tab.last_accessed;
  updated_at = ctx.now;
}

-- Every column but the key is overwritten.
abbrev pub overwrite {ℓ} : {R : Type ℓ} → R → R → R
overwrite old new = new

-- The only writer of `tabs`.
unfoldable pub store_normal : IngestCtx → NormalTab → Exec Db (Unit {0})
unfolding tab_row
store_normal ctx tab =
    modify (λ db. record db { tabs = Row.upsert overwrite (tab_row ctx tab) db.tabs })

unfoldable pub private_payload : TabDelta → PrivatePayload
private_payload tab = record {
  url = Option.get_or tab.url "";
  title = tab.title;
  pinned = tab.pinned;
  active = tab.active;
  muted = tab.muted;
}

unfoldable pub private_row : IngestCtx → TabDelta → ℕ → List ℕ → List ℕ → PrivateRow
private_row ctx tab key_id nonce ciphertext = record {
  snapshot_id = ctx.snapshot_id;
  tab_key = tab.tab_key;
  browser_window_id = tab.window_id;
  tab_index = Option.get_or tab.index (pos 0);
  nonce = nonce;
  ciphertext = ciphertext;
  key_id = key_id;
  expires_at = ctx.now +ℤ ctx.private_ttl_hours *ℤ pos 3600 *ℤ pos 1000;
  updated_at = ctx.now;
}

-- `store_private_encrypted` once it has its key.
unfoldable pub seal_and_store : IngestCtx → TabDelta → ℕ × List ℕ → Exec Db (Unit {0})
unfolding private_row private_payload
seal_and_store ctx tab key = do
  let plaintext = ctx.platform.to_json (private_payload tab)
  nonce ← draw ctx.platform nonce_len
  ciphertext ← lift (seal ctx.platform key.1 nonce (aad tab.tab_key key.0) plaintext)
  modify (λ db. record db {
    tabs_private =
        Row.upsert overwrite (private_row ctx tab key.0 nonce ciphertext) db.tabs_private;
  })

-- The only writer of `tabs_private`.
unfoldable pub store_private_encrypted : IngestCtx → TabDelta → Exec Db (Unit {0})
unfolding seal_and_store
store_private_encrypted ctx tab = do
  key ← active_dek ctx.platform ctx.now
  seal_and_store ctx tab key

-- Removes a tab from both tables.
unfoldable pub remove_tab : IngestCtx → String → Exec Db (Unit {0})
remove_tab ctx tab_key = modify (λ db. record db {
  tabs = delete_key ctx.snapshot_id tab_key db.tabs;
  tabs_private = delete_key ctx.snapshot_id tab_key db.tabs_private;
})

abbrev pub store_if_normal : IngestCtx → Option NormalTab → Exec Db (Unit {0})
store_if_normal ctx none = pure tt
store_if_normal ctx (some n) = store_normal ctx n

-- The branches of `ingest_tab` on an upsert.
unfoldable pub ingest_upsert : IngestCtx → TabDelta → Exec Db (Unit {0})
ingest_upsert ctx tab =
    if tab.is_private
    then if ctx.capture_private then store_private_encrypted ctx tab else pure tt
    else store_if_normal ctx (from_delta tab)

abbrev pub route : Op → IngestCtx → TabDelta → Exec Db (Unit {0})
route remove ctx tab = remove_tab ctx tab.tab_key
route upsert ctx tab = ingest_upsert ctx tab

-- The ONLY place tab data may enter storage.
unfoldable pub ingest_tab : IngestCtx → TabDelta → Exec Db (Unit {0})
unfolding ingest_upsert
ingest_tab ctx tab = route tab.op ctx tab

-- Hard-deletes expired private rows, and returns how many there were.
unfoldable pub sweep_expired_private : ℤ → Db → ℕ × Db
sweep_expired_private now db =
    let kept = select (λ r. not (ltb_ℤ r.expires_at now)) db.tabs_private in
    (length db.tabs_private - length kept, record db { tabs_private = kept })

-- Deletes every private row.
unfoldable pub purge_all_private : Db → ℕ × Db
purge_all_private db = (length db.tabs_private, record db { tabs_private = [] })
