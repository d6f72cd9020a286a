-- ===== src/Tests/Fixtures.antt =====
-- Test data: a small database, a platform that stands in for Windows, and a few messages.
use session_restore.Common.{
  ℕ, zero, suc, ◌≡◌, refl, sym, ap, length, any, String, Bool, true, false, none, some, List, [],
  ◌∷◌,
}
use session_restore.Common.Int.{pos}
use session_restore.Proto.{
  BrowserKind, chrome, firefox, Op, upsert, BrowserWindowDelta, TabDelta, StateBody,
}
use session_restore.Store.Crypto.{Platform, IsPlatform, PrivatePayload}
use session_restore.Store.Schema.{WindowRow, TabRow, AppRow}
use session_restore.Watcher.Identity.{win32, tier_b}
use session_restore.Store.Db.{Db, SnapshotRow, SnapshotKind, live_kind, shutdown, manual}
use session_restore.Store.Snapshot.Tables.{IsOwned}
use session_restore.Server.State.{Reporter}

abbrev repeat : ℕ → ℕ → List ℕ
repeat b zero = []
repeat b (suc n) = b ∷ repeat b n

-- What the tabs of `tab_delta` below carry.
abbrev known_payload : PrivatePayload
known_payload = record {
  url = "https://example.com/";
  title = none;
  pinned = true;
  active = false;
  muted = false;
}

-- Keys and messages are stored as they are.
abbrev pub open_platform : Platform
open_platform = record {
  random = λ draw n. repeat draw n;
  protect = λ raw e. some raw;
  unprotect = λ raw e. some raw;
  encrypt = λ key nonce aad msg. some msg;
  decrypt = λ key nonce aad c. some c;
  to_json = λ p. [];
  from_json = λ bytes. some known_payload;
}

length-repeat : (b n : ℕ) → length (repeat b n) ≡ n
length-repeat b zero = refl
length-repeat b (suc n) = ap suc (length-repeat b n)

pub open_platform-IsPlatform : IsPlatform open_platform
open_platform-IsPlatform = record {
  length-random = λ draw n. length-repeat draw n;
  unprotect-protect = λ raw e w h. sym h;
  decrypt-encrypt = λ key nonce aad msg c h. sym h;
}

abbrev pub window_at : ℕ → String → BrowserKind → String → Bool → WindowRow
window_at id window browser profile is_private = record {
  snapshot_id = id;
  browser_window_id = window;
  browser = browser;
  profile_key = profile;
  is_private = is_private;
  window_state = none;
  x = none;
  y = none;
  w = none;
  h = none;
  focused = true;
  updated_at = pos 5;
}

abbrev pub tab_at : ℕ → String → String → TabRow
tab_at id key window = record {
  snapshot_id = id;
  tab_key = key;
  browser_window_id = window;
  group_key = none;
  tab_index = pos 0;
  url = "https://example.org/";
  title = some "Example";
  favicon_hash = none;
  pinned = false;
  active = true;
  muted = false;
  restorable = true;
  last_accessed = none;
  updated_at = pos 5;
}

abbrev pub app_at : ℕ → String → AppRow
app_at id key = record {
  snapshot_id = id;
  app_key = key;
  kind = win32;
  exe_path = some "C:\\notes.exe";
  aumid = none;
  display_name = none;
  icon_hash = none;
  command_line = none;
  working_dir = none;
  documents = none;
  is_browser = false;
  restore_tier = tier_b;
}

abbrev pub snapshot_at : ℕ → ℕ → SnapshotKind → Bool → SnapshotRow
snapshot_at id at kind pinned = record {
  id = id;
  captured_at = pos at;
  kind = kind;
  label = none;
  machine_id = "m";
  pinned = pinned;
  app_count = 1;
  tab_count = 1;
}

-- LIVE, and two snapshots of it, the newer one pinned.
abbrev pub two_snapshots : Db
two_snapshots = record {
  meta = ("machine_id", "m") ∷ [];
  settings = record { key = "capture_private_windows"; value = "true"; updated_at = pos 1 } ∷ [];
  snapshots =
      snapshot_at 0 0 live_kind false
      ∷ snapshot_at 1 10 shutdown false
      ∷ snapshot_at 2 20 manual true
      ∷ [];
  browser_windows =
      window_at 0 "w1" chrome "p" false
      ∷ window_at 0 "w2" firefox "p" false
      ∷ window_at 1 "w1" chrome "p" false
      ∷ [];
  tabs = tab_at 0 "t1" "w1" ∷ tab_at 0 "t2" "w2" ∷ tab_at 1 "t1" "w1" ∷ [];
  tabs_private = [];
  tab_groups = [];
  displays = [];
  apps = app_at 0 "notes" ∷ [];
  windows = [];
  crypto_keys = [];
  restore_runs = [];
  restore_items = [];
  browser_status = [];
  keys_bin = none;
  draws = 0;
}

pub two_snapshots-IsOwned : IsOwned two_snapshots
unfolding any
two_snapshots-IsOwned = record {
  browser_windows = (refl, (refl, (refl, tt)));
  tabs = (refl, (refl, (refl, tt)));
  tabs_private = tt;
  tab_groups = tt;
  displays = tt;
  apps = (refl, tt);
  windows = tt;
}

abbrev pub without_capture : Db
without_capture = record two_snapshots { settings = [] }

abbrev pub tab_delta : Op → String → Bool → TabDelta
tab_delta op key is_private = record {
  op = op;
  tab_key = key;
  window_id = "w1";
  group_key = none;
  index = some (pos 3);
  url = some "https://example.com/";
  title = none;
  favicon_hash = none;
  pinned = true;
  active = false;
  muted = false;
  last_accessed = none;
  is_private = is_private;
  restorable = true;
}

abbrev pub window_delta : Op → String → BrowserWindowDelta
window_delta op window = record {
  op = op;
  window_id = window;
  is_private = false;
  state = none;
  x = none;
  y = none;
  w = none;
  h = none;
  focused = false;
}

-- Chrome says that it has one window with one tab, which is new.
abbrev pub one_new_tab : StateBody
one_new_tab = record {
  windows = window_delta upsert "w1" ∷ [];
  tabs = tab_delta upsert "t3" false ∷ tab_delta upsert "t4" true ∷ [];
  groups = [];
}

abbrev pub chrome_reports : Reporter
chrome_reports = record { browser = some chrome; profile = "p" }
