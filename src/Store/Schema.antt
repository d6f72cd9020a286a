-- ===== src/Store/Schema.antt =====
-- The rows of agent/crates/sr-agent/src/store/schema.sql. Times are milliseconds since the epoch; a
-- BLOB is a list of bytes; a text under a CHECK is the enumeration of what the check allows.
use session_restore.Common.{ℕ, String, refl, Bool, Option, List}
use session_restore.Common.Int.{ℤ}
use session_restore.Proto.{BrowserKind, WindowState}
use session_restore.Store.Row.{Row}
use session_restore.Watcher.Identity.{Tier, AppKind}

pub record WindowRow : Type 0 where
  pub snapshot_id : ℕ
  pub browser_window_id : String
  pub browser : BrowserKind
  pub profile_key : String
  pub is_private : Bool
  pub window_state : Option WindowState
  pub x : Option ℤ
  pub y : Option ℤ
  pub w : Option ℤ
  pub h : Option ℤ
  pub focused : Bool
  pub updated_at : ℤ

pub record TabRow : Type 0 where
  pub snapshot_id : ℕ
  pub tab_key : String
  pub browser_window_id : String
  pub group_key : Option String
  pub tab_index : ℤ
  pub url : String
  pub title : Option String
  pub favicon_hash : Option String
  pub pinned : Bool
  pub active : Bool
  pub muted : Bool
  pub restorable : Bool
  pub last_accessed : Option ℤ
  pub updated_at : ℤ

pub record PrivateRow : Type 0 where
  pub snapshot_id : ℕ
  pub tab_key : String
  pub browser_window_id : String
  pub tab_index : ℤ
  pub nonce : List ℕ
  pub ciphertext : List ℕ
  pub key_id : ℕ
  pub expires_at : ℤ
  pub updated_at : ℤ

pub record GroupRow : Type 0 where
  pub snapshot_id : ℕ
  pub group_key : String
  pub browser_window_id : String
  pub title : Option String
  pub color : Option String
  pub collapsed : Bool

pub record DisplayRow : Type 0 where
  pub snapshot_id : ℕ
  pub display_key : String
  pub friendly_name : Option String
  pub is_primary : Bool
  pub bounds_x : ℤ
  pub bounds_y : ℤ
  pub bounds_w : ℤ
  pub bounds_h : ℤ
  pub work_x : Option ℤ
  pub work_y : Option ℤ
  pub work_w : Option ℤ
  pub work_h : Option ℤ
  pub dpi : ℕ

pub record AppRow : Type 0 where
  pub snapshot_id : ℕ
  pub app_key : String
  pub kind : AppKind
  pub exe_path : Option String
  pub aumid : Option String
  pub display_name : Option String
  pub icon_hash : Option String
  pub command_line : Option String
  pub working_dir : Option String
  pub documents : Option String
  pub is_browser : Bool
  pub restore_tier : Tier

pub data ShowCmd : Type 0 where
  normal maximized minimized : ShowCmd

pub record DesktopRow : Type 0 where
  pub snapshot_id : ℕ
  pub window_key : String
  pub app_key : String
  pub title : Option String
  pub display_key : Option String
  pub norm_x : Option ℤ
  pub norm_y : Option ℤ
  pub norm_w : Option ℤ
  pub norm_h : Option ℤ
  pub show_cmd : ShowCmd
  pub z_order : Option ℤ
  pub virtual_desktop_id : Option String
  pub is_browser : Bool
  pub browser_window_id : Option String

-- What a browser told about itself when it connected last; no snapshot copies it.
pub record StatusRow : Type 0 where
  pub browser : String
  pub profile_key : String
  pub ext_version : Option String
  pub incognito_access : Bool
  pub profile_dir : Option String
  pub last_seen : ℤ

instance abbrev pub WindowRow_row : Row WindowRow
WindowRow_row = record {
  snapshot_id = λ r. r.snapshot_id;
  key = λ r. r.browser_window_id;
  restamp = λ id r. record r { snapshot_id = id };
  snapshot_id-restamp = λ id r. refl;
  key-restamp = λ id r. refl;
}

instance abbrev pub TabRow_row : Row TabRow
TabRow_row = record {
  snapshot_id = λ r. r.snapshot_id;
  key = λ r. r.tab_key;
  restamp = λ id r. record r { snapshot_id = id };
  snapshot_id-restamp = λ id r. refl;
  key-restamp = λ id r. refl;
}

instance abbrev pub PrivateRow_row : Row PrivateRow
PrivateRow_row = record {
  snapshot_id = λ r. r.snapshot_id;
  key = λ r. r.tab_key;
  restamp = λ id r. record r { snapshot_id = id };
  snapshot_id-restamp = λ id r. refl;
  key-restamp = λ id r. refl;
}

instance abbrev pub GroupRow_row : Row GroupRow
GroupRow_row = record {
  snapshot_id = λ r. r.snapshot_id;
  key = λ r. r.group_key;
  restamp = λ id r. record r { snapshot_id = id };
  snapshot_id-restamp = λ id r. refl;
  key-restamp = λ id r. refl;
}

instance abbrev pub DisplayRow_row : Row DisplayRow
DisplayRow_row = record {
  snapshot_id = λ r. r.snapshot_id;
  key = λ r. r.display_key;
  restamp = λ id r. record r { snapshot_id = id };
  snapshot_id-restamp = λ id r. refl;
  key-restamp = λ id r. refl;
}

instance abbrev pub AppRow_row : Row AppRow
AppRow_row = record {
  snapshot_id = λ r. r.snapshot_id;
  key = λ r. r.app_key;
  restamp = λ id r. record r { snapshot_id = id };
  snapshot_id-restamp = λ id r. refl;
  key-restamp = λ id r. refl;
}

instance abbrev pub DesktopRow_row : Row DesktopRow
DesktopRow_row = record {
  snapshot_id = λ r. r.snapshot_id;
  key = λ r. r.window_key;
  restamp = λ id r. record r { snapshot_id = id };
  snapshot_id-restamp = λ id r. refl;
  key-restamp = λ id r. refl;
}
