-- ===== src/Proto.antt =====
-- The wire types of agent/crates/sr-proto/src/lib.rs, after decoding. A text that the schema limits
-- to a few words is the enumeration of those words.
use session_restore.Common.{
  ℕ, String, Bool, true, false, Option, List, ◌≡◌, ◌↔◌, arith, Comparable, ltb,
}
use session_restore.Common.Int.{ℤ}
pub mod Frame
pub mod Utf8

pub data BrowserKind : Type 0 where
  chrome edge firefox : BrowserKind

unfoldable pub as_str : BrowserKind → String
as_str chrome = "chrome"
as_str edge = "edge"
as_str firefox = "firefox"

abbrev pub same_browser : BrowserKind → BrowserKind → Bool
same_browser chrome chrome = true
same_browser edge edge = true
same_browser firefox firefox = true
same_browser _ _ = false

pub same_browser_iff : (a b : BrowserKind) → (same_browser a b ≡ true) ↔ (a ≡ b)
same_browser_iff a b = ground arith

instance abbrev pub BrowserKind_eq : Comparable BrowserKind
BrowserKind_eq = record { equal = same_browser; equal_iff = same_browser_iff }

pub record MessageSource : Type 0 where
  pub browser : BrowserKind
  pub profile_key : String
  pub ext_version : String
  pub browser_pid : Option ℕ

pub data WindowState : Type 0 where
  normal maximized minimized fullscreen : WindowState

pub data Op : Type 0 where
  upsert remove : Op

pub record BrowserWindowDelta : Type 0 where
  pub op : Op
  pub window_id : String
  pub is_private : Bool
  pub state : Option WindowState
  pub x : Option ℤ
  pub y : Option ℤ
  pub w : Option ℤ
  pub h : Option ℤ
  pub focused : Bool

pub record TabDelta : Type 0 where
  pub op : Op
  pub tab_key : String
  pub window_id : String
  pub group_key : Option String
  pub index : Option ℤ
  pub url : Option String
  pub title : Option String
  pub favicon_hash : Option String
  pub pinned : Bool
  pub active : Bool
  pub muted : Bool
  pub last_accessed : Option ℤ
  pub is_private : Bool
  pub restorable : Bool

pub record TabGroupDelta : Type 0 where
  pub op : Op
  pub group_key : String
  pub window_id : String
  pub title : Option String
  pub color : Option String
  pub collapsed : Bool

-- Body shared by `tab_delta` (incremental) and `full_state` (authoritative).
pub record StateBody : Type 0 where
  pub windows : List BrowserWindowDelta
  pub tabs : List TabDelta
  pub groups : List TabGroupDelta

-- One outcome of a restore: the texts that the JSON object has.
pub record ResultItem : Type 0 where
  pub tab_key : Option String
  pub status : Option String
  pub detail : Option String

-- What serde_json finds in the body of an envelope: each field under its name if the value there has
-- the type that the reader asks for, the items of a `restore_result` (the empty list where there is
-- no array), and the whole body as a batch of deltas if it decodes as one.
pub record Body : Type 0 where
  pub profile_id : Option String
  pub incognito_access : Option Bool
  pub run_id : Option ℕ
  pub closed : Option ℤ
  pub items : List ResultItem
  pub state : Option StateBody

pub record Envelope : Type 0 where
  pub v : ℕ
  pub kind : String
  pub src : Option MessageSource
  pub body : Body

pub record HelloAckBody : Type 0 where
  pub protocol_version : ℕ
  pub capture_enabled : Bool
  pub capture_private : Bool
  pub reconcile_interval_s : ℕ

abbrev pub protocol_version : ℕ
protocol_version = 1

-- `Envelope::is_too_new`, of an envelope's version.
unfoldable pub is_too_new : ℕ → Bool
is_too_new v = ltb protocol_version v
