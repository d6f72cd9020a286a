-- ===== src/Restore/Apps.antt =====
-- The restore of applications: agent/crates/sr-agent/src/restore/apps.rs. Starting a program, the
-- windows that are open, and the placing of windows are a parameter; so are the JSON of the
-- documents and Unicode lower case.
use Prim.Native.String
use text.Mathlib.Text.{is_lt}
use mathlib.Core.Option
use session_restore.Common.{
  ℕ, zero, suc, ◌+◌, String, Bool, true, false, not, ◌&&◌, ◌||◌, Option, none, some, List, [], ◌∷◌,
  ◌++◌, map, ◌==◌, ℕ_eq, String_eq, ltb, leb, contains, any, select, find, length, if◌then◌else◌,
}
use session_restore.Common.Int.{ℤ, pos, negsuc, leb_ℤ}
use session_restore.Watcher.Identity.{
  Tier, tier_a, tier_b, tier_c, tier_d, AppKind, win32, uwp, unknown,
}
use session_restore.Store.Schema.{AppRow, DesktopRow, DisplayRow, ShowCmd}
use session_restore.Store.Db.{Db}
use session_restore.Restore.Place.{Rect}
pub mod Launch
pub mod Safety
pub mod Plan

-- What is asked of the shell, of `CreateProcess` and of the activation of packaged applications.
pub data Action : Type 0 where
  shell : String → Action
  command_line : String → Option String → Action
  activate : String → Action

-- `open_now key` is the documents that the application has open, if it has a window; `attempt` is
-- none where the action succeeds and the error's text where it fails.
pub record Desktop : Type 0 where
  pub parse_documents : String → Option (List String)
  pub lower : String → String
  pub open_now : String → Option (List String)
  pub attempt : Action → Option String

pub record PlannedWindow : Type 0 where
  pub window_key : String
  pub rect : Rect
  pub display_key : Option String
  pub show_cmd : ShowCmd
  pub dpi : ℕ

pub record PlannedApp : Type 0 where
  pub app_key : String
  pub display_name : String
  pub kind : AppKind
  pub tier : Tier
  pub exe_path : Option String
  pub aumid : Option String
  pub command_line : Option String
  pub working_dir : Option String
  pub is_browser : Bool
  pub documents : List String
  pub windows : List PlannedWindow

-- The value of a column that is read as an i32.
abbrev as_i32 : Option ℤ → Option ℤ
as_i32 none = none
as_i32 (some v) =
    if leb_ℤ (negsuc 2_147_483_647) v && leb_ℤ v (pos 2_147_483_647) then some v else none

abbrev rect_of : Option ℤ → Option ℤ → Option ℤ → Option ℤ → Option Rect
rect_of (some x) (some y) (some w) (some h) = some (record { x = x; y = y; w = w; h = h })
rect_of _ _ _ _ = none

-- COALESCE(d.dpi, 96) over the LEFT JOIN of the displays.
unfoldable pub dpi_of : List DisplayRow → ℕ → Option String → ℕ
dpi_of displays id none = 96
dpi_of displays id (some key) =
    Option.get_or
      (Option.map (λ d. d.dpi) (find (λ d. d.snapshot_id == id && d.display_key == key) displays))
      96

abbrev planned_window : List DisplayRow → DesktopRow → Rect → PlannedWindow
planned_window displays r rect = record {
  window_key = r.window_key;
  rect = rect;
  display_key = r.display_key;
  show_cmd = r.show_cmd;
  dpi = dpi_of displays r.snapshot_id r.display_key;
}

-- A row without its rectangle is passed over.
unfoldable pub planned_windows : List DisplayRow → List DesktopRow → List PlannedWindow
unfolding dpi_of
planned_windows displays [] = []
planned_windows displays (r ∷ rs) =
    let rest = planned_windows displays rs in
    elim (rect_of (as_i32 r.norm_x) (as_i32 r.norm_y) (as_i32 r.norm_w) (as_i32 r.norm_h)) [
      | none ↦ rest
      | some rect ↦ planned_window displays r rect ∷ rest
    ]

unfoldable pub planned_app : Desktop → Db → AppRow → PlannedApp
unfolding planned_windows select
planned_app d db r = record {
  app_key = r.app_key;
  display_name = Option.get_or r.display_name "?";
  kind = r.kind;
  tier = r.restore_tier;
  exe_path = r.exe_path;
  aumid = r.aumid;
  command_line = r.command_line;
  working_dir = r.working_dir;
  is_browser = r.is_browser;
  documents = Option.get_or (Option.bind r.documents d.parse_documents) [];
  windows =
      planned_windows db.displays
        (select (λ w. w.snapshot_id == r.snapshot_id && w.app_key == r.app_key) db.windows);
}

abbrev pub rank : Tier → ℕ
rank tier_a = 0
rank tier_b = 1
rank tier_c = 2
rank tier_d = 3

-- NULL comes first.
abbrev name_before : Option String → Option String → Bool
name_before none _ = true
name_before (some a) none = false
name_before (some a) (some b) = not (is_lt (String.compare b a))

-- ORDER BY restore_tier, display_name
abbrev pub app_before : AppRow → AppRow → Bool
app_before a b =
    ltb (rank a.restore_tier) (rank b.restore_tier)
    || (leb (rank a.restore_tier) (rank b.restore_tier)
        && name_before a.display_name b.display_name)

unfoldable pub insert_app : AppRow → List AppRow → List AppRow
insert_app a [] = a ∷ []
insert_app a (b ∷ bs) =
    let rest = insert_app a bs in if app_before a b then a ∷ b ∷ bs else b ∷ rest

unfoldable pub sort_apps : List AppRow → List AppRow
unfolding insert_app
sort_apps [] = []
sort_apps (a ∷ as') = insert_app a (sort_apps as')

-- Browsers are left to their extensions.
unfoldable pub plan_from_snapshot : Desktop → Db → ℕ → List PlannedApp
unfolding planned_app sort_apps
plan_from_snapshot d db id =
    map (planned_app d db)
      (sort_apps (select (λ r. r.snapshot_id == id && not r.is_browser) db.apps))
