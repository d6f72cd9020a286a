-- ===== src/Ui/Review.antt =====
-- The restore review: agent/crates/sr-agent/src/ui/review.rs. The JSON of a document list is a
-- parameter, as is what the platform does.
use Prim.Native.Char.{Char, code}
use Prim.Native.String
use text.Mathlib.Text.{is_lt}
use mathlib.Core.Option
use session_restore.Common.{
  ℕ, zero, suc, ◌+◌, ◌*◌, ◌/◌, String, Bool, true, false, not, ◌&&◌, ◌||◌, Option, none, some, List,
  [], ◌∷◌, ◌++◌, map, ◌==◌, ℕ_eq, String_eq, if◌then◌else◌, ltb, leb, length, select, find,
  contains, any,
}
use session_restore.Common.Int.{ℤ, pos, negsuc, ◌-ℤ◌, ltb_ℤ, leb_ℤ}
use session_restore.Common.Paths.{file_name}
use session_restore.Common.Texts.{is_char, is_empty, to_decimal}
use session_restore.Exec.{
  Exec, Outcome, ok, err, private_disabled, bad_json, pure, lift, gets, ◌>>=◌,
}
use session_restore.Proto.{as_str}
use session_restore.Watcher.Identity.{Tier, tier_a, tier_b, tier_c, tier_d, AppKind, uwp}
use session_restore.Store.Schema.{AppRow, DesktopRow, WindowRow, TabRow, PrivateRow}
use session_restore.Store.Crypto.{Platform, PrivatePayload, aad, unseal, or_error}
use session_restore.Store.Keys.{dek_by_id}
use session_restore.Store.Db.{Db, SnapshotRow, setting_bool}
use session_restore.Restore.Payload.{tab_rows}
use session_restore.Restore.Apps.{sort_apps}
pub mod Reveal
pub mod Blind
pub mod Offered

pub record ReviewApp : Type 0 where
  pub app_key : String
  pub name : String
  pub tier : Tier
  pub tier_note : String
  pub windows : ℕ
  pub restorable : Bool
  pub documents : List String
  pub untitled_windows : ℕ

pub record ReviewTab : Type 0 where
  pub url : String
  pub title : String
  pub tab_key : String

pub record ReviewBrowserWindow : Type 0 where
  pub window_id : String
  pub browser : String
  pub profile : String
  pub tabs : List ReviewTab

-- What the page is told of private windows before the user asks.
pub record PrivateSummary : Type 0 where
  pub windows : ℕ
  pub tabs : ℕ
  pub expires_in_hours : ℕ
  pub available : Bool

pub record ReviewData : Type 0 where
  pub snapshot_id : ℕ
  pub captured_at : ℤ
  pub captured_label : String
  pub apps : List ReviewApp
  pub browser_windows : List ReviewBrowserWindow
  pub private_summary : PrivateSummary

unfoldable pub tier_note : Tier → AppKind → String
tier_note tier_a kind = "exact"
tier_note tier_b uwp = "launch only"
tier_note tier_b _ = "launch only - no saved arguments"
tier_note tier_c kind = "reopens the document"
tier_note tier_d kind = "needs admin - cannot restore"

abbrev push_some : Option String → List String → List String
push_some none rest = rest
push_some (some n) rest = n ∷ rest

unfoldable pub file_names : List String → List String
file_names [] = []
file_names (p ∷ ps) = push_some (file_name p) (file_names ps)

abbrev is_none : Option String → Bool
is_none none = true
is_none (some _) = false

unfoldable pub windows_of : AppRow → List DesktopRow → List DesktopRow
windows_of a rows = select (λ w. w.snapshot_id == a.snapshot_id && w.app_key == a.app_key) rows

unfoldable pub review_app : (String → Option (List String)) → List DesktopRow → AppRow → ReviewApp
review_app parse rows a = record {
  app_key = a.app_key;
  name = Option.get_or a.display_name "?";
  tier = a.restore_tier;
  tier_note = tier_note a.restore_tier a.kind;
  windows = length (windows_of a rows);
  restorable = elim a.restore_tier [ tier_d ↦ false | _ ↦ true ];
  documents = file_names (Option.get_or (Option.bind a.documents parse) []);
  untitled_windows = length (select (λ w. is_none w.title) (windows_of a rows));
}

abbrev pub review_tab : TabRow → ReviewTab
review_tab r = record { url = r.url; title = Option.get_or r.title ""; tab_key = r.tab_key }

-- A window without tabs is passed over.
abbrev pub push_shown : ReviewBrowserWindow → List ReviewBrowserWindow → List ReviewBrowserWindow
push_shown w rest = elim w.tabs [ [] ↦ rest | _ ∷ _ ↦ w ∷ rest ]

unfoldable pub review_windows : Db → ℕ → List WindowRow → List ReviewBrowserWindow
review_windows db id [] = []
review_windows db id (w ∷ ws) =
    push_shown
      (record {
        window_id = w.browser_window_id;
        browser = as_str w.browser;
        profile = w.profile_key;
        tabs = map review_tab (tab_rows db id w.browser_window_id);
      })
      (review_windows db id ws)

-- COUNT(DISTINCT ..)
unfoldable pub count_distinct : List String → ℕ
count_distinct [] = 0
count_distinct (x ∷ xs) = let rest = count_distinct xs in if contains x xs then rest else suc rest

-- MIN(..), 0 where there is no row.
unfoldable pub soonest : List ℤ → Option ℤ
soonest [] = none
soonest (x ∷ xs) = elim (soonest xs) [ none ↦ some x | some y ↦ some (if ltb_ℤ y x then y else x) ]

abbrev pub is_unexpired : ℤ → ℕ → PrivateRow → Bool
is_unexpired now id r = r.snapshot_id == id && ltb_ℤ now r.expires_at

abbrev hours_between : ℤ → ℕ
hours_between (pos ms) = ms / 3600000
hours_between (negsuc _) = 0

unfoldable pub summary : ℤ → Bool → List String → List ℤ → PrivateSummary
summary now enabled windows expiries =
    let first = Option.get_or (soonest expiries) (pos 0) in
    record {
      windows = count_distinct windows;
      tabs = length expiries;
      expires_in_hours = if ltb_ℤ now first then hours_between (first -ℤ now) else 0;
      available = ltb 0 (length expiries) && enabled;
    }

unfoldable pub private_summary_of : ℤ → ℕ → Db → PrivateSummary
private_summary_of now id db =
    let rows = select (is_unexpired now id) db.tabs_private in
    summary now (setting_bool "capture_private_windows" false db.settings)
      (map (λ r. r.browser_window_id) rows) (map (λ r. r.expires_at) rows)

abbrev plural : ℕ → String → String
plural n unit =
    String.◌++◌ (to_decimal n)
      (String.◌++◌ " " (String.◌++◌ unit (if n == 1 then " ago" else "s ago")))

unfoldable pub humanize_age : ℤ → String
humanize_age (negsuc _) = "just now"
humanize_age (pos ms) =
    let mins = ms / 60000 in
    if ltb mins 2
    then "just now"
    else if ltb mins 60
    then String.◌++◌ (to_decimal mins) " minutes ago"
    else if ltb mins (60 * 24)
    then plural (mins / 60) "hour"
    else plural (mins / (60 * 24)) "day"

abbrev time_of : Option SnapshotRow → ℤ
time_of none = pos 0
time_of (some s) = s.captured_at

-- Gathers everything that the review window shows.
unfoldable pub collect : (String → Option (List String)) → ℤ → ℕ → Db → ReviewData
collect parse now id db =
    let captured_at = time_of (find (λ s. s.id == id) db.snapshots) in
    record {
      snapshot_id = id;
      captured_at = captured_at;
      captured_label = humanize_age (now -ℤ captured_at);
      apps =
          map (review_app parse db.windows)
            (sort_apps (select (λ a. a.snapshot_id == id && not a.is_browser) db.apps));
      browser_windows =
          review_windows db id
            (select (λ w. w.snapshot_id == id && not w.is_private) db.browser_windows);
      private_summary = private_summary_of now id db;
    }
