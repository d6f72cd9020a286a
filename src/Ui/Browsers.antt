-- ===== src/Ui/Browsers.antt =====
-- What each supported browser looks like on this machine: agent/crates/sr-agent/src/browsers.rs.
use text.Mathlib.Text.{is_lt}
use Prim.Native.String
use session_restore.Common.{
  String, ◌||◌, Bool, true, false, Option, none, some, List, [], ◌∷◌, map, find, any, select, ◌==◌,
  String_eq, if◌then◌else◌,
}
use session_restore.Common.Texts.{has_suffix, is_empty}
use session_restore.Exec.{Exec, pure, raise, no_executable, unknown_browser, no_start}
use session_restore.Store.Schema.{StatusRow}
use session_restore.Store.Db.{Db}

-- What is asked of the system: the folders that ProgramFiles, ProgramFiles(x86) and LOCALAPPDATA
-- name, those of them that are set; whether a path is a file; whether a program starts with one
-- argument.
pub record Machine : Type 0 where
  pub program_roots : List String
  pub is_file : String → Bool
  pub starts : String → String → Bool

pub record BrowserInfo : Type 0 where
  pub id : String
  pub label : String
  pub installed : Bool
  pub connected : Bool
  pub private_allowed : Bool
  pub ext_version : Option String
  pub extensions_page : String
  pub private_hint : String

pub record Known : Type 0 where
  pub id : String
  pub label : String
  pub exe_candidates : List String
  pub extensions_page : String
  pub private_hint : String

abbrev pub known : List Known
known =
    record {
      id = "chrome";
      label = "Chrome";
      exe_candidates = "Google\\Chrome\\Application\\chrome.exe" ∷ [];
      extensions_page = "chrome://extensions";
      private_hint = "Details, then turn on Allow in Incognito";
    }
    ∷ record {
      id = "edge";
      label = "Edge";
      exe_candidates = "Microsoft\\Edge\\Application\\msedge.exe" ∷ [];
      extensions_page = "edge://extensions";
      private_hint = "Details, then turn on Allow in InPrivate";
    }
    ∷ record {
      id = "firefox";
      label = "Firefox";
      exe_candidates = "Mozilla Firefox\\firefox.exe" ∷ [];
      extensions_page = "about:addons";
      private_hint = "Session Restore, then set Run in Private Windows to Allow";
    }
    ∷ []

abbrev pub known_by : String → Option Known
known_by id = find (λ k. k.id == id) known

-- A drive alone, as `C:`.
abbrev is_drive : String → Bool
is_drive (String.◌∷◌ letter (String.◌∷◌ colon String.[])) = String.◌∷◌ colon String.[] == ":"
is_drive _ = false

-- `Path::join` on Windows with a relative path.
abbrev pub join_path : String → String → String
join_path root rel =
    if is_empty root || (has_suffix "\\" root || has_suffix "/" root) || is_drive root
    then String.◌++◌ root rel
    else String.◌++◌ root (String.◌++◌ "\\" rel)

-- The paths to look at, root by root.
unfoldable paths_under : String → List String → List String
paths_under root = map (join_path root)

unfoldable pub first_file : (String → Bool) → List String → List String → Option String
unfolding paths_under
first_file is_file rels [] = none
first_file is_file rels (root ∷ roots) =
    let rest = first_file is_file rels roots in
    elim (find is_file (paths_under root rels)) [ none ↦ rest | some p ↦ some p ]

abbrev executable_of : Machine → Option Known → Option String
executable_of m none = none
executable_of m (some k) = first_file m.is_file k.exe_candidates m.program_roots

-- The executable for a browser, if it is installed.
unfoldable pub executable : Machine → String → Option String
unfolding first_file find
executable m id = executable_of m (known_by id)

-- MAX(ext_version), which passes over NULL.
abbrev larger : Option String → Option String → Option String
larger none b = b
larger (some a) none = some a
larger (some a) (some b) = if is_lt (String.compare a b) then some b else some a

unfoldable pub max_version : List StatusRow → Option String
max_version [] = none
max_version (r ∷ rs) = larger r.ext_version (max_version rs)

abbrev pub status_of : String → List StatusRow → List StatusRow
status_of browser rows = select (λ r. r.browser == browser) rows

abbrev is_some : Option String → Bool
is_some none = false
is_some (some _) = true

unfoldable pub browser_info : Machine → List StatusRow → List String → Known → BrowserInfo
unfolding executable max_version any select
browser_info m status connected k = record {
  id = k.id;
  label = k.label;
  installed = is_some (executable m k.id);
  connected = any (λ c. c == k.id) connected;
  private_allowed = any (λ r. r.incognito_access) (status_of k.id status);
  ext_version = max_version (status_of k.id status);
  extensions_page = k.extensions_page;
  private_hint = k.private_hint;
}

-- Every supported browser, with its current state on this machine.
unfoldable pub detect : Machine → Db → List String → List BrowserInfo
unfolding browser_info
detect m db connected = map (browser_info m db.browser_status connected) known

abbrev pub start_page : Machine → Option String → Option Known → Exec Db (Unit {0})
start_page m none _ = raise no_executable
start_page m (some exe) none = raise unknown_browser
start_page m (some exe) (some k) =
    if m.starts exe k.extensions_page then pure tt else raise no_start

-- Opens a browser on its own extensions page.
unfoldable pub open_extensions_page : Machine → String → Exec Db (Unit {0})
unfolding executable find
open_extensions_page m id = start_page m (executable m id) (known_by id)
