-- ===== src/Restore/Launches.antt =====
-- The browsers that a restore needs running: `browsers_to_launch` of
-- agent/crates/sr-agent/src/restore/mod.rs. Unicode lower case is a parameter.
use mathlib.Core.Option
use session_restore.Common.{
  ℕ, String, Bool, true, false, not, ◌&&◌, ◌||◌, Option, none, some, List, [], ◌∷◌, ◌++◌, map, drop,
  ◌==◌, ℕ_eq, String_eq, if◌then◌else◌, select, find, any, contains,
}
use session_restore.Common.Texts.{has_text, has_prefix, unquoted}
use session_restore.Common.Paths.{file_name}
use session_restore.Proto.{as_str}
use session_restore.Store.Schema.{AppRow, WindowRow, StatusRow}
use session_restore.Store.Db.{Db, live}
use session_restore.Watcher.Profiles.{split_quoted, launch_args_for}
pub mod Sound

pub record BrowserLaunch : Type 0 where
  pub browser : String
  pub exe_path : String
  pub args : List String
  pub profile_dir : Option String

abbrev pub is_kept : String → Bool
is_kept a = has_prefix "--load-extension=" a || has_prefix "--disable-features=" a

-- Arguments worth carrying from a captured command line into a fresh launch.
unfoldable pub useful_args : String → List String
useful_args command_line =
    if has_text "<redacted:" command_line
    then []
    else select is_kept (map unquoted (drop 1 (split_quoted command_line)))

abbrev browser_named : String → Option String
browser_named name =
    if name == "chrome.exe"
    then some "chrome"
    else if name == "msedge.exe"
    then some "edge"
    else if name == "firefox.exe"
    then some "firefox"
    else none

-- The browser id that the extension will report for an executable.
unfoldable pub browser_id_for_exe : (String → String) → String → Option String
browser_id_for_exe lower exe = Option.bind (file_name exe) (λ name. browser_named (lower name))

abbrev is_window_of : ℕ → String → WindowRow → Bool
is_window_of id browser w = w.snapshot_id == id && as_str w.browser == browser

unfoldable pub window_in_profile : Db → ℕ → String → String → List String → Bool
window_in_profile db id browser profile wanted =
    any
      (λ w.
        is_window_of id browser w
        && (w.profile_key == profile && contains w.browser_window_id wanted))
      db.browser_windows

abbrev dir_of : Option StatusRow → Option String
dir_of none = none
dir_of (some s) = s.profile_dir

abbrev stored_dir : Db → String → String → Option String
stored_dir db browser profile =
    dir_of (find (λ s. s.browser == browser && s.profile_key == profile) db.browser_status)

-- SELECT DISTINCT, of the profile keys; the directory is found by the key.
unfoldable pub distinct : List String → List String
distinct [] = []
distinct (k ∷ ks) = let rest = distinct ks in if contains k ks then rest else k ∷ rest

abbrev push_dir : Option String → List String → List String
push_dir none rest = rest
push_dir (some d) rest = d ∷ rest

unfoldable pub dirs_of : Db → String → List String → List String
dirs_of db browser [] = []
dirs_of db browser (k ∷ ks) = push_dir (stored_dir db browser k) (dirs_of db browser ks)

abbrev only : List String → Option String
only (d ∷ []) = some d
only _ = none

abbrev or_all : List String → List String → List String
or_all [] keys = keys
or_all (k ∷ ks) keys = k ∷ ks

abbrev pub is_empty_list : List String → Bool
is_empty_list [] = true
is_empty_list (_ ∷ _) = false

-- The profile directory for the windows that are restored, when one is known.
unfoldable pub profile_dir_for : Db → ℕ → String → List String → Option String
profile_dir_for db id browser wanted =
    let keys =
      distinct (map (λ w. w.profile_key) (select (is_window_of id browser) db.browser_windows)) in
    let asked =
      select (λ k. is_empty_list wanted || window_in_profile db id browser k wanted) keys in
    only (dirs_of db browser (or_all asked keys))

-- The browsers of the windows that were ticked.
unfoldable pub wanted_browsers : Db → ℕ → List String → List String
wanted_browsers db id wanted =
    map (λ w. as_str w.browser)
      (select (λ w. w.snapshot_id == id && not w.is_private && contains w.browser_window_id wanted)
        db.browser_windows)

abbrev pub exe_browser : (String → String) → AppRow → Option String
exe_browser lower a = Option.bind a.exe_path (browser_id_for_exe lower)

abbrev push_id : Option String → List String → List String
push_id none rest = rest
push_id (some b) rest = b ∷ rest

unfoldable pub browser_ids : (String → String) → List AppRow → List String
browser_ids lower [] = []
browser_ids lower (a ∷ more) = push_id (exe_browser lower a) (browser_ids lower more)

abbrev browser_apps : ℕ → Db → List AppRow
browser_apps id db = select (λ a. a.snapshot_id == id && a.is_browser) db.apps

-- The browsers that have a window now.
unfoldable pub running_browsers : (String → String) → Db → List String
running_browsers lower db = browser_ids lower (browser_apps live db)

-- Whether a browser is started: asked for, not running, and not started already.
abbrev pub is_missing : List String → List String → List String → String → Bool
is_missing wanted running seen b =
    contains b wanted && not (contains b running) && not (contains b seen)

abbrev pub to_start : List String → List String → List String → Option String → Option String
to_start wanted running seen none = none
to_start wanted running seen (some b) = if is_missing wanted running seen b then some b else none

abbrev pub args_of : Option String → List String
args_of none = []
args_of (some c) = useful_args c

unfoldable pub launch : Db → ℕ → List String → AppRow → String → BrowserLaunch
launch db id wanted_windows a browser =
    let dir = profile_dir_for db id browser wanted_windows in
    record {
      browser = browser;
      exe_path = Option.get_or a.exe_path "";
      args = args_of a.command_line ++ launch_args_for browser dir;
      profile_dir = dir;
    }

abbrev pub push_launch :
    Option String → (String → BrowserLaunch) → List BrowserLaunch → List BrowserLaunch
push_launch none f rest = rest
push_launch (some b) f rest = f b ∷ rest

abbrev pub mark : Option String → List String → List String
mark none seen = seen
mark (some b) seen = b ∷ seen

-- The loop over the browsers of the snapshot.
unfoldable pub launches :
    (String → String)
    → (AppRow → String → BrowserLaunch)
    → List String
    → List String
    → List String
    → List AppRow
    → List BrowserLaunch
launches lower start wanted running seen [] = []
launches lower start wanted running seen (a ∷ more) =
    let b = to_start wanted running seen (exe_browser lower a) in
    push_launch b (start a) (launches lower start wanted running (mark b seen) more)

unfoldable pub browsers_to_launch : (String → String) → Db → ℕ → List String → List BrowserLaunch
browsers_to_launch lower db id wanted_windows =
    let wanted = wanted_browsers db id wanted_windows in
    if is_empty_list wanted
    then []
    else launches lower (launch db id wanted_windows) wanted (running_browsers lower db) []
        (browser_apps id db)
