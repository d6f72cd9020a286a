-- ===== src/Tests/Starts.antt =====
-- The browsers that a restore starts.
use session_restore.Common.{◌≡◌, refl, true, none, some, [], ◌∷◌, find, any, select}
use mathlib.Core.Option.{bind}
use session_restore.Proto.{as_str}
use session_restore.Common.Paths.{file_name, components, last_name}
use session_restore.Common.Texts.{
  has_text, strip_prefix, unquoted, split_from, trim_start_matches, trim_end_matches,
}
use session_restore.Store.Schema.{AppRow}
use session_restore.Store.Db.{Db}
use session_restore.Watcher.Profiles.{split_quoted, launch_args_for}
use session_restore.Restore.Launches.{
  useful_args, browser_id_for_exe, profile_dir_for, distinct, dirs_of, window_in_profile,
  wanted_browsers, running_browsers, browser_ids, launch, launches, browsers_to_launch,
}
use session_restore.Restore.Launches.Sound.{AreMissing, browsers_to_launch-AreMissing}
use session_restore.Tests.Fixtures.{two_snapshots, app_at}

abbrev chrome_app : AppRow
chrome_app = record (app_at 1 "chrome") {
  exe_path = some "C:\\apps\\chrome.exe";
  command_line = some "chrome.exe --no-startup-window --load-extension=C:\\ext";
  is_browser = true;
}

abbrev with_chrome : Db
with_chrome = record two_snapshots { apps = chrome_app ∷ [] }

-- Its flag for a hidden start is not replayed.
browsers_to_launch-with_chrome :
    browsers_to_launch (λ s. s) with_chrome 1 ("w1" ∷ [])
    ≡ record {
      browser = "chrome";
      exe_path = "C:\\apps\\chrome.exe";
      args = "--load-extension=C:\\ext" ∷ [];
      profile_dir = none;
    }
      ∷ []
unfolding browsers_to_launch launches launch wanted_browsers running_browsers browser_ids
    useful_args browser_id_for_exe profile_dir_for distinct dirs_of window_in_profile file_name
    components last_name has_text strip_prefix unquoted split_from trim_start_matches
    trim_end_matches split_quoted launch_args_for find any select as_str bind
browsers_to_launch-with_chrome = refl

browsers_to_launch-AreMissing_example :
    AreMissing
      (wanted_browsers with_chrome 1 ("w1" ∷ []))
      (running_browsers (λ s. s) with_chrome)
      []
      (browsers_to_launch (λ s. s) with_chrome 1 ("w1" ∷ []))
browsers_to_launch-AreMissing_example =
    browsers_to_launch-AreMissing (λ s. s) with_chrome 1 ("w1" ∷ [])
