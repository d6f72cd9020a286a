-- ===== src/Tests/Controls.antt =====
-- The settings window.
use session_restore.Common.{
  ◌≡◌, refl, true, false, none, some, [], ◌∷◌, arith, inl, ◌==◌, String_eq, find,
}
use session_restore.Common.Int.{pos}
use session_restore.Exec.{ok, err, private_disabled, no_executable}
use session_restore.Common.Texts.{has_suffix}
use session_restore.Proto.{upsert}
use session_restore.Ingest.{live_ctx, ingest_tab}
use session_restore.Restore.Payload.{build_private_payload}
use session_restore.Store.Db.{setting, setting_i64, setting_bool}
use session_restore.Ui.Browsers.{Machine, executable, first_file, open_extensions_page}
use session_restore.Ui.Settings.{apply, collect, set_restore_mode, set_capture_private, open_page}
use session_restore.Ui.Settings.Valid.{IsValid, apply-IsValid}
use session_restore.Ui.Settings.Errors.{IsRefused, apply-failed}
use session_restore.Ui.Settings.Private.{set_capture_private_off}
use session_restore.Tests.Fixtures.{open_platform, two_snapshots, tab_delta}

-- Chrome alone is installed, and starts.
abbrev machine : Machine
machine = record {
  program_roots = "C:\\Program Files" ∷ [];
  is_file = λ p. p == "C:\\Program Files\\Google\\Chrome\\Application\\chrome.exe";
  starts = λ exe page. true;
}

executable_chrome :
    executable machine "chrome" ≡ some "C:\\Program Files\\Google\\Chrome\\Application\\chrome.exe"
unfolding executable first_file find has_suffix
executable_chrome = refl

executable_edge : executable machine "edge" ≡ none
unfolding executable first_file find has_suffix
executable_edge = refl

two_snapshots-IsValid : IsValid two_snapshots
unfolding setting setting_i64 setting_bool
two_snapshots-IsValid = record {
  mode = tt;
  hours = (24, omega arith, omega arith, refl);
  purged = inl refl;
}

apply-IsValid_example : IsValid (apply machine (pos 9) (set_restore_mode "auto") two_snapshots).1
apply-IsValid_example =
    apply-IsValid machine (pos 9) (set_restore_mode "auto") two_snapshots two_snapshots-IsValid

apply-failed_example :
    ((apply machine (pos 9) (open_page "edge") two_snapshots).1 ≡ two_snapshots)
    × IsRefused machine (open_page "edge")
apply-failed_example =
    apply-failed machine (pos 9) (open_page "edge") no_executable two_snapshots
      (unfold apply open_extensions_page executable first_file find has_suffix in refl)

set_capture_private_off_example :
    let after = (apply machine (pos 9) (set_capture_private false) two_snapshots).1 in
    let shown = collect machine "1.0" "C:\\data" after ("chrome" ∷ []) in
    (after ≡ record two_snapshots { settings = after.settings; tabs_private = [] })
    × (ingest_tab (live_ctx open_platform (pos 10) after) (tab_delta upsert "t4" true) after
        ≡ (ok tt, after))
    × (build_private_payload open_platform (pos 10) 1 "chrome" "p" after
        ≡ (err private_disabled, after))
    × (shown.capture_private ≡ false)
    × (shown.private_tabs ≡ 0)
set_capture_private_off_example =
    set_capture_private_off machine open_platform (pos 9) (pos 10) (tab_delta upsert "t4" true) 1
      "chrome" "p" "1.0" "C:\\data" ("chrome" ∷ []) two_snapshots refl refl
