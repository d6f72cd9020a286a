-- ===== src/Ui/Settings/Private.antt =====
-- The switch of private capture in the settings window.
use session_restore.Common.{ℕ, ◌≡◌, refl, String, true, false, List, []}
use session_restore.Common.Int.{ℤ}
use session_restore.Exec.{ok, err, private_disabled}
use session_restore.Proto.{TabDelta, upsert}
use session_restore.Store.Crypto.{Platform}
use session_restore.Store.Db.{Db}
use session_restore.Store.Db.Settings.{setting_bool-set_setting}
use session_restore.Ingest.{live_ctx, ingest_tab, purge_all_private}
use session_restore.Ingest.Routing.{ingest_tab_dropped}
use session_restore.Restore.Payload.{build_private_payload}
use session_restore.Ui.Browsers.{Machine}
use session_restore.Ui.Settings.{set_capture_private, apply, collect}

-- Switching private capture off deletes every private row at once and nothing else of the tables;
-- from then on a private tab that arrives changes nothing, no private window is offered, and the
-- window shows the switch off and no private tab.
pub set_capture_private_off :
    (m : Machine) (p : Platform) (now later : ℤ) (tab : TabDelta) (id : ℕ)
    → (browser profile agent_version data_dir : String) (connected : List String) (db : Db)
    → tab.op ≡ upsert
    → tab.is_private ≡ true
    → let after = (apply m now (set_capture_private false) db).1 in
      let shown = collect m agent_version data_dir after connected in
      (after ≡ record db { settings = after.settings; tabs_private = [] })
      × (ingest_tab (live_ctx p later after) tab after ≡ (ok tt, after))
      × (build_private_payload p later id browser profile after ≡ (err private_disabled, after))
      × (shown.capture_private ≡ false)
      × (shown.private_tabs ≡ 0)
unfolding apply purge_all_private live_ctx build_private_payload collect
set_capture_private_off m p now later tab id browser profile agent_version data_dir connected db u
      priv =
    let off =
      setting_bool-set_setting now "capture_private_windows" "capture_private_windows" "false" false
        db.settings in
    (refl, ingest_tab_dropped _ tab _ off u priv, rw off refl, off, refl)
