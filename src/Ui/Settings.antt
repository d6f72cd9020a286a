-- ===== src/Ui/Settings.antt =====
-- The settings window: agent/crates/sr-agent/src/ui/settings.rs.
use Prim.Native.String.{◌++◌ as append}
use session_restore.Common.{
  ℕ, zero, suc, String, Bool, true, false, not, ◌&&◌, ◌||◌, ◌==◌, String_eq, ℕ_eq, List, [], ◌∷◌,
  if◌then◌else◌, length, select,
}
use mathlib.Core.Option
use session_restore.Common.Int.{ℤ, pos, negsuc, leb_ℤ, clamp}
use session_restore.Common.Texts.{to_decimal}
use session_restore.Exec.{Exec, pure, raise, gets, modify, unknown_restore_mode, ◌>>=◌, ◌>>◌}
use session_restore.Store.Row.{rows_at}
use session_restore.Store.Schema.{TabRow_row, WindowRow_row}
use session_restore.Store.Db.{Db, live, setting, setting_bool, setting_i64, set_setting}
use session_restore.Ingest.{purge_all_private}
use session_restore.Ui.Browsers.{Machine, BrowserInfo, join_path, detect, open_extensions_page}
pub mod Keys
pub mod Valid
pub mod Errors
pub mod Private

pub record SettingsPayload : Type 0 where
  pub restore_mode : String
  pub capture_enabled : Bool
  pub capture_private : Bool
  pub private_ttl_hours : ℤ
  pub browsers : List BrowserInfo
  pub private_tabs : ℕ
  pub tabs_tracked : ℕ
  pub windows_tracked : ℕ
  pub snapshots : ℕ
  pub data_dir : String
  pub log_path : String
  pub agent_version : String

-- What the page can ask the agent to do.
pub data SettingsAction : Type 0 where
  ready open_data_folder close : SettingsAction
  set_restore_mode : String → SettingsAction
  set_capture_enabled : Bool → SettingsAction
  set_capture_private : Bool → SettingsAction
  set_private_ttl : ℤ → SettingsAction
  open_page : String → SettingsAction

unfoldable pub collect : Machine → String → String → Db → List String → SettingsPayload
unfolding setting setting_bool setting_i64 detect select
collect m agent_version data_dir db connected = record {
  restore_mode = Option.get_or (setting "restore_mode" db.settings) "ask";
  capture_enabled = setting_bool "capture_enabled" true db.settings;
  capture_private = setting_bool "capture_private_windows" false db.settings;
  private_ttl_hours = setting_i64 "private_ttl_hours" (pos 24) db.settings;
  browsers = detect m db connected;
  private_tabs = length db.tabs_private;
  tabs_tracked = length (rows_at live db.tabs);
  windows_tracked = length (rows_at live db.browser_windows);
  snapshots = length (select (λ s. not (s.id == 0)) db.snapshots);
  data_dir = data_dir;
  log_path = join_path (join_path data_dir "logs") "agent.log";
  agent_version = agent_version;
}

abbrev pub is_mode : String → Bool
is_mode v = v == "ask" || v == "auto" || v == "off"

abbrev pub as_text : Bool → String
as_text true = "true"
as_text false = "false"

-- `i64::to_string`
abbrev pub int_to_text : ℤ → String
int_to_text (pos n) = to_decimal n
int_to_text (negsuc n) = append "-" (to_decimal (suc n))

abbrev store : ℤ → String → String → Exec Db (Unit {0})
store now k v = modify (λ db. record db { settings = set_setting now k v db.settings })

abbrev purge : Exec Db (Unit {0})
purge = modify (λ db. (purge_all_private db).1)

-- Applies one change, and says whether the page is to be rendered from fresh state.
unfoldable pub apply : Machine → ℤ → SettingsAction → Exec Db Bool
unfolding set_setting purge_all_private open_extensions_page to_decimal
apply m now (set_restore_mode value) =
    if is_mode value
    then (do store now "restore_mode" value; pure false)
    else raise unknown_restore_mode
apply m now (set_capture_enabled value) = do store now "capture_enabled" (as_text value); pure false
apply m now (set_capture_private value) = do
  store now "capture_private_windows" (as_text value)
  if value then pure tt else purge
  pure true
apply m now (set_private_ttl value) = do
  let clamped = clamp value (pos 1) (pos 168)
  store now "private_ttl_hours" (int_to_text clamped)
  pure (not (leb_ℤ clamped value && leb_ℤ value clamped))
apply m now (open_page browser) = do open_extensions_page m browser; pure false
apply m now open_data_folder = pure false
apply m now ready = pure false
apply m now close = pure false
