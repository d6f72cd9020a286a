-- ===== src/Server/Dispatch.antt =====
-- What one decoded message does: `dispatch` of agent/crates/sr-agent/src/server.rs.
use mathlib.Core.Option
use session_restore.Common.{
  ℕ, zero, suc, ◌-◌, ◌^◌, ◌%◌, String, Bool, true, false, not, ◌&&◌, ◌||◌, Option, none, some, List,
  [], ◌∷◌, ◌++◌, map, ◌==◌, ℕ_eq, String_eq, any, select, if◌then◌else◌,
}
use session_restore.Common.Int.{ℤ, pos, negsuc, ltb_ℤ}
use session_restore.Common.Texts.{is_empty}
use session_restore.Exec.{Outcome, ok, err, Exec, bad_json, pure, raise, gets, modify, ◌>>=◌, ◌>>◌}
use session_restore.Proto.{
  BrowserKind, as_str, MessageSource, Envelope, HelloAckBody, StateBody, ResultItem,
  protocol_version,
}
use session_restore.Store.Crypto.{Platform}
use session_restore.Store.Schema.{StatusRow}
use session_restore.Store.Db.{
  Db, ItemRow, ItemStatus, tab, launched, skipped, setting_bool, setting_i64,
}
use session_restore.Restore.Runs.{same_kind, apply_result}
use session_restore.Restore.Offer.{RestoreSessionBody, Shared, maybe_offer_restore}
use session_restore.Server.State.{Reporter, apply_state}
use session_restore.Watcher.Profiles.{
  Disk, directory_for_profile_id, registered_extension_ids, profile_dir_from_command_line,
  last_used_profile_dir, profile_from_command_line,
}
pub mod Keeps
pub mod Status
pub mod Offered
pub mod Directories

-- What the server is given: the platform of the store, the disk, SHA-256, the command line of a
-- process (none where it cannot be read), and the decoding of a frame.
pub record System : Type 0 where
  pub platform : Platform
  pub disk : Disk
  pub sha256 : List ℕ → List ℕ
  pub read_command_line : ℕ → Option String
  pub decode : List ℕ → Option Envelope

-- What the agent sends to an extension.
pub data Reply : Type 0 where
  hello_ack : HelloAckBody → Reply
  restore_session : RestoreSessionBody → Reply
  version_too_new : ℕ → Reply
  close_tabs : ℕ → List String → Reply
  settings_changed : Bool → Bool → ℤ → Reply

-- `as u32`, of an i64
unfoldable pub as_u32 : ℤ → ℕ
as_u32 (pos n) = n % 2 ^ 32
as_u32 (negsuc n) = 2 ^ 32 - 1 - n % 2 ^ 32

abbrev pub on_db {ℓ} : {A : Type ℓ} → Exec Db A → Exec Shared A
on_db m s = let r = m s.db in (r.0, record s { db = r.1 })

abbrev pub browser_of : Option MessageSource → String
browser_of none = "unknown"
browser_of (some src) = as_str src.browser

abbrev pub stamped_profile : Option MessageSource → String
stamped_profile none = "default"
stamped_profile (some src) = src.profile_key

-- The resolved profile wins over the one that the relay stamped.
abbrev pub profile_for : Option String → Option MessageSource → String
profile_for (some profile) src = profile
profile_for none src = stamped_profile src

abbrev pub pid_of : Option MessageSource → Option ℕ
pid_of none = none
pid_of (some src) = src.browser_pid

abbrev pub kind_of : Option MessageSource → Option BrowserKind
kind_of none = none
kind_of (some src) = some src.browser

abbrev version_of : Option MessageSource → Option String
version_of none = none
version_of (some src) = some src.ext_version

-- .filter(|s| !s.is_empty())
abbrev pub non_empty : Option String → Option String
non_empty none = none
non_empty (some s) = if is_empty s then none else some s

abbrev pub or_else : Option String → Option String → Option String
or_else none other = other
or_else (some v) other = some v

-- Where the extension's own storage lies.
abbrev pub dir_by_storage : Disk → String → Option String → Option String
dir_by_storage disk browser none = none
dir_by_storage disk browser (some id) =
    directory_for_profile_id disk browser (registered_extension_ids disk) id

abbrev pub command_line_of : System → Option ℕ → Option String
command_line_of sys none = none
command_line_of sys (some pid) = sys.read_command_line pid

abbrev pub dir_by_command_line : Option String → Option String
dir_by_command_line none = none
dir_by_command_line (some cmd) = profile_dir_from_command_line cmd

-- The profile directory of a `hello`, from three sources, the best first.
unfoldable pub hello_profile_dir : System → Envelope → Option String
hello_profile_dir sys env =
    let browser = browser_of env.src in
    or_else (dir_by_storage sys.disk browser (non_empty env.body.profile_id)) (
      or_else (dir_by_command_line (command_line_of sys (pid_of env.src)))
        (last_used_profile_dir sys.disk browser))

abbrev pub same_status : StatusRow → StatusRow → Bool
same_status a b = a.browser == b.browser && a.profile_key == b.profile_key

-- ON CONFLICT(browser, profile_key): a directory that is known is kept where the new one is not.
abbrev pub merge_status : StatusRow → StatusRow → StatusRow
merge_status old new = record new { profile_dir = or_else new.profile_dir old.profile_dir }

unfoldable pub put_status : StatusRow → List StatusRow → List StatusRow
put_status row [] = row ∷ []
put_status row (r ∷ rs) =
    let rest = put_status row rs in if same_status r row then merge_status r row ∷ rs else r ∷ rest

abbrev pub status_row : System → ℤ → Envelope → String → StatusRow
status_row sys now env profile = record {
  browser = browser_of env.src;
  profile_key = profile;
  ext_version = version_of env.src;
  incognito_access = Option.get_or env.body.incognito_access false;
  profile_dir = hello_profile_dir sys env;
  last_seen = now;
}

unfoldable pub record_status : StatusRow → Db → Db
unfolding put_status
record_status row db = record db { browser_status = put_status row db.browser_status }

unfoldable pub ack_body : Db → HelloAckBody
unfolding as_u32
ack_body db = record {
  protocol_version = protocol_version;
  capture_enabled = setting_bool "capture_enabled" true db.settings;
  capture_private = setting_bool "capture_private_windows" false db.settings;
  reconcile_interval_s = as_u32 (setting_i64 "reconcile_interval_seconds" (pos 60) db.settings);
}

-- A restore that cannot be built does not stop the capture.
abbrev pub with_offer : Reply → Outcome (Option RestoreSessionBody) → List Reply
with_offer ack (ok (some offer)) = ack ∷ restore_session offer ∷ []
with_offer ack _ = ack ∷ []

unfoldable pub on_hello : System → ℤ → Envelope → String → Exec Shared (List Reply)
unfolding record_status ack_body
on_hello sys now env profile s =
    let db = record_status (status_row sys now env profile) s.db in
    let offered =
      maybe_offer_restore sys.platform now (browser_of env.src) profile (record s { db = db }) in
    (ok (with_offer (hello_ack (ack_body db)) offered.0), offered.1)

abbrev is_launched : ItemStatus → Bool
is_launched launched = true
is_launched _ = false

-- UPDATE .. WHERE run_id = run AND item_kind = 'tab' AND status = 'launched'
abbrev pub closed_item : ℕ → ItemRow → ItemRow
closed_item run i =
    if i.run_id == run && (same_kind i.item_kind tab && is_launched i.status)
    then record i { status = skipped; detail = some "closed by undo" }
    else i

unfoldable pub on_tabs_closed : ℕ → Db → Db
on_tabs_closed run db = record db { restore_items = map (closed_item run) db.restore_items }

unfoldable pub on_close_tabs_result : Envelope → Exec Shared (List Reply)
unfolding on_tabs_closed
on_close_tabs_result env s =
    let run = Option.get_or env.body.run_id 0 in
    if ltb_ℤ (pos 0) (Option.get_or env.body.closed (pos 0))
    then (ok [], record s { db = on_tabs_closed run s.db })
    else (ok [], s)

abbrev pub reporter : Envelope → String → Reporter
reporter env profile = record { browser = kind_of env.src; profile = profile }

-- A body that does not decode stops the message.
unfoldable pub on_state :
    System → ℤ → Bool → Envelope → String → Option StateBody → Exec Shared (List Reply)
on_state sys now authoritative env profile none = raise bad_json
on_state sys now authoritative env profile (some body) = do
  on_db (apply_state sys.platform now body authoritative (reporter env profile))
  pure []

unfoldable pub on_restore_result : ℤ → Envelope → Exec Shared (List Reply)
on_restore_result now env = do
  on_db (apply_result now (Option.get_or env.body.run_id 0) env.body.items)
  pure []

-- The types of messages that `dispatch` knows.
pub data MessageKind : Type 0 where
  hello close_tabs_result tab_delta full_state restore_result other : MessageKind

unfoldable pub kind_named : String → MessageKind
kind_named kind =
    if kind == "hello"
    then hello
    else if kind == "close_tabs_result"
    then close_tabs_result
    else if kind == "tab_delta"
    then tab_delta
    else if kind == "full_state"
    then full_state
    else if kind == "restore_result"
    then restore_result
    else other

-- The match on the message's type; an unknown one is ignored.
unfoldable pub on_message : MessageKind → System → ℤ → Envelope → String → Exec Shared (List Reply)
unfolding on_hello on_close_tabs_result on_state on_restore_result
on_message hello sys now env profile = on_hello sys now env profile
on_message close_tabs_result sys now env profile = on_close_tabs_result env
on_message tab_delta sys now env profile = on_state sys now false env profile env.body.state
on_message full_state sys now env profile = on_state sys now true env profile env.body.state
on_message restore_result sys now env profile = on_restore_result now env
on_message other sys now env profile = pure []

unfoldable pub dispatch : System → ℤ → Envelope → Option String → Exec Shared (List Reply)
unfolding on_message kind_named
dispatch sys now env profile_override =
    on_message (kind_named env.kind) sys now env (profile_for profile_override env.src)
