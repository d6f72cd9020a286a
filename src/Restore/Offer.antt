-- ===== src/Restore/Offer.antt =====
-- The offer to a browser that has just connected: `effective_profile` and `maybe_offer_restore` of
-- agent/crates/sr-agent/src/server.rs.
use mathlib.Core.Option
use session_restore.Common.{
  ℕ, String, Bool, true, false, not, ◌&&◌, Option, none, some, List, [], ◌∷◌, ◌++◌, map, ◌==◌, ℕ_eq,
  String_eq, contains, any, select, if◌then◌else◌,
}
use session_restore.Common.Int.{ℤ}
use session_restore.Exec.{Outcome, ok, err, Exec, pure, gets, ◌>>=◌, ◌>>◌}
use session_restore.Store.Crypto.{Platform}
use session_restore.Store.Db.{Db, setting}
use session_restore.Restore.Payload.{
  RestoreTab, RestoreWindow, is_window_of, build_payload, build_private_payload,
}
use session_restore.Restore.Runs.{begin_run, record_items}
use session_restore.Restore.Pending.{BrowserSelection, PendingRestore, claim}
use session_restore.Proto.{as_str}
use session_restore.Server.Registry.{Connection}
pub mod Once
pub mod Profile
pub mod Content

-- SELECT DISTINCT
unfoldable pub distinct : List String → List String
distinct [] = []
distinct (k ∷ ks) = k ∷ select (λ j. not (j == k)) (distinct ks)

-- The profiles that have a window of the browser in the snapshot.
unfoldable pub stored_profiles : Db → ℕ → String → List String
unfolding distinct
stored_profiles db id browser = distinct (
    map (λ r. r.profile_key)
      (select (λ r. r.snapshot_id == id && as_str r.browser == browser) db.browser_windows))

abbrev pub only_one : List String → Option String
only_one (p ∷ []) = some p
only_one _ = none

unfoldable pub pick_profile : List String → String → Option String
pick_profile profiles connecting =
    if contains connecting profiles then some connecting else only_one profiles

-- The stored profile whose session is offered to a browser that connects.
unfoldable pub effective_profile : Db → ℕ → String → String → Option String
unfolding stored_profiles pick_profile
effective_profile db id browser connecting = pick_profile (stored_profiles db id browser) connecting

abbrev pub has_tabs : RestoreWindow → Bool
has_tabs w = elim w.tabs [ [] ↦ false | _ ∷ _ ↦ true ]

abbrev pub keep_in : List String → RestoreWindow → RestoreWindow
keep_in wanted w = record w { tabs = select (λ t. contains t.tab_key wanted) w.tabs }

-- Keeps the wanted tabs, and the windows that have any; an empty list wants all.
unfoldable pub keep_tabs : List String → List RestoreWindow → List RestoreWindow
keep_tabs [] windows = windows
keep_tabs (k ∷ ks) windows = select has_tabs (map (keep_in (k ∷ ks)) windows)

-- The review's choices of windows and tabs.
unfoldable pub narrow : Option BrowserSelection → List RestoreWindow → List RestoreWindow
unfolding keep_tabs
narrow none windows = windows
narrow (some s) windows = keep_tabs s.tabs (select (λ w. contains w.window_id s.windows) windows)

-- A private payload that cannot be built is left out.
abbrev pub recovered :
    BrowserSelection → Outcome (List RestoreWindow) → Outcome (List RestoreWindow)
recovered s (ok windows) = ok (keep_tabs s.private_tabs windows)
recovered s (err _) = ok []

-- The private windows, if the user ticked them.
unfoldable pub private_part :
    Platform → ℤ → ℕ → String → String → Option BrowserSelection → Exec Db (List RestoreWindow)
unfolding build_private_payload keep_tabs
private_part p now id browser profile none db = (ok [], db)
private_part p now id browser profile (some s) db =
    if s.restore_private
    then (let built = build_private_payload p now id browser profile db in
        (recovered s built.0, built.1))
    else (ok [], db)

-- The body of `restore_session`.
pub record RestoreSessionBody : Type 0 where
  pub run_id : ℕ
  pub windows : List RestoreWindow

-- The run is opened once there is something to offer.
unfoldable pub open_offer :
    Platform
    → ℤ
    → ℕ
    → String
    → String
    → String
    → Option BrowserSelection
    → List RestoreWindow
    → Exec Db (Option RestoreSessionBody)
unfolding private_part
open_offer p now id mode browser profile selection [] = pure none
open_offer p now id mode browser profile selection (w ∷ ws) = do
  private ← private_part p now id browser profile selection
  run ← begin_run now id mode
  record_items run (w ∷ ws ++ private)
  pure (some (record { run_id = run; windows = w ∷ ws ++ private }))

abbrev pub restore_mode : Db → String
restore_mode db = Option.get_or (setting "restore_mode" db.settings) "ask"

abbrev pub offer_to :
    Platform
    → ℤ
    → ℕ
    → String
    → Option BrowserSelection
    → Option String
    → Exec Db (Option RestoreSessionBody)
offer_to p now id browser selection none db = (ok none, db)
offer_to p now id browser selection (some profile) db =
    open_offer p now id (restore_mode db) browser profile selection
      (narrow selection (build_payload db id browser profile)) db

-- `maybe_offer_restore` behind its claim, under the lock of the database.
unfoldable pub build_offer :
    Platform
    → ℤ
    → ℕ
    → String
    → String
    → Option BrowserSelection
    → Exec Db (Option RestoreSessionBody)
unfolding open_offer effective_profile narrow
build_offer p now id browser connecting selection db =
    if restore_mode db == "off"
    then (ok none, db)
    else offer_to p now id browser selection (effective_profile db id browser connecting) db

-- What the connections share.
pub record Shared : Type 0 where
  pub pending : PendingRestore
  pub connections : List Connection
  pub db : Db

abbrev pub is_declined : Option BrowserSelection → Bool
is_declined none = false
is_declined (some s) = s.declined

abbrev pub claimed :
    Platform
    → ℤ
    → String
    → String
    → Option BrowserSelection
    → Option ℕ × PendingRestore
    → Exec Shared (Option RestoreSessionBody)
claimed p now browser profile selection (none, pending) s =
    (ok none, record s { pending = pending })
claimed p now browser profile selection (some id, pending) s =
    let built = build_offer p now id browser profile selection s.db in
    (built.0, record s { pending = pending; db = built.1 })

unfoldable pub maybe_offer_restore :
    Platform → ℤ → String → String → Exec Shared (Option RestoreSessionBody)
unfolding build_offer claim
maybe_offer_restore p now browser profile s =
    if s.pending.awaiting_review
    then (ok none, s)
    else if is_declined s.pending.selection
    then (ok none, s)
    else claimed p now browser profile s.pending.selection (claim browser profile s.pending) s
