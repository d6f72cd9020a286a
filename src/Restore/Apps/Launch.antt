-- ===== src/Restore/Apps/Launch.antt =====
-- What is done with each planned application: `restore_apps` of
-- agent/crates/sr-agent/src/restore/apps.rs.
use mathlib.Core.Option
use session_restore.Common.{
  ℕ, String, Bool, true, false, not, Option, none, some, List, [], ◌∷◌, ◌++◌, map, String_eq,
  contains, select, if◌then◌else◌, length,
}
use session_restore.Watcher.Identity.{Tier, tier_a, tier_b, tier_c, tier_d, AppKind, uwp}
use session_restore.Restore.Apps.{Action, shell, command_line, activate, Desktop, PlannedApp}

-- The texts of the report; `refused` is the error of a start.
pub data Reason : Type 0 where
  already_running no_identity needs_admin no_exe_path no_aumid no_documents : Reason
  not_reopened : ℕ → Reason
  refused : String → Reason

pub data Fate : Type 0 where
  launched : Fate
  skipped : Reason → Fate
  failed : Reason → Fate

-- Stored documents that are not currently open.
unfoldable pub missing_documents : Desktop → List String → List String → List String
missing_documents d stored already_open =
    select (λ s. not (contains (d.lower s) (map d.lower already_open))) stored

abbrev is_none {ℓ} : {A : Type ℓ} → Option A → Bool
is_none none = true
is_none (some _) = false

abbrev pub opens : Desktop → String → Bool
opens d document = is_none (d.attempt (shell document))

-- The error of the last document that failed.
unfoldable pub last_error : Desktop → List String → Option String
last_error d [] = none
last_error d (s ∷ ss) = elim (last_error d ss) [ none ↦ d.attempt (shell s) | some e ↦ some e ]

-- The outcome, and what was asked of the system, in order.
abbrev pub Step : Type 0
Step = Fate × List Action

abbrev attempted : Desktop → Action → Step
attempted d a = elim (d.attempt a) [
  | none ↦ (launched, a ∷ [])
  | some e ↦ (failed (refused e), a ∷ [])
]

abbrev or_fail : Reason → (String → Step) → Option String → Step
or_fail reason f none = (failed reason, [])
or_fail reason f (some s) = f s

abbrev by_path : Desktop → Option String → Step
by_path d exe_path = or_fail no_exe_path (λ p. attempted d (shell p)) exe_path

-- Tier C: the documents, by the handlers that the shell picks.
unfoldable pub open_documents : Desktop → List String → Step
unfolding last_error select
open_documents d documents = elim (select (opens d) documents) [
  | _ ∷ _ ↦ (launched, map shell documents)
  | [] ↦ (
    failed (Option.get_or (Option.map refused (last_error d documents)) no_documents),
    map shell documents,
  )
]

abbrev by_kind : Desktop → PlannedApp → AppKind → Step
by_kind d app uwp = or_fail no_aumid (λ a. attempted d (activate a)) app.aumid
by_kind d app _ = by_path d app.exe_path

abbrev by_command : Desktop → PlannedApp → Option String → Step
by_command d app none = by_path d app.exe_path
by_command d app (some c) = attempted d (command_line c app.working_dir)

abbrev tier_c_of : Desktop → PlannedApp → List String → Step
tier_c_of d app [] = by_kind d app app.kind
tier_c_of d app (s ∷ ss) = open_documents d (s ∷ ss)

-- The start of an application that is not open, tier D apart.
unfoldable pub start : Desktop → PlannedApp → Tier → Step
unfolding open_documents
start d app tier_a = by_command d app app.command_line
start d app tier_b = by_kind d app app.kind
start d app tier_c = tier_c_of d app app.documents
start d app tier_d = by_kind d app app.kind

abbrev pub is_tier_d : Tier → Bool
is_tier_d tier_d = true
is_tier_d _ = false

abbrev tier_d_reason : AppKind → Reason
tier_d_reason uwp = no_identity
tier_d_reason _ = needs_admin

abbrev pub reopened : Desktop → List String → List String → Step
reopened d missing [] = (failed (not_reopened (length missing)), map shell missing)
reopened d missing (_ ∷ _) = (launched, map shell missing)

-- An application that is open: only its missing documents are reopened.
unfoldable pub reopen : Desktop → Bool → List String → Step
unfolding select
reopen d dry_run [] = (skipped already_running, [])
reopen d dry_run (s ∷ ss) =
    if dry_run then (launched, []) else reopened d (s ∷ ss) (select (opens d) (s ∷ ss))

unfoldable pub start_closed : Desktop → Bool → PlannedApp → Step
unfolding start
start_closed d dry_run app =
    if is_tier_d app.tier
    then (skipped (tier_d_reason app.kind), [])
    else if dry_run
    then (launched, [])
    else start d app app.tier

-- One turn of the loop, by what the application has open.
abbrev pub turn : Desktop → Bool → PlannedApp → Option (List String) → Step
turn d dry_run app none = start_closed d dry_run app
turn d dry_run app (some docs) =
    if is_tier_d app.tier
    then start_closed d dry_run app
    else reopen d dry_run (missing_documents d app.documents docs)

unfoldable pub restore_app : Desktop → Bool → PlannedApp → Step
unfolding reopen start_closed missing_documents
restore_app d dry_run app = turn d dry_run app (d.open_now app.app_key)

pub record Report : Type 0 where
  pub launched : List String
  pub skipped : List (String × Reason)
  pub failed : List (String × Reason)

abbrev reported : String → Fate → Report → Report
reported name launched r = record r { launched = name ∷ r.launched }
reported name (skipped why) r = record r { skipped = (name, why) ∷ r.skipped }
reported name (failed why) r = record r { failed = (name, why) ∷ r.failed }

-- The loop: the report, each list in the order of the applications, and the actions in theirs.
unfoldable pub restore_apps : Desktop → Bool → List PlannedApp → Report × List Action
unfolding restore_app
restore_apps d dry_run [] = (record { launched = []; skipped = []; failed = [] }, [])
restore_apps d dry_run (app ∷ apps) =
    let (fate, actions) = restore_app d dry_run app in
    let (report, later) = restore_apps d dry_run apps in
    (reported app.display_name fate report, actions ++ later)
