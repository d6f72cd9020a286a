-- ===== src/Restore/Apps/Safety.antt =====
-- What a restore of applications starts and what it does not.
use session_restore.Common.{
  ◌+◌, ◌≡◌, refl, ap, String, Bool, true, false, Option, none, some, List, [], ◌∷◌, map, arith,
  contains, any, String_eq, ==-refl, All-imp, select, length, Bool-cases, inl, inr, All,
}
use session_restore.Watcher.Identity.{tier_d}
use session_restore.Restore.Apps.{Action, shell, Desktop, PlannedApp}
use session_restore.Restore.Apps.Launch.{
  opens, reopened, turn, is_tier_d, missing_documents, reopen, start_closed, restore_app,
  restore_apps,
}

-- Every planned application is accounted for exactly once: it is launched, skipped or failed.
pub restore_apps-accounts :
    (d : Desktop) (dry_run : Bool) (apps : List PlannedApp)
    → let report = (restore_apps d dry_run apps).0 in
      length report.launched + length report.skipped + length report.failed ≡ length apps
unfolding restore_apps
restore_apps-accounts d dry_run [] = omega arith
restore_apps-accounts d dry_run (app ∷ apps) =
    ground (arith, (restore_app d dry_run app).0, restore_apps-accounts d dry_run apps)

reopen_dry : (d : Desktop) (missing : List String) → (reopen d true missing).1 ≡ []
unfolding reopen
reopen_dry d [] = refl
reopen_dry d (s ∷ ss) = refl

start_closed_dry : (d : Desktop) (app : PlannedApp) → (start_closed d true app).1 ≡ []
unfolding start_closed
start_closed_dry d app = ground arith

turn_dry :
    (d : Desktop) (app : PlannedApp) (now : Option (List String)) → (turn d true app now).1 ≡ []
turn_dry d app none = start_closed_dry d app
turn_dry d app (some docs) = elim (Bool-cases (is_tier_d app.tier)) [
  | inl last ↦ rw last (start_closed_dry d app)
  | inr other ↦ rw other (reopen_dry d (missing_documents d app.documents docs))
]

restore_app_dry : (d : Desktop) (app : PlannedApp) → (restore_app d true app).1 ≡ []
unfolding restore_app
restore_app_dry d app = turn_dry d app (d.open_now app.app_key)

-- A dry run asks nothing of the system.
pub restore_apps_dry : (d : Desktop) (apps : List PlannedApp) → (restore_apps d true apps).1 ≡ []
unfolding restore_apps
restore_apps_dry d [] = refl
restore_apps_dry d (app ∷ apps) = rw (restore_app_dry d app) (restore_apps_dry d apps)

contains_self : (ks : List String) → All (λ k. contains k ks ≡ true) ks
unfolding any
contains_self [] = tt
contains_self (k ∷ ks) =
    (ground (arith, ==-refl k), All-imp _ _ ks (λ j h. ground (arith, h)) (contains_self ks))

-- An action that opens one of the documents, by the shell.
abbrev pub Reopens : List String → Action → Type 0
Reopens documents a = (s : String) × (a ≡ shell s) × (contains s documents ≡ true)

shells :
    (documents ks : List String)
    → All (λ k. contains k documents ≡ true) ks
    → All (Reopens documents) (map shell ks)
shells documents [] h = tt
shells documents (k ∷ ks) (h, hs) = ((k, refl, h), shells documents ks hs)

reopen-Reopens :
    (d : Desktop) (dry_run : Bool) (missing : List String)
    → All (Reopens missing) (reopen d dry_run missing).1
unfolding reopen
reopen-Reopens d dry_run [] = tt
reopen-Reopens d true (s ∷ ss) = tt
reopen-Reopens d false (s ∷ ss) = asked (select (opens d) (s ∷ ss))
  where
    asked : (opened : List String) → All (Reopens (s ∷ ss)) (reopened d (s ∷ ss) opened).1
    asked [] = shells (s ∷ ss) (s ∷ ss) (contains_self (s ∷ ss))
    asked (o ∷ os) = shells (s ∷ ss) (s ∷ ss) (contains_self (s ∷ ss))

start_closed-tier_d :
    (d : Desktop) (dry_run : Bool) (app : PlannedApp)
    → is_tier_d app.tier ≡ true
    → (start_closed d dry_run app).1 ≡ []
unfolding start_closed
start_closed-tier_d d dry_run app h = simp h

turn-tier_d :
    (d : Desktop) (dry_run : Bool) (app : PlannedApp) (now : Option (List String))
    → is_tier_d app.tier ≡ true
    → (turn d dry_run app now).1 ≡ []
turn-tier_d d dry_run app none h = start_closed-tier_d d dry_run app h
turn-tier_d d dry_run app (some docs) h = rw h (start_closed-tier_d d dry_run app h)

turn-Reopens :
    (d : Desktop) (dry_run : Bool) (app : PlannedApp) (docs : List String)
    → All (Reopens (missing_documents d app.documents docs)) (turn d dry_run app (some docs)).1
turn-Reopens d dry_run app docs = elim (Bool-cases (is_tier_d app.tier)) [
  | inl last ↦ rw (last, start_closed-tier_d d dry_run app last) tt
  | inr other ↦ rw other (reopen-Reopens d dry_run (missing_documents d app.documents docs))
]

-- An application of tier D is never started. One that is open is not started again: all that is
-- asked of the system is to open those of its stored documents that are not open, by the shell.
pub restore_app_open :
    (d : Desktop) (dry_run : Bool) (app : PlannedApp)
    → (app.tier ≡ tier_d → (restore_app d dry_run app).1 ≡ [])
      × ((docs : List String)
          → d.open_now app.app_key ≡ some docs
          → All (Reopens (missing_documents d app.documents docs)) (restore_app d dry_run app).1)
unfolding restore_app
restore_app_open d dry_run app = (
  (λ e. turn-tier_d d dry_run app (d.open_now app.app_key) (ap is_tier_d e)),
  (λ docs found. rw found (turn-Reopens d dry_run app docs)),
)
