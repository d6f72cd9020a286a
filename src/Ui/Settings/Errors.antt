-- ===== src/Ui/Settings/Errors.antt =====
-- When an action of the settings window fails.
use session_restore.Common.{
  ◌≡◌, ◌⊎◌, inl, inr, refl, String, Bool, true, false, Option, none, some, Bool-cases, arith,
}
use session_restore.Common.Int.{ℤ}
use session_restore.Exec.{Outcome, ok, err, Error, continue, pure}
use session_restore.Store.Db.{Db}
use session_restore.Ui.Browsers.{
  Machine, Known, executable, known_by, start_page, open_extensions_page,
}
use session_restore.Ui.Settings.{
  SettingsAction, ready, open_data_folder, close, set_restore_mode, set_capture_enabled,
  set_capture_private, set_private_ttl, open_page, apply, is_mode,
}
use session_restore.Ui.Settings.Valid.{open_page-state}

-- A restore mode that is none of the three, or a browser whose page does not open: it is not
-- installed, or its program does not start.
abbrev pub IsRefused : Machine → SettingsAction → Type 0
IsRefused m (set_restore_mode v) = is_mode v ≡ false
IsRefused m (open_page browser) =
    (executable m browser ≡ none)
    ⊎ ((exe : String) × (k : Known) × (executable m browser ≡ some exe)
        × (m.starts exe k.extensions_page ≡ false))
IsRefused m _ = ⊥

refused_page :
    (m : Machine) (exe : Option String) (k : Option Known) (e : Error) (db : Db)
    → (start_page m exe k db).0 ≡ err e
    → (exe ≡ none)
      ⊎ (k ≡ none)
      ⊎ ((x : String) × (j : Known) × (exe ≡ some x) × (m.starts x j.extensions_page ≡ false))
refused_page m none k e db h = inl refl
refused_page m (some x) none e db h = inr (inl refl)
refused_page m (some x) (some j) e db h = elim (Bool-cases (m.starts x j.extensions_page)) [
  | inl starts ↦ ground (arith, starts, h)
  | inr fails ↦ inr (inr (x, j, refl, fails))
]

-- Outcome of a call whose value is thrown away.
failed_first :
    (r : Outcome (Unit {0})) (b : Bool) (e : Error) (db : Db)
    → (continue r (λ _. pure b) db).0 ≡ err e
    → r ≡ err e
failed_first (ok a) b e db h = ground (arith, h)
failed_first (err d) b e db h = ground (arith, h)

executable_unknown :
    (m : Machine) (browser : String) → known_by browser ≡ none → executable m browser ≡ none
unfolding executable
executable_unknown m browser h = rw h refl

-- Where an action fails, it leaves the database as it was, and it asked for a restore mode that is
-- none of the three, or for the page of a browser that is not installed or does not start.
pub apply-failed :
    (m : Machine) (now : ℤ) (action : SettingsAction) (e : Error) (db : Db)
    → (apply m now action db).0 ≡ err e
    → ((apply m now action db).1 ≡ db) × IsRefused m action
unfolding apply open_extensions_page
apply-failed m now (set_restore_mode v) e db h = elim (Bool-cases (is_mode v)) [
  | inl known ↦ ground (arith, known, h)
  | inr unknown ↦ (rw unknown refl, unknown)
]
apply-failed m now (open_page browser) e db h = (
  open_page-state m now browser db,
  elim (refused_page m (executable m browser) (known_by browser) e db
      (failed_first _ false e _ h)) [
        | inl absent ↦ inl absent
        | inr (inl unknown) ↦ inl (executable_unknown m browser unknown)
        | inr (inr fails) ↦ inr fails
      ],
)
apply-failed m now (set_capture_enabled v) e db h = ground (arith, h)
apply-failed m now (set_capture_private true) e db h = ground (arith, h)
apply-failed m now (set_capture_private false) e db h = ground (arith, h)
apply-failed m now (set_private_ttl v) e db h = ground (arith, h)
apply-failed m now open_data_folder e db h = ground (arith, h)
apply-failed m now ready e db h = ground (arith, h)
apply-failed m now close e db h = ground (arith, h)
