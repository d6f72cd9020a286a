-- ===== src/Ui/Settings/Valid.antt =====
-- What the settings window keeps of the database, and what it leaves alone.
use mathlib.Core.Path.{subst}
use session_restore.Common.{
  ◌≡◌, ◌⊎◌, inl, inr, refl, sym, ◌∙◌, String, Bool, true, false, Option, none, some, [], ◌==◌,
  String_eq, Bool-cases, if_both, arith, ◌||◌,
}
use session_restore.Common.Int.{ℤ, pos, clamp}
use session_restore.Exec.{Outcome, ok, err, pure, raise, continue, no_start}
use session_restore.Store.Db.{Db, setting, setting_i64, setting_bool, set_setting}
use session_restore.Store.Db.Settings.{
  setting-set_setting, setting_bool-set_setting, setting_i64-set_setting,
}
use session_restore.Ui.Browsers.{
  Machine, Known, executable, known_by, start_page, open_extensions_page,
}
use session_restore.Ui.Settings.{
  SettingsAction, ready, open_data_folder, close, set_restore_mode, set_capture_enabled,
  set_capture_private, set_private_ttl, open_page, apply, is_mode, as_text, int_to_text,
}
use session_restore.Ui.Settings.Keys.{InHours, apply-set_private_ttl}

-- A known restore mode, where one is set.
abbrev IsKnownMode : Option String → Type 0
IsKnownMode none = Unit
IsKnownMode (some v) = is_mode v ≡ true

-- Private capture is on, or no private row is left.
abbrev IsPurged : Db → Type 0
IsPurged db =
    (setting_bool "capture_private_windows" false db.settings ≡ true) ⊎ (db.tabs_private ≡ [])

pub record IsValid (db : Db) : Type 0 where
  pub mode : IsKnownMode (setting "restore_mode" db.settings)
  pub hours : InHours (setting_i64 "private_ttl_hours" (pos 24) db.settings)
  pub purged : IsPurged db

-- A setting is stored, which is the restore mode, and then a known one, or not; and likewise the
-- hours and the capture of private windows.
store-IsValid :
    (now : ℤ) (k v : String) (db : Db)
    → ((k == "restore_mode") ≡ false) ⊎ (is_mode v ≡ true)
    → (k == "private_ttl_hours") ≡ false
    → ((k == "capture_private_windows") ≡ false)
      ⊎ ((v == "true" || v == "1") ≡ true)
      ⊎ (db.tabs_private ≡ [])
    → IsValid db
    → IsValid (record db { settings = set_setting now k v db.settings })
store-IsValid now k v db a b c valid =
    let read = setting_bool-set_setting now k "capture_private_windows" v false db.settings in
    record {
      mode =
          subst IsKnownMode (sym (setting-set_setting now k "restore_mode" v db.settings))
            (elim (Bool-cases (k == "restore_mode")) [
              | inl e ↦ rw e (elim a [ inl e' ↦ ground (arith, e, e') | inr known ↦ known ])
              | inr e ↦ rw e valid.mode
            ]);
      hours =
          subst InHours
            (sym (
              setting_i64-set_setting now k "private_ttl_hours" v (pos 24) db.settings ∙ rw b refl))
            valid.hours;
      purged = elim c [
        | inl apart ↦ elim valid.purged [ inl on ↦ inl (read ∙ rw apart on) | inr gone ↦ inr gone ]
        | inr (inl on) ↦ elim (Bool-cases (k == "capture_private_windows")) [
          | inl same ↦ inl (read ∙ rw same on)
          | inr apart ↦ elim valid.purged [
            | inl was ↦ inl (read ∙ rw apart was)
            | inr gone ↦ inr gone
          ]
        ]
        | inr (inr gone) ↦ inr gone
      ];
    }

purge-IsValid : (db : Db) → IsValid db → IsValid (record db { tabs_private = [] })
purge-IsValid db valid = record { mode = valid.mode; hours = valid.hours; purged = inr refl }

start_page-state :
    (m : Machine) (exe : Option String) (k : Option Known) (db : Db)
    → (start_page m exe k db).1 ≡ db
start_page-state m none k db = refl
start_page-state m (some exe) none db = refl
start_page-state m (some exe) (some k) db =
    if_both (λ run. (run db).1 ≡ db) (m.starts exe k.extensions_page) (pure tt) (raise no_start)
      refl refl

continue-state :
    (r : Outcome (Unit {0})) (b : Bool) (db : Db) → (continue r (λ _. pure b) db).1 ≡ db
continue-state (ok a) b db = refl
continue-state (err e) b db = refl

pub open_page-state :
    (m : Machine) (now : ℤ) (browser : String) (db : Db)
    → (apply m now (open_page browser) db).1 ≡ db
unfolding apply open_extensions_page
open_page-state m now browser db =
    continue-state _ false _ ∙ start_page-state m (executable m browser) (known_by browser) db

-- Each action keeps the settings valid, those that fail included: the restore mode is one of the
-- three, the hours are between one and 168, and where private capture is off there is no private
-- row.
pub apply-IsValid :
    (m : Machine) (now : ℤ) (action : SettingsAction) (db : Db)
    → IsValid db
    → IsValid (apply m now action db).1
unfolding apply
apply-IsValid m now (set_restore_mode v) db valid = elim (Bool-cases (is_mode v)) [
  | inl e ↦ rw e (store-IsValid now "restore_mode" v db (inr e) refl (inl refl) valid)
  | inr e ↦ rw e valid
]
apply-IsValid m now (set_capture_enabled v) db valid =
    store-IsValid now "capture_enabled" (as_text v) db (inl refl) refl (inl refl) valid
apply-IsValid m now (set_capture_private true) db valid =
    store-IsValid now "capture_private_windows" "true" db (inl refl) refl (inr (inl refl)) valid
apply-IsValid m now (set_capture_private false) db valid =
    store-IsValid now "capture_private_windows" "false" (record db { tabs_private = [] }) (inl refl)
      refl (inr (inr refl)) (purge-IsValid db valid)
apply-IsValid m now (set_private_ttl v) db valid =
    let stored = apply-set_private_ttl m now v (pos 24) db in
    record {
      mode = subst IsKnownMode (sym (stored.2 "restore_mode" refl)) valid.mode;
      hours = stored.0;
      purged = elim valid.purged [
        | inl on ↦ inl (
            setting_bool-set_setting now "private_ttl_hours" "capture_private_windows"
              (int_to_text (clamp v (pos 1) (pos 168))) false db.settings
            ∙ on)
        | inr gone ↦ inr gone
      ];
    }
apply-IsValid m now (open_page browser) db valid =
    subst IsValid (sym (open_page-state m now browser db)) valid
apply-IsValid m now open_data_folder db valid = valid
apply-IsValid m now ready db valid = valid
apply-IsValid m now close db valid = valid
