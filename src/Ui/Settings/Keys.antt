-- ===== src/Ui/Settings/Keys.antt =====
-- The hours that private tabs are kept, as the settings window stores them.
use mathlib.Core.Option
use mathlib.Core.Path.{subst}
use session_restore.Common.{
  ℕ, zero, suc, ◌≡◌, ◌≤◌, inl, inr, refl, sym, ap, ◌∙◌, String, false, not, ◌&&◌, List, ◌==◌,
  String_eq, Bool-cases, ltb, arith,
}
use session_restore.Common.Int.{ℤ, pos, negsuc, leb_ℤ, clamp}
use session_restore.Exec.{ok}
use session_restore.Store.Db.{Db, Setting, setting, setting_i64, set_setting}
use session_restore.Store.Db.Numbers.{parse_i64-to_decimal}
use session_restore.Store.Db.Settings.{setting-set_setting, setting_i64-set_setting}
use session_restore.Ui.Browsers.{Machine}
use session_restore.Ui.Settings.{set_private_ttl, apply, int_to_text}

-- From one hour to one week.
abbrev pub InHours : ℤ → Type 0
InHours v = (n : ℕ) × (1 ≤ n) × (n ≤ 168) × (v ≡ pos n)

clamp-InHours : (v : ℤ) → InHours (clamp v (pos 1) (pos 168))
clamp-InHours (negsuc n) = (1, omega arith, omega arith, ground arith)
clamp-InHours (pos zero) = (1, omega arith, omega arith, refl)
clamp-InHours (pos (suc n)) = elim (Bool-cases (ltb 168 (suc n))) [
  | inl e ↦ (168, omega arith, omega arith, ground (arith, e))
  | inr e ↦ (suc n, omega arith, ground (arith, e), ground (arith, e))
]

-- Hours read back from the settings as they were stored.
setting_i64_hours :
    (now : ℤ) (default v : ℤ) (settings : List Setting)
    → InHours v
    → setting_i64 "private_ttl_hours" default
        (set_setting now "private_ttl_hours" (int_to_text v) settings)
      ≡ v
setting_i64_hours now default v settings (n, low, high, e) =
    setting_i64-set_setting now "private_ttl_hours" "private_ttl_hours" (int_to_text v) default
      settings
    ∙ rw e (ap (λ o. Option.get_or o default) (parse_i64-to_decimal n (omega arith)))

-- Storing a number of hours keeps it between one and 168: it is then read back, whatever the
-- default, as the nearest number of that range, every other setting as before, and the page is
-- rendered afresh only if that is not the number asked for. Nothing but the settings changes.
pub apply-set_private_ttl :
    (m : Machine) (now v default : ℤ) (db : Db)
    → let after = apply m now (set_private_ttl v) db in
      InHours (setting_i64 "private_ttl_hours" default after.1.settings)
      × (setting_i64 "private_ttl_hours" default after.1.settings ≡ clamp v (pos 1) (pos 168))
      × ((k : String)
          → ("private_ttl_hours" == k) ≡ false
          → setting k after.1.settings ≡ setting k db.settings)
      × (after.0
          ≡ ok (not (leb_ℤ (clamp v (pos 1) (pos 168)) v && leb_ℤ v (clamp v (pos 1) (pos 168)))))
      × (after.1 ≡ record db { settings = after.1.settings })
unfolding apply
apply-set_private_ttl m now v default db =
    let v' = clamp v (pos 1) (pos 168) in
    let read = setting_i64_hours now default v' db.settings (clamp-InHours v) in
    (
      subst InHours (sym read) (clamp-InHours v),
      read,
      (λ k apart.
          setting-set_setting now "private_ttl_hours" k (int_to_text v') db.settings
          ∙ rw apart refl),
      refl,
      refl,
    )
