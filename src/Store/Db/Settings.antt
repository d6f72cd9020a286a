-- ===== src/Store/Db/Settings.antt =====
-- Reading back a setting.
use mathlib.Core.Option
use session_restore.Common.{
  String, Bool, ◌||◌, ap, ◌∙◌, Option, none, ◌≡◌, some, List, [], ◌∷◌, arith, ◌==◌, String_eq,
  if◌then◌else◌,
}
use text.Mathlib.TextEquality.{eq_iff}
use session_restore.Common.Int.{ℤ}
use session_restore.Store.Db.{
  Setting, setting, set_setting, setting_bool, setting_i64, parse_i64, codes,
}

-- After a setting is stored it reads back as the value, and every other setting as before.
pub setting-set_setting :
    (now : ℤ) (k j v : String) (settings : List Setting)
    → setting j (set_setting now k v settings) ≡ (if k == j then some v else setting j settings)
unfolding setting set_setting
setting-set_setting now k j v [] = ground arith
setting-set_setting now k j v (s ∷ rest) =
    ground (arith, eq_iff s.key k, eq_iff s.key j, eq_iff k j, setting-set_setting now k j v rest)

abbrev truth : Bool → Option String → Bool
truth default o = elim o [ none ↦ default | some v ↦ v == "true" || v == "1" ]

abbrev number : ℤ → Option String → ℤ
number default o = elim o [ none ↦ default | some v ↦ Option.get_or (parse_i64 (codes v)) default ]

-- The two readers that decode, after a setting is stored.
pub setting_bool-set_setting :
    (now : ℤ) (k j v : String) (default : Bool) (settings : List Setting)
    → setting_bool j default (set_setting now k v settings)
      ≡ (if k == j then v == "true" || v == "1" else setting_bool j default settings)
unfolding setting_bool
setting_bool-set_setting now k j v default settings =
    ap (truth default) (setting-set_setting now k j v settings) ∙ ground arith

pub setting_i64-set_setting :
    (now : ℤ) (k j v : String) (default : ℤ) (settings : List Setting)
    → setting_i64 j default (set_setting now k v settings) ≡ (
        if k == j
        then Option.get_or (parse_i64 (codes v)) default
        else setting_i64 j default settings)
unfolding setting_i64
setting_i64-set_setting now k j v default settings =
    ap (number default) (setting-set_setting now k j v settings) ∙ ground arith
