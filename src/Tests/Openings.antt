-- ===== src/Tests/Openings.antt =====
-- Opening a database.
use session_restore.Common.{◌≡◌, refl, [], ◌∷◌, any, inr, arith}
use session_restore.Common.Int.{pos}
use session_restore.Exec.{ok, err, newer_schema}
use session_restore.Store.Db.{
  Db, lookup_meta, setting, setting_i64, setting_bool, parse_i64, parse_unsigned, parse_digits,
}
use session_restore.Store.Migrate.{
  migrate, settle, first_meta, seed_settings, seed, ensure_live_snapshot,
}
use session_restore.Store.Migrate.Again.{migrate_again}
use session_restore.Store.Migrate.Kept.{IsKept, migrate-IsKept}
use session_restore.Ui.Settings.Valid.{IsValid}
use session_restore.Tests.Fixtures.{two_snapshots}

abbrev fresh : Db
fresh = record two_snapshots { meta = []; settings = []; snapshots = [] }

-- A database of an agent that does not exist yet.
abbrev newer : Db
newer = record two_snapshots { meta = ("schema_version", "2") ∷ [] }

migrate-newer : migrate (pos 5) "00ff" newer ≡ (err newer_schema, newer)
unfolding migrate lookup_meta parse_i64 parse_unsigned parse_digits
migrate-newer = refl

-- What a new database starts with is valid.
migrate-fresh : IsValid (migrate (pos 5) "00ff" fresh).1
unfolding migrate settle first_meta seed_settings seed ensure_live_snapshot lookup_meta any setting
    setting_i64 setting_bool parse_i64 parse_unsigned parse_digits
migrate-fresh = record {
  mode = refl;
  hours = (24, omega arith, omega arith, refl);
  purged = inr refl;
}

migrate_again_example :
    migrate (pos 9) "1234" (migrate (pos 5) "00ff" fresh).1
    ≡ (ok tt, (migrate (pos 5) "00ff" fresh).1)
migrate_again_example =
    migrate_again (pos 5) (pos 9) "00ff" "1234" fresh (unfold migrate lookup_meta in refl)

migrate-IsKept_example : IsKept two_snapshots (migrate (pos 5) "00ff" two_snapshots).1
migrate-IsKept_example = migrate-IsKept (pos 5) "00ff" two_snapshots
