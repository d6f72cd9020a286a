-- ===== src/Store/Migrate.antt =====
-- Opening a database: `migrate` of agent/crates/sr-agent/src/store/db.rs. The tables are there, with
-- the columns that later versions added.
use session_restore.Common.{
  ℕ, suc, String, Bool, true, false, Option, none, some, List, [], ◌∷◌, ◌++◌, any, ◌==◌, ℕ_eq,
  String_eq, if◌then◌else◌,
}
use mathlib.Core.Option
use Prim.Native.String
use session_restore.Common.Int.{ℤ, pos, negsuc, ltb_ℤ}
use session_restore.Common.Texts.{to_decimal}
use session_restore.Exec.{Exec, ok, err, newer_schema}
use session_restore.Store.Db.{
  Db, Setting, SnapshotRow, live_kind, live, lookup_meta, parse_i64, codes,
}
pub mod Again
pub mod Kept

abbrev pub schema_version : ℤ
schema_version = pos 1

-- INSERT OR IGNORE, of a row that is there if a test accepts one.
abbrev pub keep_or_add {ℓ} : {R : Type ℓ} → (R → Bool) → R → List R → List R
keep_or_add is_there row rows = if any is_there rows then rows else rows ++ (row ∷ [])

abbrev pub is_named : String → String × String → Bool
is_named k (j, v) = j == k

abbrev pub is_setting : String → Setting → Bool
is_setting k s = s.key == k

abbrev pub is_live : SnapshotRow → Bool
is_live s = s.id == live

abbrev pub default_setting : ℤ → String → String → List Setting → List Setting
default_setting now k v settings =
    keep_or_add (is_setting k) (record { key = k; value = v; updated_at = now }) settings

abbrev pub defaults : List (String × String)
defaults =
    ("capture_private_windows", "false")
    ∷ ("private_ttl_hours", "24")
    ∷ ("reconcile_interval_seconds", "60")
    ∷ ("snapshot_retention_count", "20")
    ∷ ("restore_mode", "ask")
    ∷ ("cloud_backup_enabled", "false")
    ∷ ("capture_enabled", "true")
    ∷ []

unfoldable pub seed : ℤ → List (String × String) → List Setting → List Setting
seed now [] settings = settings
seed now ((k, v) ∷ ds) settings = seed now ds (default_setting now k v settings)

unfoldable pub seed_settings : ℤ → Db → Db
seed_settings now db = record db { settings = seed now defaults db.settings }

unfoldable pub live_row : ℤ → Db → SnapshotRow
live_row now db = record {
  id = live;
  captured_at = now;
  kind = live_kind;
  label = none;
  machine_id = Option.get_or (lookup_meta "machine_id" db.meta) "unknown";
  pinned = false;
  app_count = 0;
  tab_count = 0;
}

unfoldable pub ensure_live_snapshot : ℤ → Db → Db
ensure_live_snapshot now db = record db {
  snapshots = keep_or_add is_live (live_row now db) db.snapshots;
}

abbrev millis_text : ℤ → String
millis_text (pos n) = to_decimal n
millis_text (negsuc n) = String.◌++◌ "-" (to_decimal (suc n))

abbrev default_meta : String → String → List (String × String) → List (String × String)
default_meta k v meta = keep_or_add (is_named k) (k, v) meta

-- The rows of a database that has none; `id` is the random text for this machine.
unfoldable pub first_meta : ℤ → String → List (String × String) → List (String × String)
first_meta now id meta =
    default_meta "created_at" (millis_text now)
      (default_meta "machine_id" id (meta ++ (("schema_version", "1") ∷ [])))

abbrev pub version_of : String → ℤ
version_of v = Option.get_or (parse_i64 (codes v)) (pos 0)

unfoldable pub settle : ℤ → Db → Db
settle now db = ensure_live_snapshot now (seed_settings now db)

abbrev pub migrate_from : ℤ → String → Option String → Exec Db (Unit {0})
migrate_from now id none db = (ok tt, settle now (record db { meta = first_meta now id db.meta }))
migrate_from now id (some v) db =
    if ltb_ℤ schema_version (version_of v) then (err newer_schema, db) else (ok tt, settle now db)

unfoldable pub migrate : ℤ → String → Exec Db (Unit {0})
migrate now id db = migrate_from now id (lookup_meta "schema_version" db.meta) db
