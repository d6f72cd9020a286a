-- ===== src/Store/Migrate/Kept.antt =====
-- What opening a database keeps.
use session_restore.Common.{
  ◌≡◌, ◌⊎◌, refl, sym, ◌∙◌, String, Option, none, some, List, [], ◌∷◌, ◌++◌, any, String_eq,
  if_both, inl, inr, arith,
}
use session_restore.Common.Int.{ℤ, ltb_ℤ}
use session_restore.Exec.{Outcome}
use session_restore.Store.Db.{Db, Setting, SnapshotRow, lookup_meta, setting}
use session_restore.Store.Migrate.{
  is_setting, is_live, default_setting, defaults, seed, seed_settings, live_row,
  ensure_live_snapshot, first_meta, version_of, settle, migrate, migrate_from, schema_version,
}

setting-append :
    (k v : String) (settings : List Setting) (row : Setting)
    → setting k settings ≡ some v
    → setting k (settings ++ (row ∷ [])) ≡ some v
unfolding setting
setting-append k v [] row h = ground (arith, h)
setting-append k v (s ∷ rest) row h = ground (arith, h, setting-append k v rest row)

setting-seed :
    (now : ℤ) (k v : String) (ds : List (String × String)) (settings : List Setting)
    → setting k settings ≡ some v
    → setting k (seed now ds settings) ≡ some v
unfolding seed
setting-seed now k v [] settings h = h
setting-seed now k v ((j, w) ∷ ds) settings h =
    setting-seed now k v ds (default_setting now j w settings) (
      if_both (λ s. setting k s ≡ some v) (any (is_setting j) settings) settings _ h
        (setting-append k v settings _ h))

-- One database after another: every setting has its value, the snapshots are those of before with at
-- most one behind them, and every table but those and the meta rows is as it was.
pub record IsKept (before after : Db) : Type 0 where
  pub settings :
      (k : String)
      → (setting k before.settings ≡ none) ⊎ (setting k after.settings ≡ setting k before.settings)
  pub snapshots :
      (after.snapshots ≡ before.snapshots)
      ⊎ ((row : SnapshotRow) × (after.snapshots ≡ before.snapshots ++ (row ∷ [])))
  pub rest :
      after
      ≡ record before { meta = after.meta; settings = after.settings; snapshots = after.snapshots }

kept_setting :
    (now : ℤ) (k : String) (settings : List Setting) (o : Option String)
    → setting k settings ≡ o
    → (setting k settings ≡ none) ⊎ (setting k (seed now defaults settings) ≡ setting k settings)
kept_setting now k settings none h = inl h
kept_setting now k settings (some v) h = inr (setting-seed now k v defaults settings h ∙ sym h)

settle-IsKept :
    (now : ℤ) (db : Db) (meta : List (String × String))
    → IsKept db (settle now (record db { meta = meta }))
unfolding settle seed_settings ensure_live_snapshot
settle-IsKept now db meta =
    let row = live_row now (seed_settings now (record db { meta = meta })) in
    record {
      settings = λ k. kept_setting now k db.settings _ refl;
      snapshots =
          if_both
            (λ rows.
              (rows ≡ db.snapshots) ⊎ ((r : SnapshotRow) × (rows ≡ db.snapshots ++ (r ∷ []))))
            (any is_live db.snapshots) db.snapshots (db.snapshots ++ (row ∷ [])) (inl refl)
            (inr (row, refl));
      rest = refl;
    }

same-IsKept : (db : Db) → IsKept db db
same-IsKept db = record { settings = λ k. inr refl; snapshots = inl refl; rest = refl }

migrate_from-IsKept :
    (now : ℤ) (id : String) (found : Option String) (db : Db)
    → IsKept db (migrate_from now id found db).1
migrate_from-IsKept now id none db = settle-IsKept now db (first_meta now id db.meta)
migrate_from-IsKept now id (some v) db =
    if_both (λ (r : Outcome (Unit {0}) × Db). IsKept db r.1) (ltb_ℤ schema_version (version_of v)) _
      _ (same-IsKept db) (settle-IsKept now db db.meta)

-- Opening a database, new or old, refused or not: no setting that has a value changes it, no
-- snapshot is lost, at most one is added, and the other tables but the meta rows stay as they are.
pub migrate-IsKept : (now : ℤ) (id : String) (db : Db) → IsKept db (migrate now id db).1
unfolding migrate
migrate-IsKept now id db = migrate_from-IsKept now id (lookup_meta "schema_version" db.meta) db
