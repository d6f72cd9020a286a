-- ===== src/Store/Migrate/Again.antt =====
-- Opening a database again changes nothing.
use session_restore.Common.{
  ◌≡◌, refl, ap, ◌∙◌, String, Bool, true, false, Option, none, some, List, [], ◌∷◌, ◌++◌, any, All,
  String_eq, ==-refl, if_both, Bool-cases, inl, inr, arith,
}
use session_restore.Common.Int.{ℤ, ltb_ℤ}
use session_restore.Exec.{ok}
use session_restore.Store.Db.{Db, Setting, lookup_meta, parse_i64, parse_unsigned, parse_digits}
use session_restore.Store.Migrate.{
  keep_or_add, is_setting, is_live, default_setting, defaults, seed, seed_settings, live_row,
  ensure_live_snapshot, first_meta, version_of, settle, migrate, migrate_from, schema_version,
}

module _ {ℓ} {R : Type ℓ} (p : R → Bool) where
  any-append : (row : R) (rows : List R) → p row ≡ true → any p (rows ++ (row ∷ [])) ≡ true
  unfolding any
  any-append row [] h = rw h refl
  any-append row (r ∷ rs) h = ground (arith, any-append row rs h)

  -- What is there already is there still after a row is added.
  any-append_kept :
      (row : R) (rows : List R) → any p rows ≡ true → any p (rows ++ (row ∷ [])) ≡ true
  unfolding any
  any-append_kept row [] h = ground (arith, h)
  any-append_kept row (r ∷ rs) h = ground (arith, h, any-append_kept row rs)

  pub keep_or_add-there :
      (row : R) (rows : List R) → p row ≡ true → any p (keep_or_add p row rows) ≡ true
  keep_or_add-there row rows h = elim (Bool-cases (any p rows)) [
    | inl e ↦ rw e e
    | inr e ↦ rw e (any-append row rows h)
  ]

  pub keep_or_add_present :
      (row : R) (rows : List R) → any p rows ≡ true → keep_or_add p row rows ≡ rows
  keep_or_add_present row rows h = rw h refl

pub keep_or_add-kept {ℓ} :
    {R : Type ℓ} (p q : R → Bool) (row : R) (rows : List R)
    → any q rows ≡ true
    → any q (keep_or_add p row rows) ≡ true
keep_or_add-kept p q row rows h = elim (Bool-cases (any p rows)) [
  | inl e ↦ rw e h
  | inr e ↦ rw e (any-append_kept q row rows h)
]

-- A setting that is there.
abbrev IsStored : List Setting → String × String → Type 0
IsStored settings d = any (is_setting d.0) settings ≡ true

seed-kept :
    (now : ℤ) (k : String) (ds : List (String × String)) (settings : List Setting)
    → any (is_setting k) settings ≡ true
    → any (is_setting k) (seed now ds settings) ≡ true
unfolding seed
seed-kept now k [] settings h = h
seed-kept now k ((j, v) ∷ ds) settings h =
    seed-kept now k ds (default_setting now j v settings)
      (keep_or_add-kept (is_setting j) (is_setting k) _ settings h)

seed-All :
    (now : ℤ) (ds : List (String × String)) (settings : List Setting)
    → All (IsStored (seed now ds settings)) ds
unfolding seed
seed-All now [] settings = tt
seed-All now ((k, v) ∷ ds) settings = (
  seed-kept now k ds (default_setting now k v settings)
      (keep_or_add-there (is_setting k) _ settings (==-refl k)),
  seed-All now ds (default_setting now k v settings),
)

seed_present :
    (now : ℤ) (ds : List (String × String)) (settings : List Setting)
    → All (IsStored settings) ds
    → seed now ds settings ≡ settings
unfolding seed
seed_present now [] settings h = refl
seed_present now ((k, v) ∷ ds) settings (h, hs) =
    ap (seed now ds) (keep_or_add_present (is_setting k) _ settings h)
    ∙ seed_present now ds settings hs

settle_again : (now later : ℤ) (db : Db) → settle later (settle now db) ≡ settle now db
unfolding settle seed_settings ensure_live_snapshot live_row
settle_again now later db =
    let first = settle now db in
    ap (λ s. ensure_live_snapshot later (record first { settings = s }))
      (seed_present later defaults first.settings (seed-All now defaults db.settings))
    ∙ ap (λ rows. record first { snapshots = rows })
        (keep_or_add_present is_live _ first.snapshots
          (keep_or_add-there is_live (live_row now (seed_settings now db)) db.snapshots refl))

lookup_meta-append :
    (k v : String) (meta : List (String × String)) (row : String × String)
    → lookup_meta k meta ≡ some v
    → lookup_meta k (meta ++ (row ∷ [])) ≡ some v
unfolding lookup_meta
lookup_meta-append k v [] row h = ground (arith, h)
lookup_meta-append k v ((j, w) ∷ rest) row h = ground (arith, h, lookup_meta-append k v rest row)

lookup_meta-added :
    (k v : String) (meta : List (String × String))
    → lookup_meta k meta ≡ none
    → lookup_meta k (meta ++ ((k, v) ∷ [])) ≡ some v
unfolding lookup_meta
lookup_meta-added k v [] h = rw (==-refl k) refl
lookup_meta-added k v ((j, w) ∷ rest) h = ground (arith, h, lookup_meta-added k v rest)

keep_or_add-lookup :
    (k v : String) (meta : List (String × String)) (p : String × String → Bool)
    (row : String × String)
    → lookup_meta k meta ≡ some v
    → lookup_meta k (keep_or_add p row meta) ≡ some v
keep_or_add-lookup k v meta p row h =
    if_both (λ m. lookup_meta k m ≡ some v) (any p meta) meta (meta ++ (row ∷ [])) h
      (lookup_meta-append k v meta row h)

first_meta-version :
    (now : ℤ) (id : String) (meta : List (String × String))
    → lookup_meta "schema_version" meta ≡ none
    → lookup_meta "schema_version" (first_meta now id meta) ≡ some "1"
unfolding first_meta
first_meta-version now id meta h =
    keep_or_add-lookup _ _ _ _ _
      (keep_or_add-lookup _ _ _ _ _ (lookup_meta-added "schema_version" "1" meta h))

version_of_first : ltb_ℤ schema_version (version_of "1") ≡ false
unfolding parse_i64 parse_unsigned parse_digits
version_of_first = refl

-- A database that was opened, of a version that is known.
migrate_settled :
    (now later : ℤ) (id v : String) (db : Db)
    → lookup_meta "schema_version" db.meta ≡ some v
    → ltb_ℤ schema_version (version_of v) ≡ false
    → migrate later id (settle now db) ≡ (ok tt, settle now db)
unfolding migrate settle seed_settings ensure_live_snapshot
migrate_settled now later id v db h known =
    ap (λ o. migrate_from later id o (settle now db)) h
    ∙ rw known (ap (λ d. (ok tt, d)) (settle_again now later db))

migrate_from_again :
    (now later : ℤ) (id other : String) (found : Option String) (db : Db)
    → lookup_meta "schema_version" db.meta ≡ found
    → (migrate_from now id found db).0 ≡ ok tt
    → migrate later other (migrate_from now id found db).1
      ≡ (ok tt, (migrate_from now id found db).1)
migrate_from_again now later id other none db h done =
    migrate_settled now later other "1" (record db { meta = first_meta now id db.meta })
      (first_meta-version now id db.meta h) version_of_first
migrate_from_again now later id other (some v) db h done =
    elim (Bool-cases (ltb_ℤ schema_version (version_of v))) [
      | inl newer ↦ ground (arith, newer, done)
      | inr known ↦ rw known (migrate_settled now later other v db h known)
    ]

-- A database that was opened is opened again at any later time without a change.
pub migrate_again :
    (now later : ℤ) (id other : String) (db : Db)
    → (migrate now id db).0 ≡ ok tt
    → migrate later other (migrate now id db).1 ≡ (ok tt, (migrate now id db).1)
unfolding migrate
migrate_again now later id other db done =
    migrate_from_again now later id other (lookup_meta "schema_version" db.meta) db refl done
