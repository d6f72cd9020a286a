-- ===== src/Store/Row.antt =====
-- The tables of schema.sql that carry a `snapshot_id`: rows under the primary key
-- (snapshot_id, key), and the statements that the agent runs on them.
use session_restore.Common.{
  ℕ, String, ◌≡◌, refl, ◌↔◌, Bool, true, false, not, ◌&&◌, Option, none, some, List, [], ◌∷◌, ◌++◌,
  map, ◌==◌, ℕ_eq, String_eq, if◌then◌else◌, select, find, any, All,
}
pub mod Laws
pub mod Keyed
pub mod Copies

-- A row type with its two key columns, and the copy of a row under another snapshot.
pub record Row {ℓ} (R : Type ℓ) : Type ℓ where
  pub snapshot_id : R → ℕ
  pub key : R → String
  pub restamp : ℕ → R → R
  pub snapshot_id-restamp : (id : ℕ) (r : R) → snapshot_id (restamp id r) ≡ id
  pub key-restamp : (id : ℕ) (r : R) → key (restamp id r) ≡ key r

module _ {ℓ} {R : Type ℓ} ⦃t : Row R⦄ where
  -- WHERE snapshot_id = id
  abbrev pub in_snapshot : ℕ → R → Bool
  in_snapshot id r = t.snapshot_id r == id

  -- WHERE snapshot_id = id AND key = k
  abbrev pub has_key : ℕ → String → R → Bool
  has_key id k r = t.snapshot_id r == id && t.key r == k

  abbrev pub same_key : R → R → Bool
  same_key x y = has_key (t.snapshot_id x) (t.key x) y

  -- SELECT .. WHERE snapshot_id = id
  abbrev pub rows_at : ℕ → List R → List R
  rows_at id rows = select (in_snapshot id) rows

  -- SELECT .. WHERE snapshot_id = id AND key = k
  abbrev pub get : ℕ → String → List R → Option R
  get id k rows = find (has_key id k) rows

  -- DELETE .. WHERE snapshot_id = id
  abbrev pub delete_at : ℕ → List R → List R
  delete_at id rows = select (λ r. not (in_snapshot id r)) rows

  -- DELETE .. WHERE snapshot_id = id AND key = k
  abbrev pub delete_key : ℕ → String → List R → List R
  delete_key id k rows = select (λ r. not (has_key id k r)) rows

  -- INSERT .. ON CONFLICT(snapshot_id, key) DO UPDATE; `merge old new` is the updated row.
  unfoldable pub upsert : (R → R → R) → R → List R → List R
  upsert merge r [] = r ∷ []
  upsert merge r (x ∷ xs) =
      let rest = upsert merge r xs in if same_key r x then merge x r ∷ xs else x ∷ rest

  -- INSERT .. SELECT `to`, .. WHERE snapshot_id = from
  abbrev pub copy_rows : ℕ → ℕ → List R → List R
  copy_rows from to rows = rows ++ map (t.restamp to) (rows_at from rows)

  -- The rows that the statement above inserts meet the primary key.
  unfoldable pub collides : ℕ → ℕ → List R → Bool
  collides from to rows = any (λ r. any (has_key to (t.key r)) rows) (rows_at from rows)

  -- PRIMARY KEY (snapshot_id, key)
  abbrev pub IsKeyed : List R → Type 0
  IsKeyed [] = Unit
  IsKeyed (x ∷ xs) = All (λ y. same_key x y ≡ false) xs × IsKeyed xs
