-- ===== src/Store/Row/Laws.antt =====
-- What a row lookup shows after each statement.
use session_restore.Common.{
  ℕ, String, ◌≡◌, ◌≢◌, refl, ap, select_implied, Bool, true, false, not, Option, none, some, List,
  [], ◌∷◌, arith, ==-refl, ℕ_eq, String_eq, nat_eq_iff, ◌==◌, ◌&&◌, if◌then◌else◌, select, find,
}
use text.Mathlib.TextEquality.{eq_iff}
use session_restore.Store.Row.{
  Row, in_snapshot, rows_at, has_key, same_key, get, delete_key, upsert,
}

module _ {ℓ} {R : Type ℓ} where
  -- A test that the deletion never meets is not disturbed by it.
  pub find-select :
      (p q : R → Bool) (xs : List R)
      → ((x : R) → p x ≡ true → q x ≡ true)
      → find p (select q xs) ≡ find p xs
  unfolding find select
  find-select p q [] f = refl
  find-select p q (x ∷ xs) f = ground (arith, f x, find-select p q xs f)

  pub find-select-none :
      (p q : R → Bool) (xs : List R)
      → ((x : R) → p x ≡ true → q x ≡ false)
      → find p (select q xs) ≡ none
  unfolding find select
  find-select-none p q [] f = refl
  find-select-none p q (x ∷ xs) f = ground (arith, f x, find-select-none p q xs f)

-- What an upsert leaves at its own key: the merge with the old row, or the new row.
abbrev pub merged {ℓ} : {R : Type ℓ} → (R → R → R) → R → Option R → R
merged merge r none = r
merged merge r (some old) = merge old r

module _ {ℓ} {R : Type ℓ} ⦃t : Row R⦄ where
  pub get-delete_key_self :
      (id : ℕ) (k : String) (rows : List R) → get id k (delete_key id k rows) ≡ none
  get-delete_key_self id k rows =
      find-select-none (has_key id k) (λ r. not (has_key id k r)) rows (λ x h. ap not h)

  -- The upsert of `r` is found under the key of `r`.
  pub get-upsert_self :
      (merge : R → R → R) (r : R) (rows : List R)
      → ((x : R) → same_key r x ≡ true → same_key r (merge x r) ≡ true)
      → get (t.snapshot_id r) (t.key r) (upsert merge r rows)
        ≡ some (merged merge r (get (t.snapshot_id r) (t.key r) rows))
  unfolding upsert find
  get-upsert_self merge r [] keeps = ground (arith, ==-refl (t.snapshot_id r), ==-refl (t.key r))
  get-upsert_self merge r (x ∷ xs) keeps = ground (arith, keeps x, get-upsert_self merge r xs keeps)

  -- An upsert of `r` changes no lookup that finds neither `r` nor a row under its key.
  pub find-upsert_other :
      (p : R → Bool) (merge : R → R → R) (r : R) (rows : List R)
      → p r ≡ false
      → ((x : R) → same_key r x ≡ true → (p x ≡ false) × (p (merge x r) ≡ false))
      → find p (upsert merge r rows) ≡ find p rows
  unfolding upsert find
  find-upsert_other p merge r [] hr f = ground arith
  find-upsert_other p merge r (x ∷ xs) hr f =
      ground (arith, f x, find-upsert_other p merge r xs hr f)

  pub select-upsert_other :
      (p : R → Bool) (merge : R → R → R) (r : R) (rows : List R)
      → p r ≡ false
      → ((x : R) → same_key r x ≡ true → (p x ≡ false) × (p (merge x r) ≡ false))
      → select p (upsert merge r rows) ≡ select p rows
  unfolding upsert select
  select-upsert_other p merge r [] hr f = ground arith
  select-upsert_other p merge r (x ∷ xs) hr f =
      ground (arith, f x, select-upsert_other p merge r xs hr f)

  -- The whole view after an upsert that overwrites every column.
  pub get-upsert :
      (merge : R → R → R) (r : R) (rows : List R) (id : ℕ) (k : String)
      → ((old : R) → merge old r ≡ r)
      → get id k (upsert merge r rows) ≡ (if has_key id k r then some r else get id k rows)
  unfolding upsert find
  get-upsert merge r [] id k over = refl
  get-upsert merge r (x ∷ xs) id k over = ground (
    arith,
    over x,
    nat_eq_iff (t.snapshot_id r) id,
    nat_eq_iff (t.snapshot_id x) id,
    nat_eq_iff (t.snapshot_id x) (t.snapshot_id r),
    eq_iff (t.key r) k,
    eq_iff (t.key x) k,
    eq_iff (t.key x) (t.key r),
    get-upsert merge r xs id k over,
  )

  pub get-delete_key :
      (i : ℕ) (j : String) (rows : List R) (id : ℕ) (k : String)
      → get id k (delete_key i j rows) ≡ (if i == id && j == k then none else get id k rows)
  unfolding find select
  get-delete_key i j [] id k = ground arith
  get-delete_key i j (x ∷ xs) id k = ground (
    arith,
    nat_eq_iff i id,
    nat_eq_iff (t.snapshot_id x) id,
    nat_eq_iff (t.snapshot_id x) i,
    eq_iff j k,
    eq_iff (t.key x) k,
    eq_iff (t.key x) j,
    get-delete_key i j xs id k,
  )

  -- A statement on one snapshot leaves the rows of the others.
  pub rows_at-upsert_other :
      (merge : R → R → R) (r : R) (rows : List R) (other : ℕ)
      → other ≢ t.snapshot_id r
      → ((old : R) → t.snapshot_id (merge old r) ≡ t.snapshot_id old)
      → rows_at other (upsert merge r rows) ≡ rows_at other rows
  rows_at-upsert_other merge r rows other ne keeps =
      select-upsert_other (in_snapshot other) merge r rows
        (ground (arith, nat_eq_iff (t.snapshot_id r) other))
        (λ x h. ground (
          arith,
          h,
          keeps x,
          nat_eq_iff (t.snapshot_id x) other,
          nat_eq_iff (t.snapshot_id x) (t.snapshot_id r),
        ))

  pub rows_at-upsert_overwrite :
      (r : R) (rows : List R) (other : ℕ)
      → other ≢ t.snapshot_id r
      → rows_at other (upsert (λ old new. new) r rows) ≡ rows_at other rows
  rows_at-upsert_overwrite r rows other ne =
      select-upsert_other (in_snapshot other) (λ old new. new) r rows
        (ground (arith, nat_eq_iff (t.snapshot_id r) other))
        (λ x h. ground (
          arith,
          h,
          nat_eq_iff (t.snapshot_id r) other,
          nat_eq_iff (t.snapshot_id x) other,
          nat_eq_iff (t.snapshot_id x) (t.snapshot_id r),
        ))

  pub rows_at-delete_key :
      (id : ℕ) (k : String) (rows : List R) (other : ℕ)
      → other ≢ id
      → rows_at other (delete_key id k rows) ≡ rows_at other rows
  rows_at-delete_key id k rows other ne =
      select_implied (in_snapshot other) (λ r. not (has_key id k r)) rows
        (λ r h. ground (arith, nat_eq_iff (t.snapshot_id r) other, nat_eq_iff (t.snapshot_id r) id))
