-- ===== src/Store/Row/Keyed.antt =====
-- The statements keep the primary key, and say of every row what they say of its parts.
use session_restore.Common.{
  ◌≡◌, Bool, false, List, [], ◌∷◌, arith, ℕ_eq, String_eq, ==_comm, select, All, All-select, inl,
  inr, Bool-cases,
}
use session_restore.Store.Row.{Row, same_key, upsert, IsKeyed}

module _ {ℓ κ} {R : Type ℓ} ⦃t : Row R⦄ (P : R → Type κ) where
  pub All-upsert :
      (merge : R → R → R) (r : R) (rows : List R)
      → P r
      → ((x : R) → P x → P (merge x r))
      → All P rows
      → All P (upsert merge r rows)
  unfolding upsert
  All-upsert merge r [] hr f h = (hr, tt)
  All-upsert merge r (x ∷ xs) hr f h = elim (Bool-cases (same_key r x)) [
    | inl e ↦ rw e (f x h.0, h.1)
    | inr e ↦ rw e (h.0, All-upsert merge r xs hr f h.1)
  ]

module _ {ℓ} {R : Type ℓ} ⦃t : Row R⦄ where
  pub IsKeyed-select : (p : R → Bool) (rows : List R) → IsKeyed rows → IsKeyed (select p rows)
  unfolding select
  IsKeyed-select p [] h = tt
  IsKeyed-select p (x ∷ xs) h = elim (Bool-cases (p x)) [
    | inl e ↦ rw e (All-select (λ y. same_key x y ≡ false) p xs h.0, IsKeyed-select p xs h.1)
    | inr e ↦ rw e (IsKeyed-select p xs h.1)
  ]

  pub same_key_comm : (x y : R) → same_key x y ≡ same_key y x
  same_key_comm x y =
      ground (arith, ==_comm (t.snapshot_id x) (t.snapshot_id y), ==_comm (t.key x) (t.key y))

  -- A merge that keeps the two key columns keeps the primary key.
  pub IsKeyed-upsert :
      (merge : R → R → R)
      → ((x y : R) → (t.snapshot_id (merge x y) ≡ t.snapshot_id x) × (t.key (merge x y) ≡ t.key x))
      → (r : R) (rows : List R) → IsKeyed rows
      → IsKeyed (upsert merge r rows)
  unfolding upsert
  IsKeyed-upsert merge keeps r [] h = (tt, tt)
  IsKeyed-upsert merge keeps r (x ∷ xs) h = elim (Bool-cases (same_key r x)) [
    | inl e ↦ rw e (rw ((keeps x r).0, (keeps x r).1) h.0, h.1)
    | inr e ↦ rw e (
      All-upsert (λ y. same_key x y ≡ false) merge r xs (rw same_key_comm e)
          (λ y hy. rw ((keeps y r).0, (keeps y r).1) hy) h.0,
      IsKeyed-upsert merge keeps r xs h.1,
    )
  ]
