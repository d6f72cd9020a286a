-- ===== src/Server/Reap/Tables.antt =====
-- The statements of `reap_missing_for_browser` on one table.
use session_restore.Common.{
  ◌≡◌, refl, String, Bool, true, false, not, List, [], ◌∷◌, arith, map, ◌&&◌, ◌==◌, ℕ_eq, String_eq,
  nat_eq_iff, contains, contains-select, map-select-contains, any, select, select-All,
  select_implied, All, All-both, All-always, All-select, All-imp, ◌∙◌,
}
use text.Mathlib.TextEquality.{eq_iff}
use session_restore.Store.Row.{Row, IsKeyed, delete_key, has_key, same_key}
use session_restore.Store.Row.Keyed.{IsKeyed-select}
use session_restore.Store.Db.{live}
use session_restore.Server.State.{in_window, delete_keys, stale}

module _ {ℓ} {A : Type ℓ} where
  -- A deletion that spares what a query asks for is not seen by it.
  select_spared :
      (p q : A → Bool) (xs : List A)
      → All (λ x. p x ≡ true → q x ≡ true) xs
      → select p (select q xs) ≡ select p xs
  unfolding select
  select_spared p q [] h = refl
  select_spared p q (x ∷ xs) (h, hs) = ground (arith, h, select_spared p q xs hs)

module _ {ℓ} {R : Type ℓ} ⦃t : Row R⦄ where
  -- A row of the live state under one of the keys.
  abbrev is_hit : List String → R → Bool
  is_hit ks r = t.snapshot_id r == live && contains (t.key r) ks

  pub All-delete_keys {κ} :
      (P : R → Type κ) (ks : List String) (rows : List R) → All P rows → All P (delete_keys ks rows)
  All-delete_keys P [] rows h = h
  All-delete_keys P (k ∷ ks) rows h =
      All-delete_keys P ks (delete_key live k rows)
        (All-select P (λ r. not (has_key live k r)) rows h)

  pub IsKeyed-delete_keys :
      (ks : List String) (rows : List R) → IsKeyed rows → IsKeyed (delete_keys ks rows)
  IsKeyed-delete_keys [] rows h = h
  IsKeyed-delete_keys (k ∷ ks) rows h =
      IsKeyed-delete_keys ks (delete_key live k rows)
        (IsKeyed-select (λ r. not (has_key live k r)) rows h)

  delete_keys-misses :
      (ks : List String) (rows : List R) → All (λ r. is_hit ks r ≡ false) (delete_keys ks rows)
  unfolding any
  delete_keys-misses [] rows = All-always _ (λ r. ground arith) rows
  delete_keys-misses (k ∷ ks) rows =
      All-imp (λ r. (is_hit ks r ≡ false) × (not (has_key live k r) ≡ true))
        (λ r. is_hit (k ∷ ks) r ≡ false) (delete_keys ks (delete_key live k rows))
        (λ r h. ground (arith, h, eq_iff (t.key r) k, eq_iff k (t.key r)))
        (All-both _ _ _ (delete_keys-misses ks (delete_key live k rows)) (
          All-delete_keys (λ r. not (has_key live k r) ≡ true) ks (delete_key live k rows)
            (select-All (λ r. not (has_key live k r)) rows)))

  select-delete_keys :
      (p : R → Bool) (ks : List String) (rows : List R)
      → All (λ r. p r ≡ true → is_hit ks r ≡ false) rows
      → select p (delete_keys ks rows) ≡ select p rows
  unfolding any
  select-delete_keys p [] rows h = refl
  select-delete_keys p (k ∷ ks) rows h =
      select-delete_keys p ks (delete_key live k rows) (
        All-select _ (λ r. not (has_key live k r)) rows
          (All-imp _ _ rows (λ r f e. ground (arith, f e)) h))
      ∙ select_spared p (λ r. not (has_key live k r)) rows
          (All-imp _ _ rows (λ r f e. ground (arith, f e, eq_iff (t.key r) k, eq_iff k (t.key r)))
            h)

  -- Under the primary key, the keys of other live rows are not the key of a row.
  keys_of_others :
      (q : R → Bool) (x : R) (rows : List R)
      → ((r : R) → q r ≡ true → t.snapshot_id r ≡ live)
      → All (λ y. same_key x y ≡ false) rows
      → is_hit (map t.key (select q rows)) x ≡ false
  unfolding any select
  keys_of_others q x [] f h = ground arith
  keys_of_others q x (y ∷ ys) f (h, hs) = ground (
    arith,
    f y,
    nat_eq_iff (t.snapshot_id y) (t.snapshot_id x),
    nat_eq_iff (t.snapshot_id x) live,
    eq_iff (t.key y) (t.key x),
    keys_of_others q x ys f hs,
  )

  others_keys_of :
      (p q : R → Bool) (rows : List R)
      → ((r : R) → q r ≡ true → (t.snapshot_id r ≡ live) × (p r ≡ false))
      → IsKeyed rows
      → All (λ r. p r ≡ true → is_hit (map t.key (select q rows)) r ≡ false) rows
  unfolding any select
  others_keys_of p q [] f h = tt
  others_keys_of p q (x ∷ xs) f (h, hs) = (
    (λ e. let out = keys_of_others q x xs (λ r k. (f r k).0) h in ground (arith, f x, out)),
    All-imp _ _ xs
        (λ r both e. ground (
          arith,
          f x,
          both.1 e,
          both.0,
          nat_eq_iff (t.snapshot_id r) (t.snapshot_id x),
          nat_eq_iff (t.snapshot_id r) live,
          eq_iff (t.key r) (t.key x),
          eq_iff (t.key x) (t.key r),
        ))
        (All-both _ _ xs h (others_keys_of p q xs f hs)),
  )

-- A table with a column `browser_window_id`.
module _ {ℓ} {R : Type ℓ} ⦃t : Row R⦄ (of : R → String) where
  abbrev pub here : String → R → Bool
  here window r = in_window window (t.snapshot_id r) (of r)

  abbrev pub here_keys : String → List R → List String
  here_keys window rows = map t.key (select (here window) rows)

  -- Of a window that is reported, only reported tabs are left.
  pub stale-reported :
      (window : String) (reported : List String) (rows : List R)
      → All
          (λ r. here window r ≡ true → contains (t.key r) reported ≡ true)
          (delete_keys (stale reported (here_keys window rows)) rows)
  stale-reported window reported rows =
      All-imp _ _ _
        (λ r both e. ground (
          arith,
          both.0,
          both.1 e,
          contains-select (λ k. not (contains k reported)) (t.key r) (here_keys window rows),
        ))
        (All-both _ _ _ (delete_keys-misses (stale reported (here_keys window rows)) rows) (
          All-delete_keys _ (stale reported (here_keys window rows)) rows
            (map-select-contains t.key (here window) rows)))

  -- The rows of another window are all left.
  pub stale-apart :
      (window other : String) (reported : List String) (rows : List R)
      → (window == other) ≡ false
      → IsKeyed rows
      → select (here other) (delete_keys (stale reported (here_keys window rows)) rows)
        ≡ select (here other) rows
  stale-apart window other reported rows ne h =
      select-delete_keys (here other) (stale reported (here_keys window rows)) rows (
        All-imp _ _ rows
          (λ r f e. ground (
            arith,
            f e,
            contains-select (λ k. not (contains k reported)) (t.key r) (here_keys window rows),
          ))
          (others_keys_of (here other) (here window) rows
            (λ r e. (
              ground (arith, e, nat_eq_iff (t.snapshot_id r) live),
              ground (arith, e, ne, eq_iff (of r) window, eq_iff (of r) other, eq_iff window other),
            ))
            h))

  pub window-apart :
      (window other : String) (rows : List R)
      → (window == other) ≡ false
      → select (here other) (select (λ r. not (here window r)) rows) ≡ select (here other) rows
  window-apart window other rows ne =
      select_implied (here other) (λ r. not (here window r)) rows
        (λ r e.
          ground (arith, e, ne, eq_iff (of r) window, eq_iff (of r) other, eq_iff window other))
