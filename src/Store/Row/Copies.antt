-- ===== src/Store/Row/Copies.antt =====
-- Copying the rows of one snapshot under a new one.
use session_restore.Common.{
  ℕ, String, ◌≡◌, refl, ◌∙◌, ◌≢◌, Bool, true, false, List, [], ◌∷◌, ◌++◌, map, arith, ℕ_eq,
  String_eq, ==-refl, any, All, All-append, select-append, select_every, select_none, select-All,
  All-imp, nat_eq_iff,
}
use mathlib.Core.List.{append-nil}
use session_restore.Store.Row.Keyed.{IsKeyed-select}
use session_restore.Store.Row.{
  Row, same_key, has_key, in_snapshot, rows_at, copy_rows, collides, IsKeyed,
}

abbrev pub IsEmptyAt {ℓ} : {R : Type ℓ} ⦃t : Row R⦄ → ℕ → List R → Type 0
IsEmptyAt id rows = All (λ r. in_snapshot id r ≡ false) rows

module _ {ℓ} {R : Type ℓ} ⦃t : Row R⦄ where
  every_restamped :
      (to : ℕ) (rows : List R) → All (λ r. in_snapshot to r ≡ true) (map (t.restamp to) rows)
  every_restamped to [] = tt
  every_restamped to (x ∷ xs) = (rw t.snapshot_id-restamp (==-refl to), every_restamped to xs)

  none_restamped :
      (other to : ℕ) → other ≢ to → (rows : List R) → IsEmptyAt other (map (t.restamp to) rows)
  none_restamped other to ne [] = tt
  none_restamped other to ne (x ∷ xs) = (
    rw t.snapshot_id-restamp (ground (arith, nat_eq_iff to other)),
    none_restamped other to ne xs,
  )

  -- The new snapshot holds exactly the copies of the old one's rows.
  pub rows_at-copy_rows :
      (from to : ℕ) (rows : List R)
      → IsEmptyAt to rows
      → rows_at to (copy_rows from to rows) ≡ map (t.restamp to) (rows_at from rows)
  rows_at-copy_rows from to rows h =
      select-append (in_snapshot to) rows (map (t.restamp to) (rows_at from rows))
      ∙ rw (select_none (in_snapshot to) rows h)
          (select_every (in_snapshot to) _ (every_restamped to (rows_at from rows)))

  -- Every other snapshot keeps its rows.
  pub rows_at-copy_rows_other :
      (from to other : ℕ) (rows : List R)
      → other ≢ to
      → rows_at other (copy_rows from to rows) ≡ rows_at other rows
  rows_at-copy_rows_other from to other rows ne =
      select-append (in_snapshot other) rows (map (t.restamp to) (rows_at from rows))
      ∙ rw
          (select_none (in_snapshot other) (map (t.restamp to) (rows_at from rows))
            (none_restamped other to ne (rows_at from rows)))
          (append-nil (rows_at other rows))

  any_fresh :
      (to : ℕ) (k : String) (rows : List R) → IsEmptyAt to rows → any (has_key to k) rows ≡ false
  unfolding any
  any_fresh to k [] h = refl
  any_fresh to k (x ∷ xs) h = ground (arith, h.0, any_fresh to k xs h.1)

  any_none : (p : R → Bool) (xs : List R) → ((x : R) → p x ≡ false) → any p xs ≡ false
  unfolding any
  any_none p [] f = refl
  any_none p (x ∷ xs) f = ground (arith, f x, any_none p xs f)

  -- A snapshot id that no row has leaves nothing to collide with.
  pub collides_fresh :
      (from to : ℕ) (rows : List R) → IsEmptyAt to rows → collides from to rows ≡ false
  unfolding collides
  collides_fresh from to rows h =
      any_none (λ r. any (has_key to (t.key r)) rows) (rows_at from rows)
        (λ r. any_fresh to (t.key r) rows h)

  IsKeyed-append :
      (xs ys : List R)
      → IsKeyed xs
      → IsKeyed ys
      → All (λ x. All (λ y. same_key x y ≡ false) ys) xs
      → IsKeyed (xs ++ ys)
  IsKeyed-append [] ys h k f = k
  IsKeyed-append (x ∷ xs) ys h k f =
      (All-append (λ y. same_key x y ≡ false) xs ys h.0 f.0, IsKeyed-append xs ys h.1 k f.1)

  -- Within one snapshot the keys alone tell rows apart, and the copies have the same keys.
  restamp_apart :
      (from to : ℕ) (x : R) (ys : List R)
      → in_snapshot from x ≡ true
      → All (λ y. in_snapshot from y ≡ true) ys
      → All (λ y. same_key x y ≡ false) ys
      → All (λ y. same_key (t.restamp to x) y ≡ false) (map (t.restamp to) ys)
  restamp_apart from to x [] hx f h = tt
  restamp_apart from to x (y ∷ ys) hx f h = (
    rw
        (
          t.snapshot_id-restamp to x,
          t.key-restamp to x,
          t.snapshot_id-restamp to y,
          t.key-restamp to y,
        )
        (ground (
          arith,
          h.0,
          nat_eq_iff (t.snapshot_id x) from,
          nat_eq_iff (t.snapshot_id y) from,
          nat_eq_iff (t.snapshot_id y) (t.snapshot_id x),
          f.0,
        )),
    restamp_apart from to x ys hx f.1 h.1,
  )

  IsKeyed-restamp :
      (from to : ℕ) (xs : List R)
      → All (λ x. in_snapshot from x ≡ true) xs
      → IsKeyed xs
      → IsKeyed (map (t.restamp to) xs)
  IsKeyed-restamp from to [] f h = tt
  IsKeyed-restamp from to (x ∷ xs) f h =
      (restamp_apart from to x xs f.0 f.1 h.0, IsKeyed-restamp from to xs f.1 h.1)

  apart_of_snapshot :
      (to : ℕ) (x : R) (ys : List R)
      → in_snapshot to x ≡ false
      → All (λ y. in_snapshot to y ≡ true) ys
      → All (λ y. same_key x y ≡ false) ys
  apart_of_snapshot to x [] hx f = tt
  apart_of_snapshot to x (y ∷ ys) hx f = (
    ground (
      arith,
      nat_eq_iff (t.snapshot_id x) to,
      nat_eq_iff (t.snapshot_id y) to,
      nat_eq_iff (t.snapshot_id y) (t.snapshot_id x),
      f.0,
    ),
    apart_of_snapshot to x ys hx f.1,
  )

  -- Copying under a snapshot id that no row has keeps the primary key.
  pub IsKeyed-copy_rows :
      (from to : ℕ) (rows : List R)
      → IsEmptyAt to rows
      → IsKeyed rows
      → IsKeyed (copy_rows from to rows)
  IsKeyed-copy_rows from to rows empty h =
      IsKeyed-append rows (map (t.restamp to) (rows_at from rows)) h
        (IsKeyed-restamp from to (rows_at from rows) (select-All (in_snapshot from) rows)
          (IsKeyed-select (in_snapshot from) rows h))
        (All-imp (λ x. in_snapshot to x ≡ false)
          (λ x. All (λ y. same_key x y ≡ false) (map (t.restamp to) (rows_at from rows))) rows
          (λ x hx.
            apart_of_snapshot to x (map (t.restamp to) (rows_at from rows)) hx
              (every_restamped to (rows_at from rows)))
          empty)
