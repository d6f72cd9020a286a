-- ===== src/Restore/Place/Area.antt =====
-- Enough of both sides on a display is enough area (`visible_area`).
use mathlib.Core.Path.{subst}
use native.Mathlib.Nat.{mul-le-mul_right}
use session_restore.Common.{ℕ, ◌*◌, ◌≤◌, sym, ap, ◌∙◌, List, [], ◌∷◌, All, arith}
use session_restore.Common.Int.{ℤ, pos, negsuc, ◌≤ℤ◌, min_ℤ, max_ℤ, wrap}
use session_restore.Restore.Place.{Rect, Display, mul32, overlap, area_on, best_area, enough}
use session_restore.Restore.Place.Numbers.{
  IsWithin, ≤ℤ-trans, max_left, max_right, min_right, IsWithin-between, min-positive, wrap-small,
}
use session_restore.Restore.Place.Seen.{pos_mul}

-- Two sides of which enough is seen, and their product.
product_bounds :
    (n k : ℕ) → 120 ≤ n → 40 ≤ k → n ≤ 32767 → k ≤ 32767 → (4800 ≤ n * k) × (n * k ≤ 32767 * 32767)
product_bounds n k h i h' i' = (
  omega (arith, mul-le-mul_right {m = 120} {n = n} k h),
  omega (arith, mul-le-mul_right {m = n} {n = 32767} k h'),
)

mul32-enough :
    (a b : ℤ)
    → pos 120 ≤ℤ a
    → pos 40 ≤ℤ b
    → IsWithin 32767 a
    → IsWithin 32767 b
    → enough ≤ℤ mul32 a b
mul32-enough (pos n) (pos k) h i h' i' =
    let bounds = product_bounds n k (omega (arith, h)) (omega (arith, i)) h'.0 i'.0 in
    subst (λ v. enough ≤ℤ v)
      (sym (
        ap (wrap 32) (pos_mul n k)
        ∙ wrap-small (pos (n * k)) (omega (arith, bounds.1), omega arith)))
      (omega (arith, bounds.0))
mul32-enough (pos n) (negsuc k) h i h' i' = omega arith
mul32-enough (negsuc n) b h i h' i' = omega arith

-- Where enough of both sides lies on a display, the area does.
pub area_on-enough :
    (r : Rect) (d : Display)
    → pos 120 ≤ℤ min_ℤ (overlap r.x r.w d.bounds.x d.bounds.w) r.w
    → pos 40 ≤ℤ min_ℤ (overlap r.y r.h d.bounds.y d.bounds.h) r.h
    → IsWithin 32767 r.w
    → IsWithin 32767 r.h
    → enough ≤ℤ area_on r d
unfolding area_on
area_on-enough r d h i hw hh =
    let ox = overlap r.x r.w d.bounds.x d.bounds.w in
    let oy = overlap r.y r.h d.bounds.y d.bounds.h in
    rw (min-positive 119 ox r.w h, min-positive 39 oy r.h i)
      (mul32-enough (min_ℤ ox r.w) (min_ℤ oy r.h) h i
        (IsWithin-between 120 32767 _ r.w h (min_right ox r.w) hw)
        (IsWithin-between 40 32767 _ r.h i (min_right oy r.h) hh))

-- The best of the areas is none of the smaller ones.
best_area_grows : (r : Rect) (best : ℤ) (ds : List Display) → best ≤ℤ best_area r best ds
unfolding best_area
best_area_grows r best [] = omega arith
best_area_grows r best (d ∷ ds) =
    let rest = best_area_grows r (max_ℤ best (area_on r d)) ds in
    ≤ℤ-trans best _ _ (max_left best (area_on r d)) rest

pub best_area-All :
    (r : Rect) (best : ℤ) (ds : List Display) → All (λ d. area_on r d ≤ℤ best_area r best ds) ds
unfolding best_area
best_area-All r best [] = tt
best_area-All r best (d ∷ ds) = (
  ≤ℤ-trans (area_on r d) _ _ (max_right best (area_on r d))
      (best_area_grows r (max_ℤ best (area_on r d)) ds),
  best_area-All r (max_ℤ best (area_on r d)) ds,
)
