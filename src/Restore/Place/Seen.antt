-- ===== src/Restore/Place/Seen.antt =====
-- How much of a window is on a display, in numbers that do not wrap (`visible_area`).
use mathlib.Core.Path.{subst}
use native.Mathlib.Nat.{mul-le-mul_right}
use session_restore.Common.{
  ℕ, ◌*◌, ◌≤◌, ◌≡◌, refl, sym, ◌∙◌, ◌&&◌, List, [], ◌∷◌, All, ◌⊎◌, if◌then◌else◌, arith, inl, inr,
  Bool-cases,
}
use session_restore.Common.Int.{
  ℤ, pos, negsuc, ◌+ℤ◌, ◌-ℤ◌, ◌*ℤ◌, ◌≤ℤ◌, ltb_ℤ, min_ℤ, max_ℤ, wrap, +ℤ_parts, -ℤ_parts,
}
use session_restore.Restore.Place.{
  Rect, Display, mul32, overlap, area_on, best_area, enough, visible_area,
}
use session_restore.Restore.Place.Numbers.{
  IsWithin, IsWithin-between, overlap-exact, wrap-small, max_left, min_left,
}

-- The part of one side that lies on a display.
abbrev pub shown : ℤ → ℤ → ℤ → ℤ → ℤ
shown x w dx dw = min_ℤ (x +ℤ w) (dx +ℤ dw) -ℤ max_ℤ x dx

-- What is seen of a window on a display: a rectangle of at least 4800 pixels.
pub record IsSeen (r : Rect) (d : Display) : Type 0 where
  pub across : pos 1 ≤ℤ shown r.x r.w d.bounds.x d.bounds.w
  pub down : pos 1 ≤ℤ shown r.y r.h d.bounds.y d.bounds.h
  pub area : pos 4800 ≤ℤ shown r.x r.w d.bounds.x d.bounds.w *ℤ shown r.y r.h d.bounds.y d.bounds.h

-- One of the elements at least.
abbrev pub AnyOf {ℓ} : {A : Type ℓ} → (A → Type 0) → List A → Type 0
AnyOf P [] = ⊥
AnyOf P (x ∷ xs) = P x ⊎ AnyOf P xs

sub_most : (p q x w : ℤ) → p ≤ℤ (x +ℤ w) → x ≤ℤ q → (p -ℤ q) ≤ℤ w
sub_most p q x w h k = omega (arith, h, k, +ℤ_parts x w, -ℤ_parts p q)

shown-most : (x w dx dw : ℤ) → shown x w dx dw ≤ℤ w
shown-most x w dx dw =
    sub_most (min_ℤ (x +ℤ w) (dx +ℤ dw)) (max_ℤ x dx) x w (min_left (x +ℤ w) (dx +ℤ dw))
      (max_left x dx)

min-of_most : (a b : ℤ) → a ≤ℤ b → min_ℤ a b ≡ a
min-of_most a b h = ground arith

pub pos_mul : (n k : ℕ) → pos n *ℤ pos k ≡ pos (n * k)
unfolding ◌*ℤ◌
pos_mul n k = ground arith

product_fits : (n k : ℕ) → n ≤ 32767 → k ≤ 32767 → n * k ≤ 32767 * 32767
product_fits n k h i =
    omega (
      arith,
      mul-le-mul_right {m = n} {n = 32767} k h,
      mul-le-mul_right {m = k} {n = 32767} 32767 i,
    )

mul32-exact :
    (a b : ℤ) → pos 1 ≤ℤ a → pos 1 ≤ℤ b → IsWithin 32767 a → IsWithin 32767 b → mul32 a b ≡ a *ℤ b
mul32-exact (pos n) (pos k) h i h' i' =
    subst (λ v. wrap 32 v ≡ v) (sym (pos_mul n k))
      (wrap-small (pos (n * k)) (omega (arith, product_fits n k h'.0 i'.0), omega arith))
mul32-exact (pos n) (negsuc k) h i h' i' = absurd (omega (arith, i))
mul32-exact (negsuc n) b h i h' i' = absurd (omega (arith, h))

best_area-attained :
    (r : Rect) (best : ℤ) (ds : List Display)
    → enough ≤ℤ best_area r best ds
    → (enough ≤ℤ best) ⊎ AnyOf (λ d. enough ≤ℤ area_on r d) ds
unfolding best_area
best_area-attained r best [] h = inl h
best_area-attained r best (d ∷ ds) h = elim (best_area-attained r (max_ℤ best (area_on r d)) ds h) [
  | inr later ↦ inr (inr later)
  | inl here ↦ elim (Bool-cases (ltb_ℤ best (area_on r d))) [
    | inl more ↦ inr (inl (ground (arith, here, more)))
    | inr less ↦ inl (ground (arith, here, less))
  ]
]

-- Coordinates as they are found on the screens of Windows, or somewhat beyond.
abbrev pub IsNear : Rect → Type 0
IsNear r = IsWithin 100000 r.x × IsWithin 100000 r.y × IsWithin 32767 r.w × IsWithin 32767 r.h

wide : (v : ℤ) → IsWithin 32767 v → IsWithin 100000 v
wide v h = (omega (arith, h.0), omega (arith, h.1))

abbrev area_of : ℤ → ℤ → ℤ → ℤ → ℤ
area_of ox oy w h =
    if ltb_ℤ (pos 0) ox && ltb_ℤ (pos 0) oy then mul32 (min_ℤ ox w) (min_ℤ oy h) else pos 0

area-IsSeen :
    (ox oy w h : ℤ)
    → ox ≤ℤ w
    → oy ≤ℤ h
    → IsWithin 32767 w
    → IsWithin 32767 h
    → enough ≤ℤ area_of ox oy w h
    → (pos 1 ≤ℤ ox) × (pos 1 ≤ℤ oy) × (pos 4800 ≤ℤ ox *ℤ oy)
area-IsSeen ox oy w h mx my hw hh seen = elim (Bool-cases (ltb_ℤ (pos 0) ox)) [
  | inr e ↦ absurd (ground (arith, e, seen))
  | inl e ↦ elim (Bool-cases (ltb_ℤ (pos 0) oy)) [
    | inr k ↦ absurd (ground (arith, e, k, seen))
    | inl k ↦
        let px : pos 1 ≤ℤ ox = ground (arith, e) in
        let py : pos 1 ≤ℤ oy = ground (arith, k) in
        let exact =
          mul32-exact ox oy px py (IsWithin-between 1 32767 ox w px mx hw)
            (IsWithin-between 1 32767 oy h py my hh) in
        let same : area_of ox oy w h ≡ mul32 ox oy =
          rw (e, k, min-of_most ox w mx, min-of_most oy h my) refl in
        (px, py, subst (λ v. enough ≤ℤ v) (same ∙ exact) seen)
  ]
]

area_on-IsSeen :
    (r : Rect) (d : Display) → IsNear r → IsNear d.bounds → enough ≤ℤ area_on r d → IsSeen r d
unfolding area_on
area_on-IsSeen r d (hx, hy, hw, hh) (bx, by, bw, bh) seen =
    let ex = overlap-exact r.x r.w d.bounds.x d.bounds.w hx (wide r.w hw) bx (wide d.bounds.w bw) in
    let ey = overlap-exact r.y r.h d.bounds.y d.bounds.h hy (wide r.h hh) by (wide d.bounds.h bh) in
    let (across, down, area) =
      area-IsSeen (shown r.x r.w d.bounds.x d.bounds.w) (shown r.y r.h d.bounds.y d.bounds.h) r.w
        r.h (shown-most r.x r.w d.bounds.x d.bounds.w) (shown-most r.y r.h d.bounds.y d.bounds.h) hw
        hh
        (subst (λ v. enough ≤ℤ area_of v (shown r.y r.h d.bounds.y d.bounds.h) r.w r.h) ex
          (subst (λ v. enough ≤ℤ area_of (overlap r.x r.w d.bounds.x d.bounds.w) v r.w r.h) ey
            seen)) in
    record { across = across; down = down; area = area }

AnyOf-imp :
    {A : Type 0} (P Q : A → Type 0) (R : A → Type 0) (xs : List A)
    → ((x : A) → R x → P x → Q x)
    → All R xs
    → AnyOf P xs
    → AnyOf Q xs
AnyOf-imp P Q R [] f all found = elim found [ ]
AnyOf-imp P Q R (x ∷ xs) f (h, hs) (inl p) = inl (f x h p)
AnyOf-imp P Q R (x ∷ xs) f (h, hs) (inr ps) = inr (AnyOf-imp P Q R xs f hs ps)

-- Enough visible area is a rectangle that is seen on one of the displays.
pub visible_area-IsSeen :
    (r : Rect) (ds : List Display)
    → IsNear r
    → All (λ d. IsNear d.bounds) ds
    → enough ≤ℤ visible_area r ds
    → AnyOf (IsSeen r) ds
unfolding visible_area
visible_area-IsSeen r ds near all h = elim (best_area-attained r (pos 0) ds h) [
  | inl little ↦ absurd (omega (arith, little))
  | inr found ↦
      AnyOf-imp (λ d. enough ≤ℤ area_on r d) (IsSeen r) (λ d. IsNear d.bounds) ds
        (λ d b. area_on-IsSeen r d near b) all found
]
