-- ===== src/Restore/Place/Numbers.antt =====
-- Coordinates that are far from the limits of an i32: their sums do not wrap.
use session_restore.Common.{ℕ, suc, ◌+◌, ◌-◌, ◌*◌, ◌^◌, ◌≤◌, ◌≡◌, true, arith, if_both}
use session_restore.Common.Int.{
  ℤ, pos, negsuc, pos_part, neg_part, ◌+ℤ◌, ◌-ℤ◌, ◌≤ℤ◌, ltb_ℤ, min_ℤ, max_ℤ, half, wrap, +ℤ_parts,
  -ℤ_parts,
}
use session_restore.Restore.Place.{add32, sub32, overlap}

-- From -limit to limit.
abbrev pub IsWithin : ℕ → ℤ → Type 0
IsWithin limit v = (pos_part v ≤ limit) × (neg_part v ≤ limit)

pub wrap-small : (v : ℤ) → IsWithin (2 ^ 31 - 1) v → wrap 32 v ≡ v
unfolding wrap
wrap-small (pos n) h = ground (arith, h.0)
wrap-small (negsuc n) h = ground (arith, h.1)

pub +ℤ-IsWithin : (j k : ℕ) (a b : ℤ) → IsWithin j a → IsWithin k b → IsWithin (j + k) (a +ℤ b)
unfolding ◌+ℤ◌
+ℤ-IsWithin j k a b (h, i) (h', i') = (ground arith, ground arith)

pub -ℤ-IsWithin : (j k : ℕ) (a b : ℤ) → IsWithin j a → IsWithin k b → IsWithin (j + k) (a -ℤ b)
unfolding ◌-ℤ◌
-ℤ-IsWithin j k a b (h, i) (h', i') = (ground arith, ground arith)

pub add32-exact : (a b : ℤ) → IsWithin 100000 a → IsWithin 100000 b → add32 a b ≡ a +ℤ b
add32-exact a b h k =
    let wide = +ℤ-IsWithin 100000 100000 a b h k in
    wrap-small (a +ℤ b) (omega (arith, wide.0), omega (arith, wide.1))

pub sub32-exact : (a b : ℤ) → IsWithin 200000 a → IsWithin 200000 b → sub32 a b ≡ a -ℤ b
sub32-exact a b h k =
    let wide = -ℤ-IsWithin 200000 200000 a b h k in
    wrap-small (a -ℤ b) (omega (arith, wide.0), omega (arith, wide.1))

wider : (v : ℤ) → IsWithin 100000 v → IsWithin 200000 v
wider v h = (omega (arith, h.0), omega (arith, h.1))

-- The part of one side that lies on a display, without the wrapping.
pub overlap-exact :
    (x w dx dw : ℤ)
    → IsWithin 100000 x
    → IsWithin 100000 w
    → IsWithin 100000 dx
    → IsWithin 100000 dw
    → overlap x w dx dw ≡ min_ℤ (x +ℤ w) (dx +ℤ dw) -ℤ max_ℤ x dx
unfolding overlap
overlap-exact x w dx dw hx hw hd hv =
    rw (add32-exact x w hx hw, add32-exact dx dw hd hv)
      (sub32-exact (min_ℤ (x +ℤ w) (dx +ℤ dw)) (max_ℤ x dx)
        (if_both (IsWithin 200000) (ltb_ℤ (dx +ℤ dw) (x +ℤ w)) _ _
          (+ℤ-IsWithin 100000 100000 dx dw hd hv) (+ℤ-IsWithin 100000 100000 x w hx hw))
        (if_both (IsWithin 200000) (ltb_ℤ dx x) _ _ (wider x hx) (wider dx hd)))

-- The room beside a side of length w within one of length tw, halved.
abbrev pub margin : ℤ → ℤ → ℤ
margin tw w = half (max_ℤ (tw -ℤ w) (pos 0))

pub half_pos :
    (v : ℤ)
    → (neg_part (half (max_ℤ v (pos 0))) ≡ 0) × (pos_part (half (max_ℤ v (pos 0))) * 2 ≤ pos_part v)
half_pos (pos n) = ground arith
half_pos (negsuc n) = ground arith

at_most_sub :
    (m : ℕ) (p q : ℤ) → pos_part q + m + neg_part p ≤ pos_part p + neg_part q → pos m ≤ℤ p -ℤ q
at_most_sub m p q h = omega (arith, -ℤ_parts p q)

-- A side that starts on the other and has its first m there: that much is covered.
pub covered :
    (m : ℕ) (x w b bw : ℤ)
    → pos m ≤ℤ w
    → b ≤ℤ x
    → (x +ℤ pos m) ≤ℤ (b +ℤ bw)
    → pos m ≤ℤ min_ℤ (x +ℤ w) (b +ℤ bw) -ℤ max_ℤ x b
covered m x w b bw hw hb he =
    if_both (λ p. pos m ≤ℤ p -ℤ max_ℤ x b) (ltb_ℤ (b +ℤ bw) (x +ℤ w)) _ _
      (if_both (λ q. pos m ≤ℤ (b +ℤ bw) -ℤ q) (ltb_ℤ b x) _ _
        (at_most_sub m (b +ℤ bw) x (omega (arith, +ℤ_parts x (pos m))))
        (at_most_sub m (b +ℤ bw) b (omega (arith, +ℤ_parts x (pos m)))))
      (if_both (λ q. pos m ≤ℤ (x +ℤ w) -ℤ q) (ltb_ℤ b x) _ _
        (at_most_sub m (x +ℤ w) x (omega (arith, +ℤ_parts x w)))
        (at_most_sub m (x +ℤ w) b (omega (arith, +ℤ_parts x w))))

pub ≤ℤ-trans : (a b c : ℤ) → a ≤ℤ b → b ≤ℤ c → a ≤ℤ c
≤ℤ-trans a b c h k = omega arith

pub max_left : (a b : ℤ) → a ≤ℤ max_ℤ a b
max_left a b = ground arith

pub max_right : (a b : ℤ) → b ≤ℤ max_ℤ a b
max_right a b = ground arith

pub min_left : (a b : ℤ) → min_ℤ a b ≤ℤ a
min_left a b = ground arith

pub min_right : (a b : ℤ) → min_ℤ a b ≤ℤ b
min_right a b = ground arith

-- Between a number and one that is within a limit.
pub IsWithin-between :
    (m limit : ℕ) (a b : ℤ) → pos m ≤ℤ a → a ≤ℤ b → IsWithin limit b → IsWithin limit a
IsWithin-between m limit (pos n) b h k i = (omega (arith, i.0), omega arith)
IsWithin-between m limit (negsuc n) b h k i = omega arith

pub min-positive : (m : ℕ) (a b : ℤ) → pos (suc m) ≤ℤ min_ℤ a b → ltb_ℤ (pos 0) a ≡ true
min-positive m a b h = ground arith
