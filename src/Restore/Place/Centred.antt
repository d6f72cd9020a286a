-- ===== src/Restore/Place/Centred.antt =====
-- A side that is centred on a work area.
use mathlib.Core.Path.{subst}
use session_restore.Common.{ℕ, ◌+◌, ◌≤◌, ◌≡◌, sym, ap, ◌∙◌, arith, if_both}
use session_restore.Common.Int.{
  ℤ, pos, negsuc, pos_part, neg_part, ◌+ℤ◌, ◌-ℤ◌, ◌≤ℤ◌, ltb_ℤ, min_ℤ, max_ℤ, half, +ℤ_parts,
  -ℤ_parts,
}
use session_restore.Restore.Place.{add32, sub32, overlap}
use session_restore.Restore.Place.Numbers.{
  IsWithin, add32-exact, sub32-exact, overlap-exact, half_pos, covered, +ℤ-IsWithin, -ℤ-IsWithin,
  margin,
}

wide : (limit : ℕ) (v : ℤ) → 32767 ≤ limit → IsWithin 32767 v → IsWithin limit v
wide limit v l h = (omega (arith, h.0), omega (arith, h.1))

-- The margin and the first m of the side fit into the work area.
margin_fits :
    (m : ℕ) (tw w v : ℤ)
    → pos m ≤ℤ w
    → pos m ≤ℤ tw
    → pos_part v + neg_part tw + pos_part w ≡ neg_part v + pos_part tw + neg_part w
    → (half (max_ℤ v (pos 0)) +ℤ pos m) ≤ℤ tw
margin_fits m tw w (pos n) hw ht parts =
    omega (arith, +ℤ_parts (half (max_ℤ (pos n) (pos 0))) (pos m), half_pos (pos n), parts)
margin_fits m tw w (negsuc n) hw ht parts =
    omega (arith, +ℤ_parts (half (max_ℤ (negsuc n) (pos 0))) (pos m), half_pos (negsuc n))

pub margin-IsWithin :
    (tw w : ℤ) → IsWithin 32767 tw → IsWithin 32767 w → IsWithin 65534 (margin tw w)
margin-IsWithin tw w h k =
    let v = -ℤ-IsWithin 32767 32767 tw w h k in
    (omega (arith, half_pos (tw -ℤ w), v.0), omega (arith, half_pos (tw -ℤ w)))

pub centred-exact :
    (t tw w : ℤ)
    → IsWithin 32767 t
    → IsWithin 32767 tw
    → IsWithin 32767 w
    → add32 t (half (max_ℤ (sub32 tw w) (pos 0))) ≡ t +ℤ margin tw w
centred-exact t tw w ht htw hw =
    ap (λ v. add32 t (half (max_ℤ v (pos 0))))
      (sub32-exact tw w (wide 200000 tw (omega arith) htw) (wide 200000 w (omega arith) hw))
    ∙ add32-exact t (margin tw w) (wide 100000 t (omega arith) ht)
        (let g = margin-IsWithin tw w htw hw in (omega (arith, g.0), omega (arith, g.1)))

-- The same where the side starts at the margin, without the wrapping.
margin-seen :
    (m : ℕ) (t tw b bw w : ℤ)
    → IsWithin 32767 t
    → IsWithin 32767 tw
    → IsWithin 32767 b
    → IsWithin 32767 bw
    → IsWithin 32767 w
    → pos m ≤ℤ w
    → pos m ≤ℤ tw
    → b ≤ℤ t
    → (t +ℤ tw) ≤ℤ (b +ℤ bw)
    → pos m ≤ℤ min_ℤ (overlap (t +ℤ margin tw w) w b bw) w
margin-seen m t tw b bw w ht htw hb hbw hw seen room low high =
    let g = margin tw w in
    let x = t +ℤ g in
    let within = +ℤ-IsWithin 32767 65534 t g ht (margin-IsWithin tw w htw hw) in
    let fits = margin_fits m tw w (tw -ℤ w) seen room (-ℤ_parts tw w) in
    if_both (λ v. pos m ≤ℤ v) (ltb_ℤ w (overlap x w b bw)) w (overlap x w b bw) seen
      (subst (λ v. pos m ≤ℤ v)
        (sym (
          overlap-exact x w b bw (omega (arith, within.0), omega (arith, within.1))
            (wide 100000 w (omega arith) hw) (wide 100000 b (omega arith) hb)
            (wide 100000 bw (omega arith) hbw)))
        (covered m x w b bw seen (omega (arith, +ℤ_parts t g, half_pos (tw -ℤ w))) (
          omega
            (arith, +ℤ_parts t g, +ℤ_parts x (pos m), +ℤ_parts g (pos m), +ℤ_parts t tw, fits))))

pub centred-seen :
    (m : ℕ) (t tw b bw w : ℤ)
    → IsWithin 32767 t
    → IsWithin 32767 tw
    → IsWithin 32767 b
    → IsWithin 32767 bw
    → IsWithin 32767 w
    → pos m ≤ℤ w
    → pos m ≤ℤ tw
    → b ≤ℤ t
    → (t +ℤ tw) ≤ℤ (b +ℤ bw)
    → pos m ≤ℤ min_ℤ (overlap (add32 t (half (max_ℤ (sub32 tw w) (pos 0)))) w b bw) w
centred-seen m t tw b bw w ht htw hb hbw hw seen room low high =
    subst (λ x. pos m ≤ℤ min_ℤ (overlap x w b bw) w) (sym (centred-exact t tw w ht htw hw))
      (margin-seen m t tw b bw w ht htw hb hbw hw seen room low high)
