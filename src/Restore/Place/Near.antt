-- ===== src/Restore/Place/Near.antt =====
-- The coordinates that a window is moved to are those of a screen (`clamp_on_screen`).
use session_restore.Common.{ℕ, ◌≤◌, ◌≡◌, ap, ◌∙◌, List, arith, if_both}
use session_restore.Common.Int.{ℤ, pos, ◌+ℤ◌, ltb_ℤ, max_ℤ, clamp, half, ◌-ℤ◌}
use session_restore.Restore.Place.{
  Rect, Display, add32, sub32, visible_area, move_onto, centre, bring_back, enough,
}
use session_restore.Restore.Place.Numbers.{
  IsWithin, add32-exact, sub32-exact, +ℤ-IsWithin, -ℤ-IsWithin, margin,
}
use session_restore.Restore.Place.Centred.{centred-exact, margin-IsWithin}
use session_restore.Restore.Place.Seen.{IsNear}

abbrev pub IsFar : Rect → Type 0
IsFar r = IsWithin 32767 r.x × IsWithin 32767 r.y × IsWithin 32767 r.w × IsWithin 32767 r.h

-- Where a side is put by clamping it.
clamped-IsWithin :
    (m : ℕ) (v t tw : ℤ)
    → m ≤ 120
    → IsWithin 100000 v
    → IsWithin 32767 t
    → IsWithin 32767 tw
    → IsWithin 100000 (clamp v t (max_ℤ (sub32 (add32 t tw) (pos m)) t))
clamped-IsWithin m v t tw small hv ht htw =
    let start : IsWithin 100000 t = (omega (arith, ht.0), omega (arith, ht.1)) in
    let end = +ℤ-IsWithin 32767 32767 t tw ht htw in
    let least = -ℤ-IsWithin 65534 m (t +ℤ tw) (pos m) end (omega arith, omega arith) in
    let exact : sub32 (add32 t tw) (pos m) ≡ (t +ℤ tw) -ℤ pos m =
      ap (λ e. sub32 e (pos m))
        (add32-exact t tw start (omega (arith, htw.0), omega (arith, htw.1)))
      ∙ sub32-exact (t +ℤ tw) (pos m) (omega (arith, end.0), omega (arith, end.1))
          (omega arith, omega arith) in
    if_both (IsWithin 100000) (ltb_ℤ v t) _ _ start (
      if_both (IsWithin 100000) (ltb_ℤ (max_ℤ (sub32 (add32 t tw) (pos m)) t) v) _ _
        (if_both (IsWithin 100000) (ltb_ℤ t (sub32 (add32 t tw) (pos m))) _ _
          (rw exact (omega (arith, least.0), omega (arith, least.1))) start)
        hv)

centred-IsWithin :
    (t tw w : ℤ)
    → IsWithin 32767 t
    → IsWithin 32767 tw
    → IsWithin 32767 w
    → IsWithin 100000 (add32 t (half (max_ℤ (sub32 tw w) (pos 0))))
centred-IsWithin t tw w ht htw hw =
    let within = +ℤ-IsWithin 32767 65534 t (margin tw w) ht (margin-IsWithin tw w htw hw) in
    rw (centred-exact t tw w ht htw hw) (omega (arith, within.0), omega (arith, within.1))

pub bring_back-IsNear :
    (work r : Rect) (displays : List Display)
    → IsFar work
    → IsNear r
    → IsNear (bring_back work r displays)
unfolding bring_back move_onto centre
bring_back-IsNear work r displays far near =
    if_both IsNear (ltb_ℤ (visible_area (move_onto work r) displays) enough)
      (centre work (move_onto work r)) (move_onto work r)
      (
        centred-IsWithin work.x work.w r.w far.0 far.2 near.2,
        centred-IsWithin work.y work.h r.h far.1 far.3 near.3,
        near.2,
        near.3,
      )
      (
        clamped-IsWithin 120 r.x work.x work.w (omega arith) near.0 far.0 far.2,
        clamped-IsWithin 40 r.y work.y work.h (omega arith) near.1 far.1 far.3,
        near.2,
        near.3,
      )
