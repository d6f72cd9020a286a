-- ===== src/Restore/Place/Reachable.antt =====
-- A window can be reached after it was brought back.
use session_restore.Restore.Place.Area.{area_on-enough, best_area-All}
use session_restore.Restore.Place.Near.{IsFar, bring_back-IsNear}
use session_restore.Common.{
  List, [], ◌∷◌, All, All-both, All-imp, arith, if_both, inl, inr, Bool-cases,
}
use session_restore.Common.Int.{pos, ◌+ℤ◌, ◌≤ℤ◌, ltb_ℤ, leb_ℤ}
use session_restore.Restore.Place.{
  Rect, Display, area_on, visible_area, distance, nearer, larger, work_area, nearest_display,
  biggest_display, shrink, move_onto, centre, bring_back, clamp_on_screen, enough,
}
use session_restore.Restore.Place.Numbers.{IsWithin, ≤ℤ-trans, min_right, IsWithin-between}
use session_restore.Restore.Place.Centred.{centred-seen}
use session_restore.Restore.Place.Seen.{IsNear, IsSeen, AnyOf, visible_area-IsSeen}

-- What holds of every display holds of the one that is chosen.
module _ {ℓ} (P : Display → Type ℓ) where
  nearest_display-All :
      (r : Rect) (ds : List Display) (d : Display) → P d → All P ds → P (nearest_display r d ds)
  unfolding nearest_display
  nearest_display-All r [] d h k = h
  nearest_display-All r (e ∷ ds) d h (k, ks) =
      nearest_display-All r ds (nearer r e d)
        (if_both P (ltb_ℤ (distance r e) (distance r d)) e d k h) ks

  biggest_display-All :
      (ds : List Display) (d : Display) → P d → All P ds → P (biggest_display d ds)
  unfolding biggest_display
  biggest_display-All [] d h k = h
  biggest_display-All (e ∷ ds) d h (k, ks) =
      biggest_display-All ds (larger e d) (if_both P (ltb_ℤ (work_area e) (work_area d)) d e h k) ks

-- A display with coordinates as Windows has them, whose work area lies in its bounds and has room
-- for a title bar.
pub record IsUsable (d : Display) : Type 0 where
  pub bounds : IsFar d.bounds
  pub work : IsFar d.work
  pub room_w : pos 120 ≤ℤ d.work.w
  pub room_h : pos 40 ≤ℤ d.work.h
  pub left : d.bounds.x ≤ℤ d.work.x
  pub right : (d.work.x +ℤ d.work.w) ≤ℤ (d.bounds.x +ℤ d.bounds.w)
  pub top : d.bounds.y ≤ℤ d.work.y
  pub bottom : (d.work.y +ℤ d.work.h) ≤ℤ (d.bounds.y +ℤ d.bounds.h)

IsUsable-IsNear : (d : Display) → IsUsable d → IsNear d.bounds
IsUsable-IsNear d u = (
  (omega (arith, u.bounds.0.0), omega (arith, u.bounds.0.1)),
  (omega (arith, u.bounds.1.0), omega (arith, u.bounds.1.1)),
  u.bounds.2,
  u.bounds.3,
)

-- A size that a title bar fits into, and no larger than a work area.
pub record IsSized (r : Rect) : Type 0 where
  pub low_w : pos 120 ≤ℤ r.w
  pub low_h : pos 40 ≤ℤ r.h
  pub far_w : IsWithin 32767 r.w
  pub far_h : IsWithin 32767 r.h

shrink-IsSized :
    (r : Rect) (d : Display)
    → IsUsable d
    → pos 120 ≤ℤ r.w
    → pos 40 ≤ℤ r.h
    → IsSized (shrink d.work r)
unfolding shrink
shrink-IsSized r d u w h =
    let low_w = if_both (λ v. pos 120 ≤ℤ v) (ltb_ℤ d.work.w r.w) d.work.w r.w u.room_w w in
    let low_h = if_both (λ v. pos 40 ≤ℤ v) (ltb_ℤ d.work.h r.h) d.work.h r.h u.room_h h in
    record {
      low_w = low_w;
      low_h = low_h;
      far_w = IsWithin-between 120 32767 _ d.work.w low_w (min_right r.w d.work.w) u.work.2;
      far_h = IsWithin-between 40 32767 _ d.work.h low_h (min_right r.h d.work.h) u.work.3;
    }

-- A window that is centred on a display is seen there.
centre-enough :
    (r : Rect) (d : Display) → IsUsable d → IsSized r → enough ≤ℤ area_on (centre d.work r) d
unfolding centre
centre-enough r d u s =
    area_on-enough (centre d.work r) d
      (centred-seen 120 d.work.x d.work.w d.bounds.x d.bounds.w r.w u.work.0 u.work.2 u.bounds.0
        u.bounds.2 s.far_w s.low_w u.room_w u.left u.right)
      (centred-seen 40 d.work.y d.work.h d.bounds.y d.bounds.h r.h u.work.1 u.work.3 u.bounds.1
        u.bounds.3 s.far_h s.low_h u.room_h u.top u.bottom)
      s.far_w s.far_h

move_onto-IsSized : (work r : Rect) → IsSized r → IsSized (move_onto work r)
unfolding move_onto
move_onto-IsSized work r s = record {
  low_w = s.low_w;
  low_h = s.low_h;
  far_w = s.far_w;
  far_h = s.far_h;
}

-- What holds of each display for every rectangle.
All-forall {ℓ κ} :
    {A : Type ℓ} (P : Rect → A → Type κ) (xs : List A)
    → ((r : Rect) → All (P r) xs)
    → All (λ x. (r : Rect) → P r x) xs
All-forall P [] h = tt
All-forall P (x ∷ xs) h = ((λ r. (h r).0), All-forall P xs (λ r. (h r).1))

-- What is not reachable enough is reachable once it is moved, or centred.
bring_back-enough :
    (r : Rect) (work : Rect) (displays : List Display)
    → enough ≤ℤ visible_area (centre work (move_onto work r)) displays
    → enough ≤ℤ visible_area (bring_back work r displays) displays
unfolding bring_back
bring_back-enough r work displays h =
    elim (Bool-cases (ltb_ℤ (visible_area (move_onto work r) displays) enough)) [
      | inl little ↦ rw little h
      | inr seen ↦ rw seen (ground (arith, seen))
    ]

-- A usable display, the area on which counts.
abbrev IsCounted : List Display → Display → Type 0
IsCounted displays d = IsUsable d × ((r : Rect) → area_on r d ≤ℤ visible_area r displays)

clamp_on_screen-enough :
    (r : Rect) (d : Display) (ds : List Display)
    → All IsUsable (d ∷ ds)
    → pos 120 ≤ℤ r.w
    → pos 40 ≤ℤ r.h
    → enough ≤ℤ visible_area (clamp_on_screen r (d ∷ ds)) (d ∷ ds)
unfolding clamp_on_screen visible_area
clamp_on_screen-enough r d ds (u, us) w h =
    let small = shrink (biggest_display d ds).work r in
    let sized =
      shrink-IsSized r (biggest_display d ds) (biggest_display-All IsUsable ds d u us) w h in
    let near = nearest_display small d ds in
    let (usable, areas) =
      nearest_display-All (IsCounted (d ∷ ds)) small ds d
        (u, λ s. (best_area-All s (pos 0) (d ∷ ds)).0)
        (All-both IsUsable _ ds us (
          All-forall (λ s e. area_on s e ≤ℤ visible_area s (d ∷ ds)) ds
            (λ s. (best_area-All s (pos 0) (d ∷ ds)).1))) in
    let moved = move_onto near.work small in
    let seen =
      ≤ℤ-trans enough (area_on (centre near.work moved) near) _
        (centre-enough moved near usable (move_onto-IsSized near.work small sized))
        (areas (centre near.work moved)) in
    elim (Bool-cases (leb_ℤ enough (visible_area small (d ∷ ds)))) [
      | inl fine ↦ rw fine (ground (arith, fine))
      | inr hidden ↦ rw hidden (bring_back-enough small near.work (d ∷ ds) seen)
    ]

clamp_on_screen-IsNear :
    (r : Rect) (d : Display) (ds : List Display)
    → All IsUsable (d ∷ ds)
    → IsWithin 100000 r.x
    → IsWithin 100000 r.y
    → pos 120 ≤ℤ r.w
    → pos 40 ≤ℤ r.h
    → IsNear (clamp_on_screen r (d ∷ ds))
unfolding clamp_on_screen
clamp_on_screen-IsNear r d ds (u, us) x y w h =
    let small = shrink (biggest_display d ds).work r in
    let sized =
      shrink-IsSized r (biggest_display d ds) (biggest_display-All IsUsable ds d u us) w h in
    let near : IsNear small = unfold shrink in (x, y, sized.far_w, sized.far_h) in
    if_both IsNear (leb_ℤ enough (visible_area small (d ∷ ds))) small _ near (
      bring_back-IsNear (nearest_display small d ds).work small (d ∷ ds)
        (nearest_display-All IsUsable small ds d u us).work near)

-- On displays as Windows has them, a window with room for a title bar, whose corner lies within
-- 100000 pixels of the origin, ends where a rectangle of it is on one of the displays that has an
-- area of 4800 pixels at least, which is what 120 by 40 pixels have. The area is one of unbounded
-- integers, in which nothing wraps around.
pub clamp_on_screen-reachable :
    (r : Rect) (d : Display) (ds : List Display)
    → All IsUsable (d ∷ ds)
    → IsWithin 100000 r.x
    → IsWithin 100000 r.y
    → pos 120 ≤ℤ r.w
    → pos 40 ≤ℤ r.h
    → AnyOf (IsSeen (clamp_on_screen r (d ∷ ds))) (d ∷ ds)
clamp_on_screen-reachable r d ds usable x y w h =
    visible_area-IsSeen (clamp_on_screen r (d ∷ ds)) (d ∷ ds)
      (clamp_on_screen-IsNear r d ds usable x y w h)
      (All-imp _ _ (d ∷ ds) (λ e u. IsUsable-IsNear e u) usable)
      (clamp_on_screen-enough r d ds usable w h)
