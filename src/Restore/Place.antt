-- ===== src/Restore/Place.antt =====
-- Where a window goes on the displays of today: agent/crates/sr-agent/src/restore/place.rs, and
-- `Display` of watcher/displays.rs. A coordinate is an i32 and wraps around.
use session_restore.Common.{
  ℕ, ◌*◌, ◌==◌, ℕ_eq, String_eq, String, Bool, true, false, not, ◌&&◌, Option, none, some, List, [],
  ◌∷◌, find, if◌then◌else◌,
}
use session_restore.Common.Int.{
  ℤ, pos, ◌+ℤ◌, ◌-ℤ◌, ◌*ℤ◌, ltb_ℤ, leb_ℤ, min_ℤ, max_ℤ, clamp, wrap, half,
}
pub mod Numbers
pub mod Centred
pub mod Seen
pub mod Area
pub mod Near
pub mod Same
pub mod Reachable

pub record Rect : Type 0 where
  pub x : ℤ
  pub y : ℤ
  pub w : ℤ
  pub h : ℤ

pub record Display : Type 0 where
  pub key : String
  pub friendly_name : Option String
  pub is_primary : Bool
  pub bounds : Rect
  pub work : Rect
  pub dpi : ℕ

abbrev pub min_visible_w : ℤ
min_visible_w = pos 120

abbrev pub min_visible_h : ℤ
min_visible_h = pos 40

pub record StoredPlacement : Type 0 where
  pub rect : Rect
  pub display_key : Option String
  pub dpi : ℕ

abbrev pub add32 : ℤ → ℤ → ℤ
add32 a b = wrap 32 (a +ℤ b)

abbrev pub sub32 : ℤ → ℤ → ℤ
sub32 a b = wrap 32 (a -ℤ b)

abbrev pub mul32 : ℤ → ℤ → ℤ
mul32 a b = wrap 32 (a *ℤ b)

-- `min_visible_w * min_visible_h`
abbrev pub enough : ℤ
enough = pos 4800

-- How much of one side lies on a display.
unfoldable pub overlap : ℤ → ℤ → ℤ → ℤ → ℤ
overlap x w dx dw = sub32 (min_ℤ (add32 x w) (add32 dx dw)) (max_ℤ x dx)

unfoldable pub area_on : Rect → Display → ℤ
area_on r d =
    let ox = overlap r.x r.w d.bounds.x d.bounds.w in
    let oy = overlap r.y r.h d.bounds.y d.bounds.h in
    if ltb_ℤ (pos 0) ox && ltb_ℤ (pos 0) oy then mul32 (min_ℤ ox r.w) (min_ℤ oy r.h) else pos 0

-- The largest of the areas, and of what was found before.
unfoldable pub best_area : Rect → ℤ → List Display → ℤ
best_area r best [] = best
best_area r best (d ∷ ds) = best_area r (max_ℤ best (area_on r d)) ds

unfoldable pub visible_area : Rect → List Display → ℤ
visible_area r displays = best_area r (pos 0) displays

-- The square of the distance of the centres, an i64.
unfoldable pub distance : Rect → Display → ℤ
distance r d =
    let ddx = sub32 (add32 d.bounds.x (half d.bounds.w)) (add32 r.x (half r.w)) in
    let ddy = sub32 (add32 d.bounds.y (half d.bounds.h)) (add32 r.y (half r.h)) in
    wrap 64 ((ddx *ℤ ddx) +ℤ (ddy *ℤ ddy))

abbrev pub nearer : Rect → Display → Display → Display
nearer r e d = if ltb_ℤ (distance r e) (distance r d) then e else d

-- `min_by_key`, the first of the smallest.
unfoldable pub nearest_display : Rect → Display → List Display → Display
nearest_display r d [] = d
nearest_display r d (e ∷ ds) = nearest_display r (nearer r e d) ds

-- The work area, an i64.
unfoldable pub work_area : Display → ℤ
work_area d = d.work.w *ℤ d.work.h

abbrev pub larger : Display → Display → Display
larger e d = if ltb_ℤ (work_area e) (work_area d) then d else e

-- `max_by_key` of the work areas, the last of the largest.
unfoldable pub biggest_display : Display → List Display → Display
biggest_display d [] = d
biggest_display d (e ∷ ds) = biggest_display (larger e d) ds

unfoldable pub shrink : Rect → Rect → Rect
shrink work r = record r { w = min_ℤ r.w work.w; h = min_ℤ r.h work.h }

unfoldable pub move_onto : Rect → Rect → Rect
move_onto work r = record r {
  x = clamp r.x work.x (max_ℤ (sub32 (add32 work.x work.w) min_visible_w) work.x);
  y = clamp r.y work.y (max_ℤ (sub32 (add32 work.y work.h) min_visible_h) work.y);
}

unfoldable pub centre : Rect → Rect → Rect
centre work r = record r {
  x = add32 work.x (half (max_ℤ (sub32 work.w r.w) (pos 0)));
  y = add32 work.y (half (max_ℤ (sub32 work.h r.h) (pos 0)));
}

-- Where `r`, of the final size, is not reachable.
unfoldable pub bring_back : Rect → Rect → List Display → Rect
bring_back work r displays =
    let moved = move_onto work r in
    if ltb_ℤ (visible_area moved displays) enough then centre work moved else moved

-- Nudges a rectangle until enough of it is reachable.
unfoldable pub clamp_on_screen : Rect → List Display → Rect
clamp_on_screen r [] = r
clamp_on_screen r (d ∷ ds) =
    let small = shrink (biggest_display d ds).work r in
    if leb_ℤ enough (visible_area small (d ∷ ds))
    then small
    else bring_back (nearest_display small d ds).work small (d ∷ ds)

-- Doubles, as the machine computes with them; `to_int` is `as i32`.
pub record Doubles : Type 1 where
  pub Double : Type 0
  pub one : Double
  pub from_int : ℤ → Double
  pub divide : Double → Double → Double
  pub times : Double → Double → Double
  pub smaller : Double → Double → Double
  pub to_int : Double → ℤ

abbrev primary_or_first : List Display → Option Display → Option Display
primary_or_first [] none = none
primary_or_first (d ∷ _) none = some d
primary_or_first _ (some d) = some d

abbrev pub target_or : List Display → Option Display → Option Display
target_or current (some d) = some d
target_or current none = primary_or_first current (find (λ d. d.is_primary) current)

abbrev pub keyed : List Display → Option String → Option Display
keyed current none = none
keyed current (some k) = find (λ d. d.key == k) current

unfoldable pub pick_target : StoredPlacement → List Display → Option Display
pick_target stored current = target_or current (keyed current stored.display_key)

abbrev pub is_same : Option String → Display → Bool
is_same none d = false
is_same (some k) d = k == d.key

-- The size of the window over the size of the work area, at most 1.
unfoldable pub fitted : Doubles → Rect → Rect → Rect
fitted f work r =
    let scale_w = f.divide (f.from_int work.w) (f.from_int (max_ℤ r.w (pos 1))) in
    let scale_h = f.divide (f.from_int work.h) (f.from_int (max_ℤ r.h (pos 1))) in
    let scale = f.smaller (f.smaller scale_w scale_h) f.one in
    let w = f.to_int (f.times (f.from_int r.w) scale) in
    let h = f.to_int (f.times (f.from_int r.h) scale) in
    record {
      x = add32 work.x (half (sub32 work.w w));
      y = add32 work.y (half (sub32 work.h h));
      w = w;
      h = h;
    }

unfoldable pub rescaled : Doubles → ℕ → ℕ → Rect → Rect
rescaled f from to r =
    let ratio = f.divide (f.from_int (pos to)) (f.from_int (pos from)) in
    if not (from == 0) && (not (to == 0) && not (from == to))
    then record r {
      w = f.to_int (f.times (f.from_int r.w) ratio);
      h = f.to_int (f.times (f.from_int r.h) ratio);
    }
    else r

abbrev pub unclamped : Doubles → StoredPlacement → Display → Rect
unclamped f stored d =
    rescaled f stored.dpi d.dpi
      (if is_same stored.display_key d then stored.rect else fitted f d.work stored.rect)

abbrev pub placed_on : Doubles → StoredPlacement → List Display → Option Display → Rect
placed_on f stored current none = stored.rect
placed_on f stored current (some d) = clamp_on_screen (unclamped f stored d) current

-- Where a stored window goes on the current displays.
unfoldable pub map_to_current : Doubles → StoredPlacement → List Display → Rect
map_to_current f stored current = placed_on f stored current (pick_target stored current)
