-- ===== src/Tests/Windows.antt =====
-- The placing of windows, and the events that windows raise.
use session_restore.Common.{
  ℕ, ◌≡◌, refl, true, false, none, some, List, [], ◌∷◌, arith, find, All, String_eq,
}
use session_restore.Common.Int.{pos, negsuc, wrap, ◌+ℤ◌, ◌-ℤ◌, ◌*ℤ◌}
use session_restore.Watcher.Events.{debounce, idle}
use session_restore.Watcher.Events.Answered.{IsAnswered, always, debounce-IsAnswered}
use session_restore.Watcher.Events.Apart.{IsApart, debounce-IsApart}
use session_restore.Restore.Place.{
  Rect, Display, StoredPlacement, Doubles, visible_area, best_area, area_on, overlap,
  biggest_display, work_area, nearest_display, distance, shrink, bring_back, move_onto, centre,
  clamp_on_screen, map_to_current,
}
use session_restore.Restore.Place.Reachable.{IsUsable, clamp_on_screen-reachable}
use session_restore.Restore.Place.Seen.{AnyOf, IsSeen}
use session_restore.Restore.Place.Same.{map_to_current_same}

abbrev at : ℕ → ℕ → ℕ → ℕ → Rect
at x y w h = record { x = pos x; y = pos y; w = pos w; h = pos h }

abbrev laptop : Display
laptop = record {
  key = "laptop";
  friendly_name = none;
  is_primary = true;
  bounds = at 0 0 1920 1080;
  work = at 0 0 1920 1040;
  dpi = 96;
}

abbrev wall : Display
wall = record {
  key = "wall";
  friendly_name = some "4K";
  is_primary = false;
  bounds = at 1920 0 3840 2160;
  work = at 1920 0 3840 2120;
  dpi = 96;
}

-- Far to the left of every display.
abbrev lost : Rect
lost = record { x = negsuc 2999; y = pos 200; w = pos 800; h = pos 600 }

laptop-IsUsable : IsUsable laptop
unfolding ◌+ℤ◌
laptop-IsUsable = record {
  bounds = (
    (omega arith, omega arith),
    (omega arith, omega arith),
    (omega arith, omega arith),
    (omega arith, omega arith),
  );
  work = (
    (omega arith, omega arith),
    (omega arith, omega arith),
    (omega arith, omega arith),
    (omega arith, omega arith),
  );
  room_w = omega arith;
  room_h = omega arith;
  left = omega arith;
  right = omega arith;
  top = omega arith;
  bottom = omega arith;
}

wall-IsUsable : IsUsable wall
unfolding ◌+ℤ◌
wall-IsUsable = record {
  bounds = (
    (omega arith, omega arith),
    (omega arith, omega arith),
    (omega arith, omega arith),
    (omega arith, omega arith),
  );
  work = (
    (omega arith, omega arith),
    (omega arith, omega arith),
    (omega arith, omega arith),
    (omega arith, omega arith),
  );
  room_w = omega arith;
  room_h = omega arith;
  left = omega arith;
  right = omega arith;
  top = omega arith;
  bottom = omega arith;
}

-- The lost window is put at the left edge of the nearest display.
clamp_on_screen-lost : clamp_on_screen lost (laptop ∷ wall ∷ []) ≡ at 0 200 800 600
unfolding clamp_on_screen visible_area best_area area_on overlap biggest_display work_area
    nearest_display distance shrink bring_back move_onto centre wrap ◌+ℤ◌ ◌-ℤ◌ ◌*ℤ◌
clamp_on_screen-lost = refl

clamp_on_screen-reachable_example :
    AnyOf (IsSeen (clamp_on_screen lost (laptop ∷ wall ∷ []))) (laptop ∷ wall ∷ [])
clamp_on_screen-reachable_example =
    clamp_on_screen-reachable lost laptop (wall ∷ []) (laptop-IsUsable, (wall-IsUsable, tt))
      (omega arith, omega arith) (omega arith, omega arith) (omega arith) (omega arith)

-- A window far beyond every display, the sum of whose sides wraps around, stays where it is.
abbrev beyond : Rect
beyond = at 2147483647 200 800 600

clamp_on_screen_wraps : clamp_on_screen beyond (laptop ∷ []) ≡ beyond
unfolding clamp_on_screen visible_area best_area area_on overlap biggest_display work_area
    nearest_display distance shrink bring_back move_onto centre wrap ◌+ℤ◌ ◌-ℤ◌ ◌*ℤ◌
clamp_on_screen_wraps = refl

-- Numbers that stand in for doubles.
abbrev whole : Doubles
whole = record {
  Double = ℕ;
  one = 1;
  from_int = λ v. 0;
  divide = λ a b. a;
  times = λ a b. a;
  smaller = λ a b. a;
  to_int = λ a. pos a;
}

abbrev on_the_wall : StoredPlacement
on_the_wall = record { rect = at 2000 100 1000 800; display_key = some "wall"; dpi = 96 }

map_to_current_same_example :
    map_to_current whole on_the_wall (laptop ∷ wall ∷ []) ≡ at 2000 100 1000 800
map_to_current_same_example =
    map_to_current_same whole on_the_wall "wall" wall laptop (wall ∷ []) refl (unfold find in refl)
      refl (unfold biggest_display work_area ◌*ℤ◌ in omega arith)
      (unfold biggest_display work_area ◌*ℤ◌ in omega arith)
      (unfold visible_area best_area area_on overlap wrap ◌+ℤ◌ ◌-ℤ◌ ◌*ℤ◌ in omega arith)

-- A drag: events all the time, and one more when it is over.
abbrev drag : List ℕ
drag = 100 ∷ 1500 ∷ 3000 ∷ 4900 ∷ 6800 ∷ 8700 ∷ 10600 ∷ 20000 ∷ []

debounce-drag : debounce always true (idle 0) drag ≡ 10600 ∷ 22000 ∷ []
unfolding debounce
debounce-drag = refl

debounce-IsAnswered_example : All (IsAnswered (debounce always true (idle 0) drag)) drag
debounce-IsAnswered_example = debounce-IsAnswered 0 drag (
  omega arith,
  (
    omega arith,
    (omega arith, (omega arith, (omega arith, (omega arith, (omega arith, (omega arith, tt)))))),
  ),
)

debounce-IsApart_example : IsApart 0 (debounce always true (idle 0) drag)
debounce-IsApart_example = debounce-IsApart always true 0 drag
