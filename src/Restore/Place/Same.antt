-- ===== src/Restore/Place/Same.antt =====
-- A layout that has not changed.
use mathlib.Core.Path.{subst}
use session_restore.Common.{
  ℕ, ◌≡◌, refl, ap, ◌∙◌, String, Bool, true, Option, none, some, List, [], ◌∷◌, ◌==◌, String_eq,
  ℕ_eq, find, arith, if◌then◌else◌, inl, inr, Bool-cases, ==_comm,
}
use session_restore.Common.Int.{ℤ, ◌≤ℤ◌, leb_ℤ, min_ℤ}
use session_restore.Restore.Place.{
  Rect, Display, StoredPlacement, Doubles, visible_area, biggest_display, shrink, clamp_on_screen,
  enough, pick_target, is_same, rescaled, fitted, placed_on, target_or, keyed, map_to_current,
}

abbrev Passes {ℓ} : {A : Type ℓ} → (A → Bool) → Option A → Type 0
Passes p none = Unit
Passes p (some x) = p x ≡ true

-- What is found passes the test.
find-Passes {ℓ} : {A : Type ℓ} (p : A → Bool) (xs : List A) → Passes p (find p xs)
unfolding find
find-Passes p [] = tt
find-Passes p (x ∷ xs) = elim (Bool-cases (p x)) [
  | inl e ↦ rw e e
  | inr e ↦ rw e (find-Passes p xs)
]

leb_of_≤ℤ : (a b : ℤ) → a ≤ℤ b → leb_ℤ a b ≡ true
leb_of_≤ℤ a b h = ground arith

min_left_of : (a b : ℤ) → a ≤ℤ b → min_ℤ a b ≡ a
min_left_of a b h = ground arith

-- A window that fits the largest work area and of which enough is seen stays as it is.
pub clamp_on_screen_seen :
    (r : Rect) (d : Display) (ds : List Display)
    → r.w ≤ℤ (biggest_display d ds).work.w
    → r.h ≤ℤ (biggest_display d ds).work.h
    → enough ≤ℤ visible_area r (d ∷ ds)
    → clamp_on_screen r (d ∷ ds) ≡ r
unfolding clamp_on_screen shrink
clamp_on_screen_seen r d ds w h seen =
    rw (min_left_of r.w _ w, min_left_of r.h _ h)
      (rw (leb_of_≤ℤ enough (visible_area r (d ∷ ds)) seen) refl)

rescaled_same : (f : Doubles) (from to : ℕ) (r : Rect) → from ≡ to → rescaled f from to r ≡ r
unfolding rescaled
rescaled_same f from to r h = ground arith

-- On the displays it was captured on, with the same resolution, a window of which enough is seen
-- and that fits the largest work area goes exactly where it was.
pub map_to_current_same :
    (f : Doubles) (stored : StoredPlacement) (k : String) (target d : Display) (ds : List Display)
    → stored.display_key ≡ some k
    → find (λ e. e.key == k) (d ∷ ds) ≡ some target
    → stored.dpi ≡ target.dpi
    → stored.rect.w ≤ℤ (biggest_display d ds).work.w
    → stored.rect.h ≤ℤ (biggest_display d ds).work.h
    → enough ≤ℤ visible_area stored.rect (d ∷ ds)
    → map_to_current f stored (d ∷ ds) ≡ stored.rect
unfolding map_to_current pick_target
map_to_current_same f stored k target d ds key found same w h seen =
    let passes = subst (Passes (λ e. e.key == k)) found (find-Passes (λ e. e.key == k) (d ∷ ds)) in
    let is_same_true = ap (λ o. is_same o target) key ∙ ==_comm k target.key ∙ passes in
    ap (λ o. placed_on f stored (d ∷ ds) (target_or (d ∷ ds) (keyed (d ∷ ds) o))) key
    ∙ ap (λ o. placed_on f stored (d ∷ ds) (target_or (d ∷ ds) o)) found
    ∙ ap
        (λ b.
          clamp_on_screen
            (rescaled f stored.dpi target.dpi
              (if b then stored.rect else fitted f target.work stored.rect))
            (d ∷ ds))
        is_same_true
    ∙ ap (λ r. clamp_on_screen r (d ∷ ds)) (rescaled_same f stored.dpi target.dpi stored.rect same)
    ∙ clamp_on_screen_seen stored.rect d ds w h seen
