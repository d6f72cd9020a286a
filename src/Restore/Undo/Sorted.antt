-- ===== src/Restore/Undo/Sorted.antt =====
-- The order of the URLs that an undo offers (`sort_urls`), and how often each is among them.
use Prim.Native.String
use Prim.Native.Nat.{compare as compare_ℕ, Ordering}
use Prim.Native.Char.{code}
use text.Mathlib.Text.{is_lt}
use session_restore.Common.{
  ℕ, ◌≡◌, refl, ap, ◌∙◌, sym, String, true, false, List, [], ◌∷◌, arith, ◌==◌, ℕ_eq, String_eq,
  select, length, ltb, Bool-cases, inl, inr,
}
use session_restore.Restore.Undo.{insert_url, sort_urls}

-- Not before the first of the texts that follow.
abbrev pub IsFirst : String → List String → Type 0
IsFirst u [] = Unit
IsFirst u (v ∷ vs) = is_lt (String.compare v u) ≡ false

-- No text is smaller than the one that it follows.
abbrev pub IsAscending : List String → Type 0
IsAscending [] = Unit
IsAscending (u ∷ us) = IsFirst u us × IsAscending us

-- How often a text is in a list.
abbrev pub times : String → List String → ℕ
times u us = length (select (λ v. v == u) us)

numbers-asym :
    (m n : ℕ) (o p : Ordering)
    → (is_lt o ≡ true → is_lt p ≡ false)
    → is_lt (String.then (compare_ℕ m n) o) ≡ true
    → is_lt (String.then (compare_ℕ n m) p) ≡ false
numbers-asym m n o p f h = elim (Bool-cases (ltb m n)) [
  | inl less ↦ ground (arith, less)
  | inr no_less ↦ elim (Bool-cases (ltb n m)) [
    | inl more ↦ absurd (ground (arith, more, h))
    | inr equal ↦ let same : m ≡ n = ground (arith, no_less, equal) in ground (arith, same, f, h)
  ]
]

compare-asym :
    (s t : String) → is_lt (String.compare s t) ≡ true → is_lt (String.compare t s) ≡ false
compare-asym String.[] String.[] h = refl
compare-asym String.[] (String.◌∷◌ d t) h = rw (String.compare.cons-nil d t) refl
compare-asym (String.◌∷◌ c s) String.[] h =
    absurd (ground (arith, ap is_lt (sym (String.compare.cons-nil c s)) ∙ h))
compare-asym (String.◌∷◌ c s) (String.◌∷◌ d t) h = rw (String.compare.cons-cons d c t s) (
    numbers-asym (code c) (code d) (String.compare s t) (String.compare t s) (compare-asym s t)
      (ap is_lt (sym (String.compare.cons-cons c d s t)) ∙ h))

insert_url-IsFirst :
    (v u : String) (us : List String)
    → is_lt (String.compare u v) ≡ false
    → IsFirst v us
    → IsFirst v (insert_url u us)
unfolding insert_url
insert_url-IsFirst v u [] h k = h
insert_url-IsFirst v u (w ∷ ws) h k = elim (Bool-cases (is_lt (String.compare w u))) [
  | inl e ↦ rw e k
  | inr e ↦ rw e h
]

insert_url-IsAscending :
    (u : String) (us : List String) → IsAscending us → IsAscending (insert_url u us)
unfolding insert_url
insert_url-IsAscending u [] h = (tt, tt)
insert_url-IsAscending u (v ∷ vs) (h, hs) = elim (Bool-cases (is_lt (String.compare v u))) [
  | inl e ↦ rw e (insert_url-IsFirst v u vs (compare-asym v u e) h, insert_url-IsAscending u vs hs)
  | inr e ↦ rw e (e, (h, hs))
]

pub sort_urls-IsAscending : (us : List String) → IsAscending (sort_urls us)
unfolding sort_urls
sort_urls-IsAscending [] = tt
sort_urls-IsAscending (u ∷ us) = insert_url-IsAscending u (sort_urls us) (sort_urls-IsAscending us)

times-insert_url : (w u : String) (us : List String) → times w (insert_url u us) ≡ times w (u ∷ us)
unfolding insert_url select
times-insert_url w u [] = refl
times-insert_url w u (v ∷ vs) = elim (Bool-cases (is_lt (String.compare v u))) [
  | inl e ↦ ground (arith, e, times-insert_url w u vs)
  | inr e ↦ rw e refl
]

pub times-sort_urls : (w : String) (us : List String) → times w (sort_urls us) ≡ times w us
unfolding sort_urls select
times-sort_urls w [] = refl
times-sort_urls w (u ∷ us) =
    times-insert_url w u (sort_urls us) ∙ ground (arith, times-sort_urls w us)
