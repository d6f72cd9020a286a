-- ===== src/Restore/Offer/Profile.antt =====
-- Whose session is offered, and what an offer that was not made leaves behind.
use session_restore.Common.{
  ℕ, ◌≡◌, refl, sym, ap, ◌∙◌, String, Bool, true, not, ◌&&◌, some, List, [], ◌∷◌, map, arith, ◌==◌,
  ℕ_eq, String_eq, ==-refl, eq_of_==, ==_comm, contains-select, map-select-contains, contains, any,
  select, All, All-imp, Bool-cases, inl, inr, ◌⊎◌,
}
use session_restore.Proto.{as_str}
use session_restore.Store.Schema.{WindowRow}
use session_restore.Store.Db.{Db}
use session_restore.Restore.Offer.{
  distinct, only_one, stored_profiles, pick_profile, effective_profile,
}

contains-distinct : (k : String) (ks : List String) → contains k (distinct ks) ≡ contains k ks
unfolding distinct any
contains-distinct k [] = refl
contains-distinct k (j ∷ ks) = elim (Bool-cases (j == k)) [
  | inl same ↦ ground (arith, same)
  | inr apart ↦ ground (
    arith,
    apart,
    ==_comm j k,
    contains-select (λ i. not (i == j)) k (distinct ks),
    contains-distinct k ks,
  )
]

-- A window of the browser in the snapshot, of any profile.
abbrev pub is_stored : Db → ℕ → String → String → Bool
is_stored db id browser profile =
    any (λ r. r.snapshot_id == id && (as_str r.browser == browser && r.profile_key == profile))
      db.browser_windows

-- The browser's stored windows all have the profile.
abbrev pub IsOnly : Db → ℕ → String → String → Type 0
IsOnly db id browser profile =
    All (λ r. (r.snapshot_id == id && as_str r.browser == browser) ≡ true → r.profile_key ≡ profile)
      db.browser_windows

contains-column :
    (id : ℕ) (browser profile : String) (rows : List WindowRow)
    → contains profile (
        map
          (λ r. r.profile_key)
          (select (λ r. r.snapshot_id == id && as_str r.browser == browser) rows))
      ≡ any
          (λ r. r.snapshot_id == id && (as_str r.browser == browser && r.profile_key == profile))
          rows
unfolding any select
contains-column id browser profile [] = refl
contains-column id browser profile (r ∷ rs) = ground (arith, contains-column id browser profile rs)

contains-stored_profiles :
    (db : Db) (id : ℕ) (browser profile : String)
    → contains profile (stored_profiles db id browser) ≡ is_stored db id browser profile
unfolding stored_profiles
contains-stored_profiles db id browser profile =
    contains-distinct profile _ ∙ contains-column id browser profile db.browser_windows

only_one_lem :
    (ks : List String) (profile : String) → only_one ks ≡ some profile → ks ≡ profile ∷ []
only_one_lem [] profile h = cc
only_one_lem (k ∷ []) profile h = ground (arith, h)
only_one_lem (k ∷ j ∷ ks) profile h = cc

contains_one : (k profile : String) → contains k (profile ∷ []) ≡ true → k ≡ profile
unfolding any
contains_one k profile h = sym (eq_of_== profile k (ground (arith, h)))

stored_profiles-IsOnly :
    (db : Db) (id : ℕ) (browser profile : String)
    → stored_profiles db id browser ≡ profile ∷ []
    → IsOnly db id browser profile
unfolding stored_profiles
stored_profiles-IsOnly db id browser profile h =
    All-imp _ _ db.browser_windows
      (λ r f e.
        contains_one r.profile_key profile
          (sym (ap (contains r.profile_key) h) ∙ (contains-distinct r.profile_key _ ∙ f e)))
      (map-select-contains (λ r. r.profile_key)
        (λ r. r.snapshot_id == id && as_str r.browser == browser) db.browser_windows)

pick_profile_lem :
    (profiles : List String) (connecting profile : String)
    → pick_profile profiles connecting ≡ some profile
    → (contains profile profiles ≡ true) × ((profile ≡ connecting) ⊎ (profiles ≡ profile ∷ []))
unfolding pick_profile
pick_profile_lem profiles connecting profile h = elim (Bool-cases (contains connecting profiles)) [
  | inl e ↦ ground (arith, e, h)
  | inr e ↦
      let one = only_one_lem profiles profile (ground (arith, e, h)) in
      (rw one (unfold any in ground (arith, ==-refl profile)), inr one)
]

-- The profile whose session is offered is one that has stored windows of this browser; it is the
-- connecting one wherever that has any, and otherwise the only one there is, never a guess.
pub effective_profile_lem :
    (db : Db) (id : ℕ) (browser connecting : String)
    → (is_stored db id browser connecting ≡ true
        → effective_profile db id browser connecting ≡ some connecting)
      × ((profile : String)
          → effective_profile db id browser connecting ≡ some profile
          → (is_stored db id browser profile ≡ true)
            × ((profile ≡ connecting) ⊎ IsOnly db id browser profile))
unfolding effective_profile
effective_profile_lem db id browser connecting = (
  (λ h.
      let known = contains-stored_profiles db id browser connecting in
      unfold pick_profile in ground (arith, h)),
  (λ profile h.
      let (stored, who) = pick_profile_lem (stored_profiles db id browser) connecting profile h in
      (sym (contains-stored_profiles db id browser profile) ∙ stored, whose profile who)),
)
  where
    whose :
        (profile : String)
        → (profile ≡ connecting) ⊎ (stored_profiles db id browser ≡ profile ∷ [])
        → (profile ≡ connecting) ⊎ IsOnly db id browser profile
    whose profile (inl e) = inl e
    whose profile (inr e) = inr (stored_profiles-IsOnly db id browser profile e)
