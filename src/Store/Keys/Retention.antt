-- ===== src/Store/Keys/Retention.antt =====
-- Which keys the clean-up keeps (`KeyManager::gc`).
use session_restore.Common.{
  ℕ, ◌≡◌, refl, true, false, not, none, List, [], ◌∷◌, arith, ◌==◌, ℕ_eq, String_eq, nat_eq_iff,
  ==-refl, any, select, select_implied, select-All, All, All-imp, ◌⊎◌, inl, inr, Option-cases,
  Bool-cases,
}
use session_restore.Store.Schema.{PrivateRow}
use session_restore.Store.Db.{Db, KeyRow}
use session_restore.Store.Keys.{is_active, find_key, is_referenced, is_garbage, gc}

garbage_referenced :
    (rows : List PrivateRow) (k : KeyRow)
    → is_referenced rows k.id ≡ true
    → is_garbage rows k ≡ false
garbage_referenced rows k h = ground (arith, k.retired_at, h)

kept_reason :
    (rows : List PrivateRow) (k : KeyRow)
    → not (is_garbage rows k) ≡ true
    → (k.retired_at ≡ none) ⊎ (is_referenced rows k.id ≡ true)
kept_reason rows k h = elim (Option-cases k.retired_at) [
  | inl never ↦ inl never
  | inr (at_time, found) ↦ inr (ground (arith, found, h))
]

find_key-kept :
    (rows : List PrivateRow) (id : ℕ) (ks : List KeyRow)
    → is_referenced rows id ≡ true
    → find_key id (select (λ k. not (is_garbage rows k)) ks) ≡ find_key id ks
unfolding find_key select
find_key-kept rows id [] h = refl
find_key-kept rows id (k ∷ ks) h = elim (Bool-cases (k.id == id)) [
  | inl same ↦
      let named : k.id ≡ id = (nat_eq_iff k.id id).0 same in
      let kept = garbage_referenced rows k (rw named h) in ground (arith, same, kept)
  | inr other ↦ ground (arith, other, find_key-kept rows id ks h)
]

every_row_referenced : (rows : List PrivateRow) → All (λ r. is_referenced rows r.key_id ≡ true) rows
unfolding any
every_row_referenced [] = tt
every_row_referenced (r ∷ rs) = (
  ground (arith, ==-refl r.key_id),
  All-imp _ _ rs (λ q h. ground (arith, h)) (every_row_referenced rs),
)

active_kept :
    (rows : List PrivateRow) (k : KeyRow) → is_active k ≡ true → not (is_garbage rows k) ≡ true
unfolding is_active
active_kept rows k h = ground (arith, k.retired_at, h)

-- The clean-up of keys removes retired keys that no private row names, and only those: the key of
-- every private row is found as before, the active keys are the same, and what is left is either
-- not retired or named by a row.
pub gc_lem :
    (db : Db)
    → All
        (λ r. find_key r.key_id (gc db).crypto_keys ≡ find_key r.key_id db.crypto_keys)
        db.tabs_private
      × (select is_active (gc db).crypto_keys ≡ select is_active db.crypto_keys)
      × All
          (λ k. (k.retired_at ≡ none) ⊎ (is_referenced db.tabs_private k.id ≡ true))
          (gc db).crypto_keys
unfolding gc
gc_lem db = (
  All-imp _ _ db.tabs_private (λ r h. find_key-kept db.tabs_private r.key_id db.crypto_keys h)
      (every_row_referenced db.tabs_private),
  select_implied is_active (λ k. not (is_garbage db.tabs_private k)) db.crypto_keys
      (active_kept db.tabs_private),
  All-imp _ _ _ (λ k h. kept_reason db.tabs_private k h)
      (select-All (λ k. not (is_garbage db.tabs_private k)) db.crypto_keys),
)
