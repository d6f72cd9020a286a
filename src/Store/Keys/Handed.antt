-- ===== src/Store/Keys/Handed.antt =====
-- What handing out a data key does to the table of keys (`KeyManager::active_dek`).
use mathlib.Core.Path.{subst}
use session_restore.Common.{
  ℕ, ◌≤◌, ◌<◌, ◌≡◌, refl, ap, sym, true, false, Option, none, some, List, [], ◌∷◌, ◌++◌, map, arith,
  ◌==◌, ℕ_eq, leb, select, All, All-imp, select-All, All-select, Bool-cases, Option-cases, inl, inr,
  String_eq,
}
use session_restore.Common.Int.{ℤ, ◌-ℤ◌, ltb_ℤ}
use session_restore.Exec.{ok, continue-leads, ok_inj}
use session_restore.Store.Db.{Db, KeyRow, next_id}
use session_restore.Store.Crypto.{Platform, key_len, wrap_key, unwrap_key}
use session_restore.Store.Keys.{
  draw, is_active, newest_key, find_key, retire_key, new_key_row, create_key, use_or_rotate,
  rotate_after_ms,
}
use session_restore.Store.Keys.Reopen.{IsUnique, newest_key-All, find_key-All, next_id-above}

-- The active key with the largest id, as the table has it.
pub record IsNewest (k : KeyRow) (ks : List KeyRow) : Type 0 where
  pub stored : find_key k.id ks ≡ some k
  pub active : is_active k ≡ true
  pub largest : All (λ j. j.id ≤ k.id) (select is_active ks)

-- The newest active key is used as it stands; or it is too old, and stands in the table afterwards
-- as one that is retired now, and another is handed out; or there was none, and one is added.
pub data Handed (now : ℤ) (before : List KeyRow) (key : ℕ × List ℕ) (after : List KeyRow)
    : Type 0 where
  used :
      (k : KeyRow) → IsNewest k before → key.0 ≡ k.id → after ≡ before → Handed now before key after
  rotated :
      (k : KeyRow)
      → IsNewest k before
      → ltb_ℤ (now -ℤ k.created_at) rotate_after_ms ≡ false
      → find_key k.id after ≡ some (record k { retired_at = some now })
      → find_key key.0 before ≡ none
      → Handed now before key after
  first :
      (row : KeyRow)
      → select is_active before ≡ []
      → key.0 ≡ row.id
      → find_key key.0 before ≡ none
      → after ≡ before ++ (row ∷ [])
      → Handed now before key after

abbrev pub HandedIn : ℤ → List KeyRow → ℕ × List ℕ → Db → Type 0
HandedIn now before key db = Handed now before key db.crypto_keys

newest_key-none : (ks : List KeyRow) → newest_key ks ≡ none → ks ≡ []
unfolding newest_key
newest_key-none [] e = refl
newest_key-none (j ∷ ks) e = elim (Option-cases (newest_key ks)) [
  | inl last ↦ absurd (ground (arith, e, last))
  | inr (w, found) ↦ elim (Bool-cases (leb j.id w.id)) [
    | inl newer ↦ absurd (ground (arith, e, found, newer))
    | inr older ↦ absurd (ground (arith, e, found, older))
  ]
]

newest_key-largest :
    (ks : List KeyRow) (k : KeyRow) → newest_key ks ≡ some k → All (λ j. j.id ≤ k.id) ks
unfolding newest_key
newest_key-largest [] k e = tt
newest_key-largest (j ∷ ks) k e = elim (Option-cases (newest_key ks)) [
  | inl last ↦
      let same : j ≡ k = ground (arith, e, last) in
      rw (newest_key-none ks last) (subst (λ q. j.id ≤ q.id) same (omega arith), tt)
  | inr (w, found) ↦ elim (Bool-cases (leb j.id w.id)) [
    | inl newer ↦
        let same : w ≡ k = ground (arith, e, found, newer) in
        subst (λ q. All (λ i. i.id ≤ q.id) (j ∷ ks)) same
          (ground (arith, newer), newest_key-largest ks w found)
    | inr older ↦
        let same : j ≡ k = ground (arith, e, found, older) in
        subst (λ q. All (λ i. i.id ≤ q.id) (j ∷ ks)) same
          (
            omega arith,
            All-imp _ _ ks (λ i h. ground (arith, h, older)) (newest_key-largest ks w found),
          )
  ]
]

pub newest_stored :
    (ks : List KeyRow) (k : KeyRow)
    → IsUnique ks
    → newest_key (select is_active ks) ≡ some k
    → (find_key k.id ks ≡ some k) × (is_active k ≡ true)
newest_stored ks k unique newest = (
  newest_key-All (λ j. find_key j.id ks ≡ some j) k (select is_active ks) newest
      (All-select (λ j. find_key j.id ks ≡ some j) is_active ks (find_key-All ks unique)),
  newest_key-All (λ j. is_active j ≡ true) k (select is_active ks) newest (select-All is_active ks),
)

newest_key-IsNewest :
    (ks : List KeyRow) (k : KeyRow)
    → IsUnique ks
    → newest_key (select is_active ks) ≡ some k
    → IsNewest k ks
newest_key-IsNewest ks k unique newest =
    let (stored, active) = newest_stored ks k unique newest in
    record {
      stored = stored;
      active = active;
      largest = newest_key-largest (select is_active ks) k newest;
    }

retire_key-ids :
    (id : ℕ) (now : ℤ) (ks : List KeyRow)
    → map (λ k. k.id) (retire_key id now ks) ≡ map (λ k. k.id) ks
unfolding retire_key
retire_key-ids id now [] = refl
retire_key-ids id now (k ∷ ks) = ground (arith, retire_key-ids id now ks)

-- The retired row is found under its id, whatever is added.
find_key-retire_key :
    (id : ℕ) (now : ℤ) (k row : KeyRow) (ks : List KeyRow)
    → find_key id ks ≡ some k
    → find_key id (retire_key id now ks ++ (row ∷ [])) ≡ some (record k { retired_at = some now })
unfolding find_key retire_key
find_key-retire_key id now k row [] h = cc
find_key-retire_key id now k row (j ∷ ks) h = elim (Bool-cases (j.id == id)) [
  | inl here ↦ ground (arith, here, h)
  | inr there ↦
      ground (arith, there, find_key-retire_key id now k row ks (ground (arith, there, h)))
]

find_key-above :
    (id : ℕ) (ks : List KeyRow) → All (λ i. i < id) (map (λ k. k.id) ks) → find_key id ks ≡ none
unfolding find_key
find_key-above id [] h = refl
find_key-above id (k ∷ ks) (h, hs) = ground (arith, h, find_key-above id ks hs)

find_key-next_id : (ks : List KeyRow) → find_key (next_id (map (λ k. k.id) ks)) ks ≡ none
find_key-next_id ks = find_key-above _ ks (next_id-above (map (λ k. k.id) ks))

-- A new row at the end of the table, under an id that is not in it.
abbrev AddedTo : List KeyRow → ℕ × List ℕ → List KeyRow → Type 0
AddedTo ks key after =
    (row : KeyRow) × (key.0 ≡ row.id)
    × (row.id ≡ next_id (map (λ k. k.id) ks))
    × (after ≡ ks ++ (row ∷ []))

create_key-AddedTo :
    (p : Platform) (e : List ℕ) (now : ℤ) (s : Db) (key : ℕ × List ℕ)
    → (create_key p e now s).0 ≡ ok key
    → AddedTo s.crypto_keys key (create_key p e now s).1.crypto_keys
unfolding create_key draw
create_key-AddedTo p e now s key h =
    continue-leads (λ k (db : Db). AddedTo s.crypto_keys k db.crypto_keys)
      (wrap_key p (p.random s.draws key_len) e) _ _ key
      (λ wrapped w done. (
        new_key_row now wrapped s.crypto_keys,
        ap (λ k. k.0) (sym (ok_inj _ key done)),
        refl,
        refl,
      ))
      h

added_first :
    (now : ℤ) (ks : List KeyRow) (key : ℕ × List ℕ) (after : List KeyRow)
    → select is_active ks ≡ []
    → AddedTo ks key after
    → Handed now ks key after
added_first now ks key after empty (row, named, id, grown) =
    first row empty named (rw (named, id) (find_key-next_id ks)) grown

added_rotated :
    (now : ℤ) (ks : List KeyRow) (k : KeyRow) (key : ℕ × List ℕ) (after : List KeyRow)
    → IsNewest k ks
    → ltb_ℤ (now -ℤ k.created_at) rotate_after_ms ≡ false
    → AddedTo (retire_key k.id now ks) key after
    → Handed now ks key after
added_rotated now ks k key after newest old (row, named, id, grown) =
    rotated k newest old (rw grown (find_key-retire_key k.id now k row ks newest.stored))
      (rw (named, id, retire_key-ids k.id now ks) (find_key-next_id ks))

pub use_or_rotate-Handed :
    (p : Platform) (e : List ℕ) (now : ℤ) (newest : Option KeyRow) (s : Db) (key : ℕ × List ℕ)
    → IsUnique s.crypto_keys
    → newest_key (select is_active s.crypto_keys) ≡ newest
    → (use_or_rotate p e now newest s).0 ≡ ok key
    → HandedIn now s.crypto_keys key (use_or_rotate p e now newest s).1
unfolding use_or_rotate
use_or_rotate-Handed p e now none s key unique is h =
    added_first now s.crypto_keys key _ (newest_key-none _ is) (create_key-AddedTo p e now s key h)
use_or_rotate-Handed p e now (some k) s key unique is h =
    let newest = newest_key-IsNewest s.crypto_keys k unique is in
    elim (Bool-cases (ltb_ℤ (now -ℤ k.created_at) rotate_after_ms)) [
      | inl young ↦ simp young (
          continue-leads (HandedIn now s.crypto_keys) (unwrap_key p k.wrapped_key e) _ s key
            (λ dek w done. used k newest (ap (λ j. j.0) (sym (ok_inj _ key done))) refl)
            (ground (arith, young, h)))
      | inr old ↦ simp old (
          added_rotated now s.crypto_keys k key _ newest old (
            create_key-AddedTo p e now
              (record s { crypto_keys = retire_key k.id now s.crypto_keys }) key
              (ground (arith, old, h))))
    ]
