-- ===== src/Store/Keys/Rotation.antt =====
-- The age of the data keys that are handed out (`KeyManager::active_dek`).
use mathlib.Core.Path.{subst}
use session_restore.Common.{
  ℕ, ◌≡◌, refl, ap, sym, ◌∙◌, true, Option, none, some, List, [], ◌∷◌, ◌++◌, map, arith, ℕ_eq,
  String_eq, select, Bool-cases, Option-cases, inl, inr,
}
use session_restore.Common.Int.{ℤ, ◌-ℤ◌, ltb_ℤ}
use session_restore.Exec.{ok, continue-leads, ok_inj}
use session_restore.Store.Db.{Db, KeyRow}
use session_restore.Store.Crypto.{Platform, key_len, wrap_key, unwrap_key}
use session_restore.Store.Keys.{
  draw, entropy, is_active, newest_key, find_key, retire_key, new_key_row, create_key,
  use_or_rotate, active_dek, rotate_after_ms,
}
use session_restore.Store.Keys.Handed.{HandedIn, use_or_rotate-Handed, newest_stored}
use session_restore.Store.Keys.Reopen.{IsUnique, next_id-above, find_key-append}

-- The row of the key is in use, and younger than thirty days.
abbrev pub IsYoung : ℤ → ℕ × List ℕ → List KeyRow → Type 0
IsYoung now key ks =
    (row : KeyRow) × (find_key key.0 ks ≡ some row)
    × (is_active row ≡ true)
    × (ltb_ℤ (now -ℤ row.created_at) rotate_after_ms ≡ true)

abbrev pub IsYoungIn : ℤ → ℕ × List ℕ → Db → Type 0
IsYoungIn now key db = IsYoung now key db.crypto_keys

now_young : (now : ℤ) → ltb_ℤ (now -ℤ now) rotate_after_ms ≡ true
unfolding ◌-ℤ◌
now_young now = ground arith

new_key_row-IsActive :
    (now : ℤ) (wrapped : List ℕ) (ks : List KeyRow) → is_active (new_key_row now wrapped ks) ≡ true
unfolding is_active
new_key_row-IsActive now wrapped ks = ground arith

entropy-crypto_keys : (p : Platform) (s : Db) → (entropy p s).1.crypto_keys ≡ s.crypto_keys
unfolding entropy
entropy-crypto_keys p s = elim (Option-cases s.keys_bin) [
  | inl missing ↦ ground (arith, missing)
  | inr (b, found) ↦ ground (arith, found)
]

create_key-IsYoung :
    (p : Platform) (e : List ℕ) (now : ℤ) (s : Db) (key : ℕ × List ℕ)
    → (create_key p e now s).0 ≡ ok key
    → IsYoungIn now key (create_key p e now s).1
unfolding create_key draw
create_key-IsYoung p e now s key h =
    continue-leads (IsYoungIn now) (wrap_key p (p.random s.draws key_len) e) _ _ key
      (λ wrapped w done.
        let row = new_key_row now wrapped s.crypto_keys in
        subst (λ k. IsYoung now k (s.crypto_keys ++ (row ∷ []))) (ok_inj _ key done)
          (
            row,
            find_key-append row.id row s.crypto_keys (next_id-above (map (λ k. k.id) s.crypto_keys))
                refl,
            new_key_row-IsActive now wrapped s.crypto_keys,
            now_young now,
          ))
      h

use_or_rotate-IsYoung :
    (p : Platform) (e : List ℕ) (now : ℤ) (newest : Option KeyRow) (s : Db) (key : ℕ × List ℕ)
    → ((k : KeyRow)
        → newest ≡ some k
        → (find_key k.id s.crypto_keys ≡ some k) × (is_active k ≡ true))
    → (use_or_rotate p e now newest s).0 ≡ ok key
    → IsYoungIn now key (use_or_rotate p e now newest s).1
unfolding use_or_rotate
use_or_rotate-IsYoung p e now none s key stored h = create_key-IsYoung p e now s key h
use_or_rotate-IsYoung p e now (some k) s key stored h =
    elim (Bool-cases (ltb_ℤ (now -ℤ k.created_at) rotate_after_ms)) [
      | inl young ↦ simp young (
          continue-leads (IsYoungIn now) (unwrap_key p k.wrapped_key e) _ s key
            (λ dek w done.
              subst (λ j. IsYoung now j s.crypto_keys) (ok_inj _ key done)
                (k, (stored k refl).0, (stored k refl).1, young))
            (ground (arith, young, h)))
      | inr old ↦ simp old (
          create_key-IsYoung p e now (record s { crypto_keys = retire_key k.id now s.crypto_keys })
            key (ground (arith, old, h)))
    ]

active_dek-Young :
    (p : Platform) (now : ℤ) (s : Db) (key : ℕ × List ℕ)
    → IsUnique s.crypto_keys
    → (active_dek p now s).0 ≡ ok key
    → IsYoungIn now key (active_dek p now s).1
unfolding active_dek
active_dek-Young p now s key unique h =
    continue-leads (IsYoungIn now) (entropy p s).0 _ _ key
      (λ e got done.
        use_or_rotate-IsYoung p e now _ (entropy p s).1 key
          (λ k newest. rw (entropy-crypto_keys p s) (
            newest_stored s.crypto_keys k unique (
              ap (λ ks. newest_key (select is_active ks)) (sym (entropy-crypto_keys p s))
              ∙ newest)))
          done)
      h

use_or_rotate-HandedIn :
    (p : Platform) (e : List ℕ) (now : ℤ) (newest : Option KeyRow) (s : Db) (before : List KeyRow)
    (key : ℕ × List ℕ)
    → IsUnique before
    → s.crypto_keys ≡ before
    → newest_key (select is_active s.crypto_keys) ≡ newest
    → (use_or_rotate p e now newest s).0 ≡ ok key
    → HandedIn now before key (use_or_rotate p e now newest s).1
use_or_rotate-HandedIn p e now newest s before key unique same is h =
    subst (λ ks. HandedIn now ks key (use_or_rotate p e now newest s).1) same
      (use_or_rotate-Handed p e now newest s key (rw same unique) is h)

active_dek-Handed :
    (p : Platform) (now : ℤ) (s : Db) (key : ℕ × List ℕ)
    → IsUnique s.crypto_keys
    → (active_dek p now s).0 ≡ ok key
    → HandedIn now s.crypto_keys key (active_dek p now s).1
unfolding active_dek
active_dek-Handed p now s key unique h =
    continue-leads (HandedIn now s.crypto_keys) (entropy p s).0 _ _ key
      (λ e got done.
        use_or_rotate-HandedIn p e now _ (entropy p s).1 s.crypto_keys key unique
          (entropy-crypto_keys p s) refl done)
      h

-- Where the ids of the keys are unique, a key that `active_dek` hands out for sealing stands in
-- the table afterwards under its id, for private tabs and not retired, and was made less than
-- thirty days before `now`. The table is the one before and that key is the active one with the
-- largest id; or the active one with the largest id is thirty days old or more, stands in the table
-- afterwards as retired at `now`, and a new id is handed out; or no key was active, and the table is
-- the one before with a row of a new id at its end.
pub active_dek-IsYoung :
    (p : Platform) (now : ℤ) (s : Db) (key : ℕ × List ℕ)
    → IsUnique s.crypto_keys
    → (active_dek p now s).0 ≡ ok key
    → IsYoungIn now key (active_dek p now s).1
      × HandedIn now s.crypto_keys key (active_dek p now s).1
active_dek-IsYoung p now s key unique h =
    (active_dek-Young p now s key unique h, active_dek-Handed p now s key unique h)
