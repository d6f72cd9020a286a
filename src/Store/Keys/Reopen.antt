-- ===== src/Store/Keys/Reopen.antt =====
-- A data key that was handed out can be had again from the row that is named with it.
use mathlib.Core.Path.{subst}
use session_restore.Common.{
  ℕ, ◌<◌, ◌≡◌, refl, ap, sym, ◌∙◌, true, false, Option, none, some, List, [], ◌∷◌, ◌++◌, map, arith,
  ◌==◌, ℕ_eq, ==-refl, leb, length, select, All, All-both, All-imp, All-select, Bool-cases,
  Option-cases, inl, inr,
}
use session_restore.Common.Int.{ℤ, ◌-ℤ◌, ltb_ℤ}
use session_restore.Exec.{ok, continue-leads, ok_inj}
use session_restore.Store.Db.{Db, KeyRow, next_id}
use session_restore.Store.Crypto.{Platform, IsPlatform, key_len, wrap_key, unwrap_key}
use session_restore.Store.Keys.{
  draw, entropy, is_active, newest_key, find_key, retire_key, new_key_row, create_key,
  use_or_rotate, active_dek, dek_by_id, rotate_after_ms,
}

-- The primary key of `crypto_keys`.
abbrev pub IsUnique : List KeyRow → Type 0
IsUnique [] = Unit
IsUnique (k ∷ ks) = All (λ j. (k.id == j.id) ≡ false) ks × IsUnique ks

-- The entropy of the installation, and the row of the key, give the key back.
abbrev pub Opens : Platform → ℕ × List ℕ → Option (List ℕ) → List KeyRow → Type 0
Opens p key keys_bin crypto_keys =
    (e : List ℕ) × (row : KeyRow) × (keys_bin ≡ some e)
    × ((length e == 32) ≡ true)
    × (find_key key.0 crypto_keys ≡ some row)
    × (unwrap_key p row.wrapped_key e ≡ ok key.1)

abbrev pub OpensIn : Platform → ℕ × List ℕ → Db → Type 0
OpensIn p key db = Opens p key db.keys_bin db.crypto_keys

pub newest_key-All :
    (P : KeyRow → Type 0) (k : KeyRow) (ks : List KeyRow) → newest_key ks ≡ some k → All P ks → P k
unfolding newest_key
newest_key-All P k [] e h = cc
newest_key-All P k (j ∷ ks) e (h, hs) = elim (Option-cases (newest_key ks)) [
  | inl last ↦ subst P (ground (arith, e, last)) h
  | inr (w, found) ↦ elim (Bool-cases (leb j.id w.id)) [
    | inl newer ↦ newest_key-All P k ks (ground (arith, e, found, newer)) hs
    | inr older ↦ subst P (ground (arith, e, found, older)) h
  ]
]

pub find_key-All : (ks : List KeyRow) → IsUnique ks → All (λ j. find_key j.id ks ≡ some j) ks
unfolding find_key
find_key-All [] h = tt
find_key-All (k ∷ ks) (h, hs) = (
  ground (arith, ==-refl k.id),
  All-imp _ _ ks (λ j both. ground (arith, both)) (All-both _ _ ks h (find_key-All ks hs)),
)

pub next_id-above : (ids : List ℕ) → All (λ i. i < next_id ids) ids
unfolding next_id
next_id-above [] = tt
next_id-above (i ∷ ids) =
    (ground arith, All-imp _ _ ids (λ j h. ground (arith, h)) (next_id-above ids))

pub find_key-append :
    (id : ℕ) (row : KeyRow) (ks : List KeyRow)
    → All (λ i. i < id) (map (λ k. k.id) ks)
    → row.id ≡ id
    → find_key id (ks ++ (row ∷ [])) ≡ some row
unfolding find_key
find_key-append id row [] h e = ground arith
find_key-append id row (k ∷ ks) (h, hs) e = ground (arith, find_key-append id row ks hs e)

entropy-leads :
    (p : Platform) (s : Db) (e : List ℕ)
    → IsPlatform p
    → (entropy p s).0 ≡ ok e
    → ((entropy p s).1.keys_bin ≡ some e)
      × ((length e == 32) ≡ true)
      × ((entropy p s).1.crypto_keys ≡ s.crypto_keys)
unfolding entropy
entropy-leads p s e laws h = elim (Option-cases s.keys_bin) [
  | inl missing ↦ ground (arith, missing, h, laws.length-random s.draws 32)
  | inr (b, found) ↦ ground (arith, found, h)
]

unwrap_key-wrap_key :
    (p : Platform) (dek e w : List ℕ)
    → IsPlatform p
    → length dek ≡ key_len
    → wrap_key p dek e ≡ ok w
    → unwrap_key p w e ≡ ok dek
unfolding wrap_key unwrap_key
unwrap_key-wrap_key p dek e w laws size h = elim (Option-cases (p.protect dek e)) [
  | inl failed ↦ absurd (ground (arith, h, failed))
  | inr (v, found) ↦
      let opened = laws.unprotect-protect dek e w (ground (arith, h, found)) in
      ground (arith, opened, size)
]

create_key-Opens :
    (p : Platform) (e : List ℕ) (now : ℤ) (s : Db) (key : ℕ × List ℕ)
    → IsPlatform p
    → s.keys_bin ≡ some e
    → (length e == 32) ≡ true
    → (create_key p e now s).0 ≡ ok key
    → OpensIn p key (create_key p e now s).1
unfolding create_key draw
create_key-Opens p e now s key laws kept size h =
    continue-leads (OpensIn p) (wrap_key p (p.random s.draws key_len) e) _ _ key
      (λ wrapped w done.
        subst
          (λ k.
            Opens p k s.keys_bin (s.crypto_keys ++ (new_key_row now wrapped s.crypto_keys ∷ [])))
          (ok_inj _ key done)
          (
            e,
            new_key_row now wrapped s.crypto_keys,
            kept,
            size,
            find_key-append (next_id (map (λ k. k.id) s.crypto_keys))
                (new_key_row now wrapped s.crypto_keys) s.crypto_keys
                (next_id-above (map (λ k. k.id) s.crypto_keys)) refl,
            unwrap_key-wrap_key p (p.random s.draws key_len) e wrapped laws
                (laws.length-random s.draws key_len) w,
          ))
      h

use_or_rotate-Opens :
    (p : Platform) (e : List ℕ) (now : ℤ) (newest : Option KeyRow) (s : Db) (key : ℕ × List ℕ)
    → IsPlatform p
    → s.keys_bin ≡ some e
    → (length e == 32) ≡ true
    → ((k : KeyRow) → newest ≡ some k → find_key k.id s.crypto_keys ≡ some k)
    → (use_or_rotate p e now newest s).0 ≡ ok key
    → OpensIn p key (use_or_rotate p e now newest s).1
unfolding use_or_rotate
use_or_rotate-Opens p e now none s key laws kept size stored h =
    create_key-Opens p e now s key laws kept size h
use_or_rotate-Opens p e now (some k) s key laws kept size stored h =
    elim (Bool-cases (ltb_ℤ (now -ℤ k.created_at) rotate_after_ms)) [
      | inl young ↦ simp young (
          continue-leads (OpensIn p) (unwrap_key p k.wrapped_key e) _ s key
            (λ dek w done.
              subst (λ j. Opens p j s.keys_bin s.crypto_keys) (ok_inj _ key done)
                (e, k, kept, size, stored k refl, w))
            (ground (arith, young, h)))
      | inr old ↦ simp old (
          create_key-Opens p e now (record s { crypto_keys = retire_key k.id now s.crypto_keys })
            key laws kept size (ground (arith, old, h)))
    ]

-- The key that is handed out for sealing is one that its id gives back.
pub active_dek-Opens :
    (p : Platform) (now : ℤ) (s : Db) (key : ℕ × List ℕ)
    → IsPlatform p
    → IsUnique s.crypto_keys
    → (active_dek p now s).0 ≡ ok key
    → OpensIn p key (active_dek p now s).1
unfolding active_dek
active_dek-Opens p now s key laws unique h =
    continue-leads (OpensIn p) (entropy p s).0 _ _ key
      (λ e got done.
        let (kept, size, same) = entropy-leads p s e laws got in
        use_or_rotate-Opens p e now _ (entropy p s).1 key laws kept size
          (λ k newest. rw same (
            newest_key-All (λ j. find_key j.id s.crypto_keys ≡ some j) k
              (select is_active s.crypto_keys)
              (ap (λ ks. newest_key (select is_active ks)) (sym same) ∙ newest)
              (All-select (λ j. find_key j.id s.crypto_keys ≡ some j) is_active s.crypto_keys
                (find_key-All s.crypto_keys unique))))
          done)
      h

-- Reading a key by its id.
pub dek_by_id-Opens :
    (p : Platform) (key : ℕ × List ℕ) (u : Db)
    → OpensIn p key u
    → dek_by_id p key.0 u ≡ (ok key.1, u)
unfolding dek_by_id entropy
dek_by_id-Opens p key u (e, row, kept, size, found, opened) =
    ground (arith, kept, size, found, opened)
