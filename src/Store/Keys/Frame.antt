-- ===== src/Store/Keys/Frame.antt =====
-- Taking a key writes the keys, the entropy file and the draw counter, and nothing else.
use session_restore.Common.{ℕ, ◌≡◌, Option, none, some, List, arith}
use session_restore.Common.Int.{ℤ}
use session_restore.Exec.{Keeps, continue-Keeps}
use session_restore.Store.Db.{Db, KeyRow}
use session_restore.Store.Crypto.{Platform, wrap_key, unwrap_key, key_len}
use session_restore.Store.Keys.{
  draw, entropy, insert_key, create_key, retire_key, use_or_rotate, active_dek,
}

abbrev pub KeyFrame : Db → Db → Type 0
KeyFrame a b = b ≡ record a { crypto_keys = b.crypto_keys; keys_bin = b.keys_bin; draws = b.draws }

module _ (p : Platform) (a : Db) where
  pub draw-KeyFrame : (n : ℕ) → Keeps (KeyFrame a) (draw p n)
  unfolding draw
  draw-KeyFrame n s h = ground arith

  entropy-KeyFrame : Keeps (KeyFrame a) (entropy p)
  unfolding entropy
  entropy-KeyFrame s h = ground arith

  insert_key-KeyFrame : (now : ℤ) (wrapped : List ℕ) → Keeps (KeyFrame a) (insert_key now wrapped)
  insert_key-KeyFrame now wrapped s h = ground arith

  create_key-KeyFrame : (e : List ℕ) (now : ℤ) → Keeps (KeyFrame a) (create_key p e now)
  unfolding create_key
  create_key-KeyFrame e now s h =
      continue-Keeps (KeyFrame a) (wrap_key p (p.random s.draws key_len) e) _
        (λ wrapped t k. insert_key-KeyFrame now wrapped t k) _ (draw-KeyFrame key_len s h)

  use_or_rotate-KeyFrame :
      (e : List ℕ) (now : ℤ) (newest : Option KeyRow)
      → Keeps (KeyFrame a) (use_or_rotate p e now newest)
  unfolding use_or_rotate
  use_or_rotate-KeyFrame e now none s h = create_key-KeyFrame e now s h
  use_or_rotate-KeyFrame e now (some k) s h = ground (
    arith,
    unwrap_key p k.wrapped_key e,
    create_key-KeyFrame e now (record s { crypto_keys = retire_key k.id now s.crypto_keys }),
  )

  pub active_dek-KeyFrame : (now : ℤ) → Keeps (KeyFrame a) (active_dek p now)
  unfolding active_dek
  active_dek-KeyFrame now s h =
      continue-Keeps (KeyFrame a) (entropy p s).0 _ (λ e t k. use_or_rotate-KeyFrame e now _ t k) _
        (entropy-KeyFrame s h)
