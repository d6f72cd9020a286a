-- ===== src/Store/Keys.antt =====
-- Data-key lifecycle: agent/crates/sr-agent/src/store/keys.rs.
pub mod Frame
pub mod Handed
pub mod Reopen
pub mod Retention
pub mod Rotation
use session_restore.Common.{
  ℕ, zero, suc, ◌+◌, ◌≡◌, refl, String, Bool, true, false, not, ◌&&◌, Option, none, some, List, [],
  ◌∷◌, ◌++◌, map, ◌==◌, ℕ_eq, String_eq, leb, if◌then◌else◌, select, any, length,
}
use session_restore.Common.Int.{ℤ, pos, ◌+ℤ◌, ◌-ℤ◌, ltb_ℤ}
use session_restore.Exec.{
  Outcome, ok, err, Exec, bad_entropy, bad_key, no_such_row, pure, raise, lift, gets, modify, ◌>>=◌,
  ◌>>◌,
}
use session_restore.Store.Db.{Db, KeyRow, next_id}
use session_restore.Store.Schema.{PrivateRow}
use session_restore.Store.Crypto.{Platform, key_len, wrap_key, unwrap_key}

abbrev pub purpose_private_tabs : String
purpose_private_tabs = "private_tabs"

abbrev pub wrap_method : String
wrap_method = "dpapi-user-v1"

abbrev pub rotate_after_ms : ℤ
rotate_after_ms = pos 2_592_000_000

-- The next random bytes.
unfoldable pub draw : Platform → ℕ → Exec Db (List ℕ)
draw p n db = (ok (p.random db.draws n), record db { draws = suc db.draws })

-- A file of the wrong length is refused; a missing one is created.
unfoldable pub entropy : Platform → Exec Db (List ℕ)
unfolding draw
entropy p db = elim db.keys_bin [
  | some b ↦ if length b == 32 then (ok b, db) else (err bad_entropy, db)
  | none ↦
      let buf = p.random db.draws 32 in
      (ok buf, record db { draws = suc db.draws; keys_bin = some buf })
]

unfoldable pub is_active : KeyRow → Bool
is_active k =
    k.purpose == purpose_private_tabs && elim k.retired_at [ none ↦ true | some _ ↦ false ]

-- ORDER BY id DESC LIMIT 1
unfoldable pub newest_key : List KeyRow → Option KeyRow
newest_key [] = none
newest_key (k ∷ ks) = elim (newest_key ks) [
  | none ↦ some k
  | some j ↦ if leb k.id j.id then some j else some k
]

unfoldable pub find_key : ℕ → List KeyRow → Option KeyRow
find_key id [] = none
find_key id (k ∷ ks) = if k.id == id then some k else find_key id ks

unfoldable pub retire_key : ℕ → ℤ → List KeyRow → List KeyRow
retire_key id now ks = map (λ k. if k.id == id then record k { retired_at = some now } else k) ks

-- The row of a new key, under the id that SQLite gives it.
abbrev pub new_key_row : ℤ → List ℕ → List KeyRow → KeyRow
new_key_row now wrapped ks = record {
  id = next_id (map (λ k. k.id) ks);
  purpose = purpose_private_tabs;
  wrapped_key = wrapped;
  wrap_method = wrap_method;
  created_at = now;
  retired_at = none;
}

abbrev pub insert_key : ℤ → List ℕ → Exec Db ℕ
insert_key now wrapped db =
    let row = new_key_row now wrapped db.crypto_keys in
    (ok row.id, record db { crypto_keys = db.crypto_keys ++ (row ∷ []) })

unfoldable pub create_key : Platform → List ℕ → ℤ → Exec Db (ℕ × List ℕ)
unfolding draw
create_key p e now = do
  dek ← draw p key_len
  wrapped ← lift (wrap_key p dek e)
  id ← insert_key now wrapped
  pure (id, dek)

-- What is done with the newest active key: it is used, or retired for a new one.
unfoldable pub use_or_rotate : Platform → List ℕ → ℤ → Option KeyRow → Exec Db (ℕ × List ℕ)
use_or_rotate p e now none = create_key p e now
use_or_rotate p e now (some k) =
    if ltb_ℤ (now -ℤ k.created_at) rotate_after_ms
    then (do dek ← lift (unwrap_key p k.wrapped_key e); pure (k.id, dek))
    else (do
      modify (λ db. record db { crypto_keys = retire_key k.id now db.crypto_keys })
      create_key p e now)

unfoldable pub active_dek : Platform → ℤ → Exec Db (ℕ × List ℕ)
unfolding use_or_rotate entropy
active_dek p now = do
  e ← entropy p
  newest ← gets (λ db. newest_key (select is_active db.crypto_keys))
  use_or_rotate p e now newest

unfoldable pub dek_by_id : Platform → ℕ → Exec Db (List ℕ)
unfolding entropy
dek_by_id p key_id = do
  e ← entropy p
  row ← gets (λ db. find_key key_id db.crypto_keys)
  elim row [ none ↦ raise no_such_row | some k ↦ lift (unwrap_key p k.wrapped_key e) ]

abbrev pub is_referenced : List PrivateRow → ℕ → Bool
is_referenced rows id = any (λ r. r.key_id == id) rows

abbrev pub is_garbage : List PrivateRow → KeyRow → Bool
is_garbage rows k = elim k.retired_at [ none ↦ false | some _ ↦ not (is_referenced rows k.id) ]

-- Deletes retired keys that no row references any more.
unfoldable pub gc : Db → Db
gc db = record db { crypto_keys = select (λ k. not (is_garbage db.tabs_private k)) db.crypto_keys }
