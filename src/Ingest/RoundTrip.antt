-- ===== src/Ingest/RoundTrip.antt =====
-- A private tab comes back: what `store_private_encrypted` seals, `build_private_payload` opens.
use session_restore.Common.{
  ℕ, ◌≡◌, refl, ◌∙◌, true, some, List, arith, ℕ_eq, String_eq, ==-refl, length, Option-cases, inl,
  inr,
}
use session_restore.Exec.{ok, continue-leads}
use session_restore.Proto.{upsert, TabDelta}
use session_restore.Store.Row.{get}
use session_restore.Store.Row.Laws.{get-upsert}
use session_restore.Store.Schema.{PrivateRow, PrivateRow_row}
use session_restore.Store.Crypto.{Platform, IsPlatform, aad, seal, unseal, nonce_len}
use session_restore.Store.Keys.{draw, active_dek}
use session_restore.Store.Keys.Reopen.{IsUnique, OpensIn, active_dek-Opens, dek_by_id-Opens}
use session_restore.Store.Db.{Db}
use session_restore.Restore.Payload.{private_tab, open_row}
use session_restore.Ingest.{
  IngestCtx, overwrite, private_payload, private_row, seal_and_store, store_private_encrypted,
  ingest_tab,
}

-- The tab is stored under its key, and opens to what was reported of it.
abbrev pub IsRestorable : IngestCtx → TabDelta → Db → Type 0
IsRestorable ctx tab db =
    (row : PrivateRow) × (get ctx.snapshot_id tab.tab_key db.tabs_private ≡ some row)
    × (open_row ctx.platform row db ≡ (ok (private_tab row (private_payload tab)), db))

unseal-seal :
    (p : Platform) (dek nonce aad_bytes msg c : List ℕ)
    → IsPlatform p
    → length nonce ≡ nonce_len
    → seal p dek nonce aad_bytes msg ≡ ok c
    → unseal p dek aad_bytes nonce c ≡ ok msg
unfolding seal unseal
unseal-seal p dek nonce aad_bytes msg c laws size h =
    elim (Option-cases (p.encrypt dek nonce aad_bytes msg)) [
      | inl failed ↦ absurd (ground (arith, h, failed))
      | inr (v, found) ↦
          let opened = laws.decrypt-encrypt dek nonce aad_bytes msg c (ground (arith, h, found)) in
          ground (arith, opened, size)
    ]

open_row-sealed :
    (ctx : IngestCtx) (tab : TabDelta) (key : ℕ × List ℕ) (nonce c : List ℕ) (u : Db)
    → IsPlatform ctx.platform
    → ctx.platform.from_json (ctx.platform.to_json (private_payload tab))
      ≡ some (private_payload tab)
    → OpensIn ctx.platform key u
    → length nonce ≡ nonce_len
    → seal ctx.platform key.1 nonce
        (aad tab.tab_key key.0)
        (ctx.platform.to_json (private_payload tab))
      ≡ ok c
    → open_row ctx.platform (private_row ctx tab key.0 nonce c) u
      ≡ (ok (private_tab (private_row ctx tab key.0 nonce c) (private_payload tab)), u)
unfolding open_row private_row
open_row-sealed ctx tab key nonce c u laws json opens size sealed = simp (
  dek_by_id-Opens ctx.platform key u opens,
  unseal-seal ctx.platform key.1 nonce (aad tab.tab_key key.0)
      (ctx.platform.to_json (private_payload tab)) c laws size sealed,
  json,
)

seal_and_store-IsRestorable :
    (ctx : IngestCtx) (tab : TabDelta) (key : ℕ × List ℕ) (s : Db)
    → IsPlatform ctx.platform
    → ctx.platform.from_json (ctx.platform.to_json (private_payload tab))
      ≡ some (private_payload tab)
    → OpensIn ctx.platform key s
    → (seal_and_store ctx tab key s).0 ≡ ok tt
    → IsRestorable ctx tab (seal_and_store ctx tab key s).1
unfolding seal_and_store draw
seal_and_store-IsRestorable ctx tab key s laws json opens h =
    let nonce : List ℕ = ctx.platform.random s.draws nonce_len in
    continue-leads (λ _ u. IsRestorable ctx tab u)
      (seal ctx.platform key.1 nonce (aad tab.tab_key key.0)
        (ctx.platform.to_json (private_payload tab)))
      _ _ tt
      (λ c sealed _. (
        private_row ctx tab key.0 nonce c,
        get-upsert overwrite (private_row ctx tab key.0 nonce c) s.tabs_private ctx.snapshot_id
              tab.tab_key (λ old. refl)
            ∙ unfold private_row in ground (arith, ==-refl ctx.snapshot_id, ==-refl tab.tab_key),
        open_row-sealed ctx tab key nonce c _ laws json opens (laws.length-random s.draws nonce_len)
            sealed,
      ))
      h

store_private-IsRestorable :
    (ctx : IngestCtx) (tab : TabDelta) (db : Db)
    → IsPlatform ctx.platform
    → ctx.platform.from_json (ctx.platform.to_json (private_payload tab))
      ≡ some (private_payload tab)
    → IsUnique db.crypto_keys
    → (store_private_encrypted ctx tab db).0 ≡ ok tt
    → IsRestorable ctx tab (store_private_encrypted ctx tab db).1
unfolding store_private_encrypted
store_private-IsRestorable ctx tab db laws json unique h =
    continue-leads (λ _ u. IsRestorable ctx tab u) (active_dek ctx.platform ctx.now db).0 _ _ tt
      (λ key got done.
        seal_and_store-IsRestorable ctx tab key (active_dek ctx.platform ctx.now db).1 laws json
          (active_dek-Opens ctx.platform ctx.now db key laws unique got) done)
      h

-- A private tab that was taken in comes back: once the call returned without an error, the row
-- under the tab's key decrypts, with the key that it names, to the URL, the title and the flags
-- that were reported, and opening it changes nothing. It is assumed that the platform keeps its
-- documented behaviour, that the JSON of the tab reads back, and that key ids are unique.
pub ingest_tab-IsRestorable :
    (ctx : IngestCtx) (tab : TabDelta) (db : Db)
    → IsPlatform ctx.platform
    → ctx.platform.from_json (ctx.platform.to_json (private_payload tab))
      ≡ some (private_payload tab)
    → IsUnique db.crypto_keys
    → tab.op ≡ upsert
    → tab.is_private ≡ true
    → ctx.capture_private ≡ true
    → (ingest_tab ctx tab db).0 ≡ ok tt
    → IsRestorable ctx tab (ingest_tab ctx tab db).1
unfolding ingest_tab
ingest_tab-IsRestorable ctx tab db laws json unique u p c h =
    simp (u, p, c)
      (store_private-IsRestorable ctx tab db laws json unique (ground (arith, u, p, c, h)))
