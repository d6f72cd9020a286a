-- ===== src/Ingest/Routing.antt =====
-- Where a tab may end up: the guarantees of the chokepoint.
use session_restore.Common.{ℕ, ◌≡◌, refl, true, false, List, arith, Bool-cases, inl, inr}
use session_restore.Exec.{ok, Keeps, continue-Keeps}
use session_restore.Proto.{upsert, TabDelta}
use session_restore.Store.Crypto.{aad, seal, nonce_len}
use session_restore.Store.Keys.{draw, active_dek}
use session_restore.Store.Keys.Frame.{KeyFrame, active_dek-KeyFrame}
use session_restore.Store.Db.{Db}
use session_restore.Ingest.{
  IngestCtx, private_payload, seal_and_store, store_private_encrypted, ingest_tab,
}

-- Storing a private tab writes `tabs_private` and what taking a key writes, and nothing else.
abbrev pub PrivateFrame : Db → Db → Type 0
PrivateFrame a b = KeyFrame (record a { tabs_private = b.tabs_private }) b

store_private-PrivateFrame :
    (ctx : IngestCtx) (tab : TabDelta) (a : Db)
    → PrivateFrame a (store_private_encrypted ctx tab a).1
unfolding store_private_encrypted draw
store_private-PrivateFrame ctx tab a =
    continue-Keeps (PrivateFrame a) (active_dek ctx.platform ctx.now a).0 _
      (λ key t k. sealed key t k) _
      (let taken = active_dek-KeyFrame ctx.platform a ctx.now a refl in ground arith)
  where
    sealed : (key : ℕ × List ℕ) → Keeps (PrivateFrame a) (seal_and_store ctx tab key)
    sealed key t k =
        continue-Keeps (PrivateFrame a)
          (seal ctx.platform key.1 (ctx.platform.random t.draws nonce_len) (aad tab.tab_key key.0)
            (ctx.platform.to_json (private_payload tab)))
          _ (λ c u q. ground arith) _ (ground arith)

-- A private tab reaches no table but `tabs_private`, whatever the outcome: `tabs`, from which
-- restore and any sync would read plaintext, is what it was.
pub ingest_tab_private :
    (ctx : IngestCtx) (tab : TabDelta) (db : Db)
    → tab.op ≡ upsert
    → tab.is_private ≡ true
    → PrivateFrame db (ingest_tab ctx tab db).1
unfolding ingest_tab
ingest_tab_private ctx tab db u p = elim (Bool-cases ctx.capture_private) [
  | inl c ↦ simp (u, p, c) (store_private-PrivateFrame ctx tab db)
  | inr c ↦ simp (u, p, c)
]

-- With capture of private windows off, a private tab changes nothing at all.
pub ingest_tab_dropped :
    (ctx : IngestCtx) (tab : TabDelta) (db : Db)
    → ctx.capture_private ≡ false
    → tab.op ≡ upsert
    → tab.is_private ≡ true
    → ingest_tab ctx tab db ≡ (ok tt, db)
unfolding ingest_tab
ingest_tab_dropped ctx tab db c u p = ground arith
