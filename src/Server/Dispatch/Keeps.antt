-- ===== src/Server/Dispatch/Keeps.antt =====
-- What a message keeps, whatever its type.
use mathlib.Core.Option
use session_restore.Common.{Bool, true, false, none, some, Option, String, List, [], if_both}
use session_restore.Common.Int.{ℤ}
use session_restore.Exec.{Outcome, Exec, Keeps, pure, ◌>>◌, continue-Keeps}
use session_restore.Proto.{Envelope, StateBody}
use session_restore.Store.Crypto.{Platform}
use session_restore.Store.Db.{Db}
use session_restore.Restore.Offer.{Shared, maybe_offer_restore}
use session_restore.Server.State.{apply_state}
use session_restore.Restore.Runs.{apply_result}
use session_restore.Server.Dispatch.{
  System, Reply, MessageKind, hello, close_tabs_result, tab_delta, full_state, restore_result,
  other, kind_named, dispatch, on_message, on_db, on_hello, on_close_tabs_result, on_state,
  on_restore_result, profile_for, reporter,
}

-- What a call on the database keeps, a handler that makes the call keeps.
pub on_db-Keeps :
    {A : Type 0} (P : Shared → Type 0) (m : Exec Db A)
    → ((s : Shared) → P s → P (record s { db = (m s.db).1 }))
    → Keeps P (on_db m >> pure {A = List Reply} [])
on_db-Keeps P m keep s h = continue-Keeps P (m s.db).0 _ (λ _ t k. k) _ (keep s h)

-- What does not look at the database is kept, if the offers keep it.
module _ (P : Shared → Type 0) (apart : (s : Shared) (db : Db) → P s → P (record s { db = db }))
    (offer : (p : Platform) (now : ℤ) (browser profile : String)
      → Keeps P (maybe_offer_restore p now browser profile)) where
  on_hello-Keeps :
      (sys : System) (now : ℤ) (env : Envelope) (profile : String)
      → Keeps P (on_hello sys now env profile)
  unfolding on_hello
  on_hello-Keeps sys now env profile s h = offer sys.platform now _ profile _ (apart s _ h)

  on_close_tabs_result-Keeps : (env : Envelope) → Keeps P (on_close_tabs_result env)
  unfolding on_close_tabs_result
  on_close_tabs_result-Keeps env s h =
      if_both (λ (r : Outcome (List Reply) × Shared). P r.1) _ _ _ (apart s _ h) h

  on_state-Keeps :
      (sys : System) (now : ℤ) (authoritative : Bool) (env : Envelope) (profile : String)
      (body : Option StateBody)
      → Keeps P (on_state sys now authoritative env profile body)
  unfolding on_state
  on_state-Keeps sys now authoritative env profile none s h = h
  on_state-Keeps sys now authoritative env profile (some body) s h =
      on_db-Keeps P (apply_state sys.platform now body authoritative (reporter env profile))
        (λ t k. apart t _ k) s h

  on_restore_result-Keeps : (now : ℤ) (env : Envelope) → Keeps P (on_restore_result now env)
  unfolding on_restore_result
  on_restore_result-Keeps now env s h =
      on_db-Keeps P (apply_result now (Option.get_or env.body.run_id 0) env.body.items)
        (λ t k. apart t _ k) s h

  on_message-Keeps :
      (kind : MessageKind) (sys : System) (now : ℤ) (env : Envelope) (profile : String)
      → Keeps P (on_message kind sys now env profile)
  unfolding on_message
  on_message-Keeps hello sys now env profile = on_hello-Keeps sys now env profile
  on_message-Keeps close_tabs_result sys now env profile = on_close_tabs_result-Keeps env
  on_message-Keeps tab_delta sys now env profile =
      on_state-Keeps sys now false env profile env.body.state
  on_message-Keeps full_state sys now env profile =
      on_state-Keeps sys now true env profile env.body.state
  on_message-Keeps restore_result sys now env profile = on_restore_result-Keeps now env
  on_message-Keeps other sys now env profile = λ s h. h

  pub dispatch-Keeps :
      (sys : System) (now : ℤ) (env : Envelope) (profile : Option String)
      → Keeps P (dispatch sys now env profile)
  unfolding dispatch
  dispatch-Keeps sys now env profile =
      on_message-Keeps (kind_named env.kind) sys now env (profile_for profile env.src)
