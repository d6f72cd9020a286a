-- ===== src/Server/Session/Attribution.antt =====
-- Which profile the data of a connection goes to.
use mathlib.Core.Path.{subst}
use session_restore.Exec.{Outcome}
use session_restore.Common.{
  ℕ, ◌≡◌, refl, ap, sym, ◌∙◌, String, Bool, true, false, none, some, Option, List, [], if_both,
  if◌then◌else◌, ◌∷◌,
}
use session_restore.Common.Int.{ℤ}
use session_restore.Proto.{Envelope, MessageSource, StateBody, is_too_new, protocol_version}
use session_restore.Restore.Offer.{Shared}
use session_restore.Server.Dispatch.{
  System, Reply, version_too_new, MessageKind, hello, close_tabs_result, tab_delta, full_state,
  restore_result, other, kind_named, dispatch, on_message, on_state, hello_profile_dir,
}
use session_restore.Server.Session.{
  Session, replies_of, register_as, handle, handle_with, next_profile, register_once,
}

-- The message with another profile stamped on it.
abbrev restamp_source : String → Option MessageSource → Option MessageSource
restamp_source key none = none
restamp_source key (some src) = some (record src { profile_key = key })

abbrev pub restamp : String → Envelope → Envelope
restamp key env = record env { src = restamp_source key env.src }

module _ (sys : System) (key : String) (now : ℤ) where
  on_state-restamp :
      (authoritative : Bool) (env : Envelope) (src : MessageSource) (profile : String)
      (body : Option StateBody)
      → on_state sys now authoritative
          (record env { src = restamp_source key (some src) })
          profile
          body
        ≡ on_state sys now authoritative (record env { src = some src }) profile body
  unfolding on_state
  on_state-restamp authoritative env src profile none = refl
  on_state-restamp authoritative env src profile (some body) = refl

  on_message-restamp :
      (kind : MessageKind) (env : Envelope) (src : Option MessageSource) (profile : String)
      → on_message kind sys now (record env { src = restamp_source key src }) profile
        ≡ on_message kind sys now (record env { src = src }) profile
  unfolding on_message hello_profile_dir
  on_message-restamp hello env none profile = refl
  on_message-restamp hello env (some src) profile = refl
  on_message-restamp close_tabs_result env none profile = refl
  on_message-restamp close_tabs_result env (some src) profile = refl
  on_message-restamp tab_delta env none profile = refl
  on_message-restamp tab_delta env (some src) profile =
      on_state-restamp false env src profile env.body.state
  on_message-restamp full_state env none profile = refl
  on_message-restamp full_state env (some src) profile =
      on_state-restamp true env src profile env.body.state
  on_message-restamp restore_result env none profile = refl
  on_message-restamp restore_result env (some src) profile = refl
  on_message-restamp other env none profile = refl
  on_message-restamp other env (some src) profile = refl

  pub dispatch-restamp :
      (env : Envelope) (profile : String) (s : Shared)
      → dispatch sys now (restamp key env) (some profile) s ≡ dispatch sys now env (some profile) s
  unfolding dispatch
  dispatch-restamp env profile s =
      ap (λ f. f s) (on_message-restamp (kind_named env.kind) env env.src profile)

  next_profile-restamp :
      (env : Envelope) (src : Option MessageSource) (profile : Option String)
      → next_profile sys (record env { src = restamp_source key src }) profile
        ≡ next_profile sys (record env { src = src }) profile
  unfolding next_profile
  next_profile-restamp env none profile = refl
  next_profile-restamp env (some src) profile = refl

  register_once-restamp :
      (id : ℕ) (env : Envelope) (src : Option MessageSource) (s : Session)
      → register_once id (record env { src = restamp_source key src }) s
        ≡ register_once id (record env { src = src }) s
  unfolding register_once
  register_once-restamp id env none s = refl
  register_once-restamp id env (some src) s = refl

  register_once-profile :
      (id : ℕ) (env : Envelope) (src : Option MessageSource) (s : Session)
      → (register_once id (record env { src = src }) s).profile ≡ s.profile
  unfolding register_once
  register_once-profile id env none s =
      if_both (λ (t : Session). t.profile ≡ s.profile) _ _ _ refl refl
  register_once-profile id env (some src) s =
      if_both (λ (t : Session). t.profile ≡ s.profile) s.registered s (register_as id (some src) s)
        refl refl

  handle_with-restamp :
      (env : Envelope) (t : Session) (profile : String)
      → t.profile ≡ some profile
      → handle_with sys now (restamp key env) t ≡ handle_with sys now env t
  handle_with-restamp env t profile h =
      ap
        (λ (done : Outcome (List Reply) × Shared).
          (replies_of done.0, record t { shared = done.1 }))
        (subst
          (λ o. dispatch sys now (restamp key env) o t.shared ≡ dispatch sys now env o t.shared)
          (sym h) (dispatch-restamp env profile t.shared))

-- The profile that is stamped on a message by the relay has no influence once the connection has a
-- profile, from the extension, from an earlier message or from the browser's command line: the
-- answers, what is stored and who is registered are the same whatever the stamp says.
pub handle-restamp :
    (sys : System) (key : String) (now : ℤ) (id : ℕ) (env : Envelope) (s : Session)
    (profile : String)
    → next_profile sys env s.profile ≡ some profile
    → handle sys id now (restamp key env) s ≡ handle sys id now env s
unfolding handle
handle-restamp sys key now id env s profile h =
    let known = record s { profile = next_profile sys env s.profile } in
    let t = register_once id env known in
    let same : register_once id (restamp key env)
          (record s { profile = next_profile sys (restamp key env) s.profile })
        ≡ t =
      ap (λ o. register_once id (restamp key env) (record s { profile = o }))
        (next_profile-restamp sys key now env env.src s.profile)
      ∙ register_once-restamp sys key now id env env.src known in
    ap
      (λ (r : List Reply × Session).
        if is_too_new env.v then (version_too_new protocol_version ∷ [], s) else r)
      (ap (handle_with sys now (restamp key env)) same
        ∙ handle_with-restamp sys key now env t profile
            (register_once-profile sys key now id env env.src known ∙ h))
