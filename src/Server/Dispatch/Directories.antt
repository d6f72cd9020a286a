-- ===== src/Server/Dispatch/Directories.antt =====
-- What the table of browsers holds of a profile.
use mathlib.Core.Path.{subst}
use mathlib.Core.Option
use session_restore.Common.{
  refl, sym, Bool, true, false, none, some, Option, List, [], ◌∷◌, String, All, if_both,
}
use session_restore.Common.Int.{ℤ}
use session_restore.Exec.{Keeps, Outcome}
use session_restore.Proto.{Envelope, StateBody}
use session_restore.Store.Schema.{StatusRow}
use session_restore.Restore.Offer.{Shared}
use session_restore.Watcher.Profiles.{Disk}
use session_restore.Watcher.Profiles.Safe.{
  IsKnownDir, profile_dir_from_command_line-IsKnownDir, last_used_profile_dir-IsKnownDir,
  directory_for_profile_id-IsKnownDir,
}
use session_restore.Server.State.{apply_state}
use session_restore.Restore.Runs.{apply_result}
use session_restore.Server.Dispatch.{
  System, Reply, MessageKind, hello, close_tabs_result, tab_delta, full_state, restore_result,
  other, kind_named, dispatch, on_message, on_hello, on_close_tabs_result, on_state,
  on_restore_result, put_status, status_row, record_status, hello_profile_dir, profile_for,
  same_status, or_else, dir_by_storage, dir_by_command_line, command_line_of, pid_of, non_empty,
  browser_of, reporter,
}
use session_restore.Server.Dispatch.Keeps.{on_db-Keeps}
use session_restore.Server.Dispatch.Status.{apply_state-Same, apply_result-Same}
use session_restore.Server.Dispatch.Offered.{maybe_offer_restore-Same}

-- Every directory name in the table is one of the known shape.
abbrev pub AreKnown : List StatusRow → Type 0
AreKnown rows = All (λ r. IsKnownDir r.profile_dir) rows

or_else-IsKnownDir : (a b : Option String) → IsKnownDir a → IsKnownDir b → IsKnownDir (or_else a b)
or_else-IsKnownDir none b h k = k
or_else-IsKnownDir (some d) b h k = h

dir_by_storage-IsKnownDir :
    (disk : Disk) (browser : String) (id : Option String)
    → IsKnownDir (dir_by_storage disk browser id)
dir_by_storage-IsKnownDir disk browser none = tt
dir_by_storage-IsKnownDir disk browser (some id) =
    directory_for_profile_id-IsKnownDir disk browser _ id

dir_by_command_line-IsKnownDir : (cmd : Option String) → IsKnownDir (dir_by_command_line cmd)
dir_by_command_line-IsKnownDir none = tt
dir_by_command_line-IsKnownDir (some cmd) = profile_dir_from_command_line-IsKnownDir cmd

hello_profile_dir-IsKnownDir :
    (sys : System) (env : Envelope) → IsKnownDir (hello_profile_dir sys env)
unfolding hello_profile_dir
hello_profile_dir-IsKnownDir sys env =
    or_else-IsKnownDir _ _
      (dir_by_storage-IsKnownDir sys.disk (browser_of env.src) (non_empty env.body.profile_id))
      (or_else-IsKnownDir _ _
        (dir_by_command_line-IsKnownDir (command_line_of sys (pid_of env.src)))
        (last_used_profile_dir-IsKnownDir sys.disk (browser_of env.src)))

put_status-AreKnown :
    (row : StatusRow) (rows : List StatusRow)
    → IsKnownDir row.profile_dir
    → AreKnown rows
    → AreKnown (put_status row rows)
unfolding put_status
put_status-AreKnown row [] h k = (h, tt)
put_status-AreKnown row (r ∷ rs) h (k, ks) =
    if_both AreKnown (same_status r row) _ _
      (or_else-IsKnownDir row.profile_dir r.profile_dir h k, ks)
      (k, put_status-AreKnown row rs h ks)

abbrev KnownIn : Shared → Type 0
KnownIn s = AreKnown s.db.browser_status

on_hello-KnownIn :
    (sys : System) (now : ℤ) (env : Envelope) (profile : String)
    → Keeps KnownIn (on_hello sys now env profile)
unfolding on_hello record_status
on_hello-KnownIn sys now env profile s h =
    let row = status_row sys now env profile in
    subst AreKnown
      (sym (
        maybe_offer_restore-Same (put_status row s.db.browser_status) sys.platform now
          (browser_of env.src) profile _ refl))
      (put_status-AreKnown row s.db.browser_status (hello_profile_dir-IsKnownDir sys env) h)

on_close_tabs_result-KnownIn : (env : Envelope) → Keeps KnownIn (on_close_tabs_result env)
unfolding on_close_tabs_result
on_close_tabs_result-KnownIn env s h =
    if_both (λ (r : Outcome (List Reply) × Shared). KnownIn r.1) _ _ _ h h

on_state-KnownIn :
    (sys : System) (now : ℤ) (authoritative : Bool) (env : Envelope) (profile : String)
    (body : Option StateBody)
    → Keeps KnownIn (on_state sys now authoritative env profile body)
unfolding on_state
on_state-KnownIn sys now authoritative env profile none = λ s h. h
on_state-KnownIn sys now authoritative env profile (some body) =
    on_db-Keeps KnownIn (apply_state sys.platform now body authoritative (reporter env profile))
      (λ s h.
        subst AreKnown
          (sym (
            apply_state-Same s.db.browser_status sys.platform now body authoritative
              (reporter env profile) s.db refl))
          h)

on_restore_result-KnownIn : (now : ℤ) (env : Envelope) → Keeps KnownIn (on_restore_result now env)
unfolding on_restore_result
on_restore_result-KnownIn now env =
    on_db-Keeps KnownIn (apply_result now (Option.get_or env.body.run_id 0) env.body.items) (λ s h.
      subst AreKnown
        (sym (
          apply_result-Same s.db.browser_status now (Option.get_or env.body.run_id 0) env.body.items
            s.db refl))
        h)

on_message-KnownIn :
    (kind : MessageKind) (sys : System) (now : ℤ) (env : Envelope) (profile : String)
    → Keeps KnownIn (on_message kind sys now env profile)
unfolding on_message
on_message-KnownIn hello sys now env profile = on_hello-KnownIn sys now env profile
on_message-KnownIn close_tabs_result sys now env profile = on_close_tabs_result-KnownIn env
on_message-KnownIn tab_delta sys now env profile =
    on_state-KnownIn sys now false env profile env.body.state
on_message-KnownIn full_state sys now env profile =
    on_state-KnownIn sys now true env profile env.body.state
on_message-KnownIn restore_result sys now env profile = on_restore_result-KnownIn now env
on_message-KnownIn other sys now env profile = λ s h. h

-- Only directory names of the known shape stand in the table of
-- browsers, which are three fixed names and `Profile ` before decimal digits: where this holds, it
-- holds after every message, whatever that message, the disk and the command lines say.
pub dispatch-AreKnown :
    (sys : System) (now : ℤ) (env : Envelope) (profile : Option String) (s : Shared)
    → AreKnown s.db.browser_status
    → AreKnown (dispatch sys now env profile s).1.db.browser_status
unfolding dispatch
dispatch-AreKnown sys now env profile s h =
    on_message-KnownIn (kind_named env.kind) sys now env (profile_for profile env.src) s h
