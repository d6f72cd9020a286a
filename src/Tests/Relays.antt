-- ===== src/Tests/Relays.antt =====
-- The relay.
use session_restore.Common.{
  ◌≡◌, refl, none, some, [], ◌∷◌, ◌==◌, ℕ_eq, String_eq, if◌then◌else◌, any,
}
use session_restore.Common.Texts.{has_text, strip_prefix, to_ascii_lowercase}
use session_restore.Relay.{
  Json, Fields, no_fields, field, string, object, insert_field, Serde, stamp_source, Processes,
  ancestors, ancestor_processes, first_browser, detect_browser_with_pid,
}
use session_restore.Relay.Stamp.{stamp_source_forged}
use session_restore.Relay.Ancestors.{IsWalk, ancestor_processes-IsWalk}

-- A process 7 below Edge's broker 5 below Edge 3, whose parent is 5 again.
abbrev cycle : Processes
cycle pid =
    if pid == 7
    then some (5, "sr-relay.exe")
    else if pid == 5
    then some (3, "broker.exe")
    else if pid == 3
    then some (5, "MsEdge.exe")
    else none

ancestor_processes-cycle : ancestor_processes cycle 6 7 ≡ ("broker.exe", 5) ∷ ("MsEdge.exe", 3) ∷ []
unfolding ancestor_processes ancestors any
ancestor_processes-cycle = refl

detect_browser_with_pid-cycle : detect_browser_with_pid cycle 7 ≡ ("edge", some 3)
unfolding detect_browser_with_pid first_browser ancestor_processes ancestors any has_text
    strip_prefix to_ascii_lowercase
detect_browser_with_pid-cycle = refl

ancestor_processes-IsWalk_example : IsWalk cycle [] 6 (ancestor_processes cycle 6 7)
ancestor_processes-IsWalk_example = ancestor_processes-IsWalk cycle 6 7

-- Two messages, told apart by their first byte; what is printed is the second form.
abbrev said : Fields
said = field "id" (string "a") (field "type" (string "hello") no_fields)

abbrev claimed : Json
claimed = string "edge"

abbrev two_messages : Serde
two_messages = record {
  parse = λ bytes. elim bytes [
    | [] ↦ some (object said)
    | _ ∷ _ ↦ some (object (insert_field "src" claimed said))
  ];
  print = λ v. [];
}

stamp_source_forged_example :
    stamp_source two_messages "firefox" (some 42) (1 ∷ [])
    ≡ stamp_source two_messages "firefox" (some 42) []
stamp_source_forged_example =
    stamp_source_forged two_messages "firefox" (some 42) [] (1 ∷ []) claimed said refl refl
