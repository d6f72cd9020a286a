-- ===== src/Relay.antt =====
-- The native messaging relay: agent/crates/sr-relay/src/main.rs. The text of a JSON value is serde's,
-- a parameter; so is the table of processes.
use session_restore.Common.{
  ℕ, zero, suc, String, Bool, true, false, not, ◌&&◌, ◌||◌, Option, none, some, List, [], ◌∷◌, ◌==◌,
  ℕ_eq, String_eq, if◌then◌else◌, contains, any,
}
use Prim.Native.String
use text.Mathlib.Text.{is_lt}
use session_restore.Common.Texts.{has_text, to_ascii_lowercase, to_decimal}
pub mod Stamp
pub mod Ancestors

-- A JSON value; a number is kept as its text. The fields of an object are in the order of their
-- names.
mutual
  pub data Json : Type 0 where
    null : Json
    boolean : Bool → Json
    number : String → Json
    string : String → Json
    array : Items → Json
    object : Fields → Json

  pub data Items : Type 0 where
    no_items : Items
    item : Json → Items → Items

  pub data Fields : Type 0 where
    no_fields : Fields
    field : String → Json → Fields → Fields

unfoldable pub get_field : String → Fields → Option Json
get_field k no_fields = none
get_field k (field j v rest) = if j == k then some v else get_field k rest

-- `Map::insert`
unfoldable pub insert_field : String → Json → Fields → Fields
insert_field k v no_fields = field k v no_fields
insert_field k v (field j w rest) =
    let further = insert_field k v rest in
    if j == k
    then field j v rest
    else if is_lt (String.compare k j)
    then field k v (field j w rest)
    else field j w further

-- The texts of JSON values, as serde_json reads and writes them.
pub record Serde : Type 0 where
  pub parse : List ℕ → Option Json
  pub print : Json → List ℕ

abbrev field_of : String → Json → Option Json
field_of k (object fs) = get_field k fs
field_of k _ = none

abbrev as_text : Option Json → String
as_text (some (string s)) = s
as_text _ = "unknown"

abbrev version_in : Option Json → String
version_in none = "unknown"
version_in (some body) = as_text (field_of "ext_version" body)

abbrev pid_json : Option ℕ → Json
pid_json none = null
pid_json (some pid) = number (to_decimal pid)

-- What the relay says of itself.
unfoldable pub source : String → Option ℕ → Fields → Json
source browser pid fs = object (
    field "browser" (string browser) (
      field "browser_pid" (pid_json pid) (
        field "ext_version" (string (version_in (get_field "body" fs)))
          (field "profile_key" (string "default") no_fields))))

abbrev pub stamp : String → Option ℕ → Json → Json
stamp browser pid (object fs) = object (insert_field "src" (source browser pid fs) fs)
stamp browser pid v = v

abbrev pub stamped : Serde → String → Option ℕ → List ℕ → Option Json → List ℕ
stamped serde browser pid raw none = raw
stamped serde browser pid raw (some v) = serde.print (stamp browser pid v)

-- Overwrites `src` on an inbound message with what the relay determined itself.
unfoldable pub stamp_source : Serde → String → Option ℕ → List ℕ → List ℕ
stamp_source serde browser pid raw = stamped serde browser pid raw (serde.parse raw)

-- The parent and the image name of a process, by its id.
abbrev pub Processes : Type 0
Processes = ℕ → Option (ℕ × String)

abbrev pub named : Option (ℕ × String) → ℕ → List (String × ℕ) → List (String × ℕ)
named none pid rest = []
named (some (_, name)) pid rest = (name, pid) ∷ rest

abbrev pub climb :
    Processes → List ℕ → Option (ℕ × String) → (List ℕ → ℕ → List (String × ℕ)) → List (String × ℕ)
climb table seen none next = []
climb table seen (some (parent, _)) next =
    if parent == 0 || contains parent seen
    then []
    else named (table parent) parent (next (parent ∷ seen) parent)

-- The ancestors, nearest first, up to a number of levels; stops on a cycle.
unfoldable pub ancestors : Processes → ℕ → List ℕ → ℕ → List (String × ℕ)
ancestors table zero seen pid = []
ancestors table (suc levels) seen pid =
    climb table seen (table pid) (λ s p. ancestors table levels s p)

unfoldable pub ancestor_processes : Processes → ℕ → ℕ → List (String × ℕ)
ancestor_processes table levels pid = ancestors table levels [] pid

unfoldable pub first_browser : List (String × ℕ) → String × Option ℕ
first_browser [] = ("chrome", none)
first_browser ((name, pid) ∷ rest) =
    let n = to_ascii_lowercase name in
    let further = first_browser rest in
    if has_text "firefox" n
    then ("firefox", some pid)
    else if has_text "msedge" n
    then ("edge", some pid)
    else if has_text "chrome" n
    then ("chrome", some pid)
    else further

-- The browser that started the relay, and its process.
unfoldable pub detect_browser_with_pid : Processes → ℕ → String × Option ℕ
detect_browser_with_pid table pid = first_browser (ancestor_processes table 6 pid)
