-- ===== src/Watcher/Profiles.antt =====
-- Which browser profile a session belongs to, and how to reopen it:
-- agent/crates/sr-agent/src/watcher/profiles.rs, and `profile_from_command_line` of processes.rs.
use Prim.Native.Char.{Char}
use Prim.Native.String.{len, ◌++◌ as append}
use session_restore.Common.{
  ℕ, String, Bool, true, false, not, ◌&&◌, ◌||◌, Option, none, some, List, [], ◌∷◌, ◌*◌, ◌==◌, ℕ_eq,
  String_eq, any, find, select, map, length, take, leb, ltb, if◌then◌else◌,
}
use session_restore.Common.Texts.{
  is_char, is_empty, all_chars, is_ascii_digit, strip_prefix, has_prefix, trim_end_matches,
  unquoted, to_ascii_lowercase, hex, split_from,
}
use session_restore.Store.Crypto.{as_bytes}
pub mod Safe

-- A profile directory name that is safe to store and replay.
abbrev pub is_number : Option String → Bool
is_number none = false
is_number (some n) = not (is_empty n) && all_chars is_ascii_digit n

unfoldable pub is_safe_profile_dir : String → Bool
unfolding strip_prefix all_chars
is_safe_profile_dir value =
    (value == "Default" || value == "Guest Profile" || value == "System Profile")
    || is_number (strip_prefix "Profile " value)

abbrev ends_arg : Char → Bool
ends_arg c = is_char b' ' c || is_char b'\t' c

-- `split_quoted`: splits a command line, keeping quoted runs together.
unfoldable pub split_quoted : String → List String
unfolding split_from
split_quoted cmd = split_from ends_arg false "" cmd

abbrev pub if_safe : String → Option String
if_safe v = if is_safe_profile_dir v then some v else none

abbrev pub named_dir : Option String → Option String → Option String
named_dir (some v) rest = if_safe (unquoted v)
named_dir none rest = rest

-- The first `--profile-directory` of a command line decides.
unfoldable pub profile_dir_of : List String → Option String
unfolding is_safe_profile_dir strip_prefix unquoted
profile_dir_of [] = none
profile_dir_of (arg ∷ args) =
    named_dir (strip_prefix "--profile-directory=" (unquoted arg)) (profile_dir_of args)

unfoldable pub profile_dir_from_command_line : String → Option String
unfolding profile_dir_of split_quoted
profile_dir_from_command_line cmd = profile_dir_of (split_quoted cmd)

-- What the JSON of Chromium's `Local State` says of its profiles, the texts of it.
pub record LocalState : Type 0 where
  pub last_used : Option String
  pub profiles_order : Option (List String)
  pub info_cache : Option (List String)

-- What is read from the disk. `local_state` is by the folder of user data, none where that does
-- not exist or is not readable JSON; `store` is by that folder, profile directory and extension,
-- none where it is no folder, and has the bytes of each entry that is a readable file; `origins` is
-- the `allowed_origins` of the manifest.
pub record Disk : Type 0 where
  pub local_state : String → Option LocalState
  pub store : String → String → String → Option (List (Option (List ℕ)))
  pub origins : Option (List String)

-- `user_data_dir`, below LOCALAPPDATA.
unfoldable pub user_data_dir : String → Option String
user_data_dir browser =
    if browser == "chrome"
    then some "Google\\Chrome\\User Data"
    else if browser == "edge"
    then some "Microsoft\\Edge\\User Data"
    else none

abbrev state_in : Disk → Option String → Option LocalState
state_in disk none = none
state_in disk (some folder) = disk.local_state folder

abbrev pub state_of : Disk → String → Option LocalState
state_of disk browser = state_in disk (user_data_dir browser)

abbrev pub safe_or_none : Option String → Option String
safe_or_none none = none
safe_or_none (some v) = if_safe v

abbrev pub last_used_in : Option LocalState → Option String
last_used_in none = none
last_used_in (some s) = safe_or_none s.last_used

-- The profile that Chromium would open if it were launched with no arguments.
unfoldable pub last_used_profile_dir : Disk → String → Option String
unfolding user_data_dir is_safe_profile_dir
last_used_profile_dir disk browser = last_used_in (state_of disk browser)

abbrev pub safe_only : Option (List String) → List String
safe_only none = []
safe_only (some dirs) = select is_safe_profile_dir dirs

abbrev pub or_else : List String → List String → List String
or_else [] ys = ys
or_else xs ys = xs

abbrev pub dirs_in : Option LocalState → List String
dirs_in none = []
dirs_in (some s) = or_else (safe_only s.profiles_order) (safe_only s.info_cache)

-- Every profile directory that the browser has; the keys of `info_cache` where there is no order.
unfoldable pub known_profile_dirs : Disk → String → List String
unfolding user_data_dir is_safe_profile_dir select
known_profile_dirs disk browser = dirs_in (state_of disk browser)

abbrev eight_mib : ℕ
eight_mib = 8 * 1024 * 1024

-- Whether the bytes begin with the needle.
unfoldable pub begins_with : List ℕ → List ℕ → Bool
begins_with [] bytes = true
begins_with (n ∷ ns) [] = false
begins_with (n ∷ ns) (b ∷ bs) = b == n && begins_with ns bs

-- bytes.windows(needle.len()).any(|w| w == needle)
unfoldable pub has_window : List ℕ → List ℕ → Bool
unfolding begins_with
has_window needle [] = false
has_window needle (b ∷ bs) = begins_with needle (b ∷ bs) || has_window needle bs

unfoldable pub contains_bytes : List ℕ → Option (List ℕ) → Bool
unfolding has_window
contains_bytes needle none = false
contains_bytes needle (some bytes) = leb (length bytes) eight_mib && has_window needle bytes

abbrev entry_has : List ℕ → Option (List (Option (List ℕ))) → Bool
entry_has needle none = false
entry_has needle (some entries) = any (contains_bytes needle) entries

-- The first directory in which a registered extension's storage has the id.
unfoldable pub scan_for_profile_id :
    Disk → String → List String → List String → List ℕ → Option String
unfolding contains_bytes any find
scan_for_profile_id disk base dirs exts needle =
    find (λ dir. any (λ ext. entry_has needle (disk.store base dir ext)) exts) dirs

abbrev pub scan_below : Disk → String → List String → String → Option String → Option String
scan_below disk browser exts profile_id none = none
scan_below disk browser exts profile_id (some base) =
    scan_for_profile_id disk base (known_profile_dirs disk browser) exts (as_bytes profile_id)

unfoldable pub directory_for_profile_id : Disk → String → List String → String → Option String
unfolding scan_for_profile_id known_profile_dirs user_data_dir
directory_for_profile_id disk browser exts profile_id =
    if ltb (len profile_id) 8
    then none
    else scan_below disk browser exts profile_id (user_data_dir browser)

abbrev extension_id : String → Option String
extension_id origin = strip_prefix "chrome-extension://" origin

unfoldable pub extension_ids : List String → List String
unfolding strip_prefix trim_end_matches
extension_ids [] = []
extension_ids (o ∷ os) =
    let rest = extension_ids os in
    elim (extension_id o) [
      | none ↦ rest
      | some id ↦
          let trimmed = trim_end_matches (is_char b'/') id in
          if is_empty trimmed then rest else trimmed ∷ rest
    ]

-- The extension ids that the agent has registered.
unfoldable pub registered_extension_ids : Disk → List String
unfolding extension_ids
registered_extension_ids disk = elim disk.origins [ none ↦ [] | some os ↦ extension_ids os ]

-- The arguments that a launch gets for a stored directory name.
unfoldable pub launch_args_for : String → Option String → List String
unfolding is_safe_profile_dir
launch_args_for browser none = []
launch_args_for browser (some dir) =
    if is_safe_profile_dir dir
    then (if browser == "chrome" || browser == "edge"
        then append "--profile-directory=" dir ∷ []
        else [])
    else []

abbrev is_profile_flag : String → Bool
is_profile_flag lower = lower == "-p" || lower == "--profile" || lower == "-profile"

-- The profile that the arguments name: a `--profile` flag takes the next argument unless that is a
-- flag itself.
unfoldable pub raw_profile : List String → Option String
unfolding to_ascii_lowercase strip_prefix unquoted
raw_profile [] = none
raw_profile (arg ∷ args) =
    let rest = raw_profile args in
    let lower = to_ascii_lowercase arg in
    elim (strip_prefix "--profile-directory=" lower) [
      | some v ↦ some (unquoted v)
      | none ↦ elim (strip_prefix "--profile=" lower) [
        | some v ↦ some (unquoted v)
        | none ↦
            if is_profile_flag lower
            then elim args [
              | [] ↦ rest
              | next ∷ _ ↦
                  if has_prefix "-" next then rest else some (to_ascii_lowercase (unquoted next))
            ]
            else rest
      ]
    ]

-- The key of a profile: a hash, since a profile path can contain the user's name.
unfoldable pub profile_key_of : (List ℕ → List ℕ) → Option String → String
unfolding hex
profile_key_of sha256 none = "default"
profile_key_of sha256 (some v) =
    if is_empty v || v == "default" then "default" else hex (take 6 (sha256 (as_bytes v)))

unfoldable pub profile_from_command_line : (List ℕ → List ℕ) → String → String
unfolding raw_profile split_quoted profile_key_of
profile_from_command_line sha256 cmd = profile_key_of sha256 (raw_profile (split_quoted cmd))

-- The best guess at the directory that a connected browser shows.
unfoldable pub resolve_profile_dir : Disk → String → Option String → Option String
unfolding profile_dir_from_command_line last_used_profile_dir
resolve_profile_dir disk browser none = last_used_profile_dir disk browser
resolve_profile_dir disk browser (some cmd) = elim (profile_dir_from_command_line cmd) [
  | some dir ↦ some dir
  | none ↦ last_used_profile_dir disk browser
]
