-- ===== src/Watcher/Redaction.antt =====
-- Command lines as they are stored: `split_args`, `redact_command_line` and `extract_documents` of
-- agent/crates/sr-agent/src/watcher/identity.rs. `lower` is Unicode lower case.
use Prim.Native.Char.{Char, code}
use Prim.Native.String
use Prim.Native.String.{len, ◌++◌ as append}
use text.Mathlib.Text.{get?}
use mathlib.Core.Option
use session_restore.Common.{
  ℕ, ◌-◌, String, Bool, true, false, not, ◌&&◌, ◌||◌, Option, none, some, List, [], ◌∷◌, ◌++◌, ◌==◌,
  ℕ_eq, String_eq, any, map, contains, leb, ltb, length, if◌then◌else◌, select,
}
use session_restore.Common.Texts.{
  is_char, is_empty, any_char, has_prefix, has_suffix, has_text, trim_start_matches, unquoted,
  split_from, split_once, join, to_decimal, is_whitespace, to_ascii_lowercase, strip_prefix,
}
pub mod Secrecy

-- `split_args`: splits a command line, honouring double quotes.
unfoldable pub split_args : String → List String
unfolding split_from is_whitespace
split_args cmd = split_from is_whitespace false "" cmd

abbrev pub secret_keys : List String
secret_keys =
    "password" ∷ "passwd" ∷ "pwd" ∷ "token" ∷ "access_token" ∷ "refresh_token" ∷ "api_key"
    ∷ "apikey" ∷ "secret" ∷ "client_secret" ∷ "client-secret" ∷ "auth" ∷ "authorization" ∷ "session"
    ∷ "sessionid" ∷ "session_id" ∷ "key" ∷ []

-- <redacted:n>
unfoldable pub sentinel : ℕ → String
unfolding to_decimal
sentinel n = append "<redacted:" (append (to_decimal n) ">")

abbrev pub is_sep : Char → Bool
is_sep c = is_char b'=' c || is_char b':' c

abbrev is_dash : Char → Bool
is_dash c = is_char b'-' c || is_char b'/' c

-- Whether the part before the separator names a secret; a drive letter does not.
unfoldable pub names_secret : (String → String) → String → Bool
unfolding any has_suffix trim_start_matches
names_secret lower name =
    let stem = lower (trim_start_matches is_dash name) in
    ltb 1 (len stem) && any (λ k. has_suffix k stem) secret_keys

abbrev char_text : Char → String
char_text c = String.◌∷◌ c String.[]

-- Recognisable credential shapes, wherever they appear.
unfoldable pub is_credential : String → String → Bool
unfolding strip_prefix
is_credential lowered arg =
    has_prefix "bearer " lowered
    || (has_prefix "eyJ" arg
        || ((has_prefix "ghp_" arg && ltb 20 (len arg))
            || ((has_prefix "AKIA" arg && len arg == 20)
                || (has_prefix "xox" arg && ltb 20 (len arg)))))

abbrev is_url : String → Bool
is_url lowered = has_prefix "http://" lowered || has_prefix "https://" lowered

-- The URL up to its query.
abbrev pub cut_query : Option (String × Char × String) → Option String
cut_query none = none
cut_query (some (front, mark, query)) = some (append front (append "?" (sentinel (len query))))

-- The rules on the whole of an argument.
unfoldable pub redact_whole : (String → String) → String → Option String
unfolding is_credential split_once strip_prefix
redact_whole lower arg =
    if is_credential (lower arg) arg
    then some (sentinel (len arg))
    else if is_url (lower arg)
    then cut_query (split_once (is_char b'?') arg)
    else none

abbrev pub redact_split :
    (String → String) → String → Option (String × Char × String) → Option String
redact_split lower arg none = redact_whole lower arg
redact_split lower arg (some (name, sep, value)) =
    if not (is_empty value) && names_secret lower name
    then some (append name (append (char_text sep) (sentinel (len value))))
    else redact_whole lower arg

-- `redact_arg`: what is stored in place of an argument, if it is not kept.
unfoldable pub redact_arg : (String → String) → String → Option String
unfolding redact_whole names_secret split_once
redact_arg lower arg = redact_split lower arg (split_once is_sep arg)

abbrev pub is_some {ℓ} : {A : Type ℓ} → Option A → Bool
is_some none = false
is_some (some _) = true

unfoldable pub redact_all : (String → String) → List String → List String × Bool
unfolding redact_arg
redact_all lower [] = ([], false)
redact_all lower (arg ∷ args) =
    let rest = redact_all lower args in
    let r = redact_arg lower arg in (Option.get_or r arg ∷ rest.0, is_some r || rest.1)

-- The redacted command line, and whether anything was redacted.
unfoldable pub redact_command_line : (String → String) → String → String × Bool
unfolding redact_all split_args join
redact_command_line lower cmd =
    let done = redact_all lower (split_args cmd) in (join " " done.0, done.1)

-- The environment variables whose values are folded, with the texts that stand for them.
abbrev folded_vars : List (String × String)
folded_vars =
    ("LOCALAPPDATA", "%LOCALAPPDATA%")
    ∷ ("APPDATA", "%APPDATA%")
    ∷ ("ProgramFiles(x86)", "%ProgramFiles(x86)%")
    ∷ ("ProgramFiles", "%ProgramFiles%")
    ∷ ("ProgramData", "%ProgramData%")
    ∷ ("SystemRoot", "%SystemRoot%")
    ∷ ("USERPROFILE", "%USERPROFILE%")
    ∷ []

abbrev add_candidate : Option String → String → List (String × String) → List (String × String)
add_candidate none token rest = rest
add_candidate (some value) token rest = if is_empty value then rest else (value, token) ∷ rest

unfoldable pub env_candidates :
    (String → Option String) → List (String × String) → List (String × String)
env_candidates env [] = []
env_candidates env ((var, token) ∷ vars) = add_candidate (env var) token (env_candidates env vars)

-- `sort_by_key` on the length of the value, the longest first; equal lengths keep their order.
unfoldable pub insert_longest : String × String → List (String × String) → List (String × String)
insert_longest c [] = c ∷ []
insert_longest c (d ∷ ds) =
    let rest = insert_longest c ds in if ltb (len c.0) (len d.0) then d ∷ rest else c ∷ d ∷ ds

unfoldable pub longest_first : List (String × String) → List (String × String)
unfolding insert_longest
longest_first [] = []
longest_first (c ∷ cs) = insert_longest c (longest_first cs)

abbrev eq_ignore_ascii_case : String → String → Bool
eq_ignore_ascii_case a b = to_ascii_lowercase a == to_ascii_lowercase b

-- A slice that is cut inside a character panics, which is none here.
abbrev pub fold_one : String × String → String → Option String → Option String → Option String
fold_one c path none rest = none
fold_one c path (some head) rest =
    if eq_ignore_ascii_case head c.0
    then Option.map (append c.1) (get? path (len c.0) (len path))
    else rest

unfoldable pub fold_with : List (String × String) → String → Option String
unfolding to_ascii_lowercase
fold_with [] path = some path
fold_with (c ∷ cs) path =
    let rest = fold_with cs path in
    if leb (len c.0) (len path) then fold_one c path (get? path 0 (len c.0)) rest else rest

-- Replaces a well-known prefix with its environment variable; the longest prefix wins.
unfoldable pub fold_env : (String → Option String) → String → Option String
unfolding fold_with longest_first env_candidates
fold_env env path = fold_with (longest_first (env_candidates env folded_vars)) path

abbrev second_is_colon : String → Bool
second_is_colon (String.◌∷◌ c (String.◌∷◌ d s)) = ltb (code c) 128 && is_char b':' d
second_is_colon s = false

-- Not a flag, not a redacted argument, and a drive letter or a UNC prefix.
unfoldable pub looks_like_document : String → Bool
unfolding has_text strip_prefix
looks_like_document t =
    not (is_empty t || (has_prefix "-" t || has_prefix "/" t))
    && (not (has_text "<redacted:" t)
        && (ltb 2 (len t) && (second_is_colon t || has_prefix "\\\\" t)))

abbrev push_new : Option String → List String → Option (List String)
push_new none out = none
push_new (some doc) out = some (if contains doc out then out else out ++ (doc ∷ []))

abbrev pub continue_with :
    (List String → Option (List String)) → Option (List String) → Option (List String)
continue_with rest none = none
continue_with rest (some out) = rest out

-- The loop over the arguments after the first; none where `fold_env` panics.
unfoldable pub documents_from :
    (String → Option String) → (String → Bool) → List String → List String → Option (List String)
unfolding looks_like_document fold_env unquoted
documents_from env exists out [] = some out
documents_from env exists out (arg ∷ args) =
    let t = unquoted arg in
    continue_with (λ next. documents_from env exists next args)
      (if looks_like_document t && exists t then push_new (fold_env env t) out else some out)

abbrev after_first : List String → List String
after_first [] = []
after_first (exe ∷ args) = args

-- The documents that an application was opened with, as far as they exist.
unfoldable pub extract_documents :
    (String → Option String) → (String → Bool) → String → Option (List String)
unfolding documents_from split_args
extract_documents env exists cmd = documents_from env exists [] (after_first (split_args cmd))
