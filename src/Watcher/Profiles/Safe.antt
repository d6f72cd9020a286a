-- ===== src/Watcher/Profiles/Safe.antt =====
-- A directory name that is found is one of the known shape.
use session_restore.Common.{
  ◌≡◌, refl, String, Bool, true, false, none, some, Option, List, [], ◌∷◌, arith, All, All-imp,
  nat_eq, nat_eq_iff, not, ◌==◌, String_eq, eq_of_==, &&-true, find, select, select-All, Bool-cases,
  if_both, inl, inr, ltb,
}
use session_restore.Watcher.Profiles.{
  Disk, LocalState, is_safe_profile_dir, if_safe, profile_dir_of, profile_dir_from_command_line,
  state_of, last_used_profile_dir, known_profile_dirs, scan_for_profile_id,
  directory_for_profile_id, user_data_dir, is_number, named_dir, split_quoted, safe_or_none,
  safe_only, or_else, dirs_in, last_used_in, scan_below,
}
use Prim.Native.String.{len, ◌++◌ as append}
use Prim.Native.Char.{code}
use text.Mathlib.TextEquality.{Char-path}
use text.Mathlib.TextLemmas.{nil-append, cons-append}
use session_restore.Common.Texts.{is_empty, all_chars, is_ascii_digit, strip_prefix, unquoted}

strip_prefix-append : (p s r : String) → strip_prefix p s ≡ some r → s ≡ append p r
unfolding strip_prefix
strip_prefix-append String.[] s r h = cc (nil-append r)
strip_prefix-append (String.◌∷◌ p ps) String.[] r h = cc
strip_prefix-append (String.◌∷◌ p ps) (String.◌∷◌ c s) r h =
    elim (Bool-cases (nat_eq (code c) (code p))) [
      | inl same ↦
          let tail = strip_prefix-append ps s r (ground (arith, same, h)) in
          let head = Char-path c p ((nat_eq_iff (code c) (code p)).0 same) in
          cc (tail, head, cons-append p ps r)
      | inr apart ↦ absurd (ground (arith, apart, h))
    ]

-- A name that Chromium gives a profile directory.
pub data KnownDir (dir : String) : Type 0 where
  default_dir : dir ≡ "Default" → KnownDir dir
  guest_dir : dir ≡ "Guest Profile" → KnownDir dir
  system_dir : dir ≡ "System Profile" → KnownDir dir
  numbered_dir :
      (digits : String)
      → dir ≡ append "Profile " digits
      → is_empty digits ≡ false
      → all_chars is_ascii_digit digits ≡ true
      → KnownDir dir

safe_known : (dir : String) → is_safe_profile_dir dir ≡ true → KnownDir dir
unfolding is_safe_profile_dir
safe_known dir h = elim (Bool-cases (dir == "Default")) [
  | inl e ↦ default_dir (eq_of_== dir "Default" e)
  | inr no_default ↦ elim (Bool-cases (dir == "Guest Profile")) [
    | inl e ↦ guest_dir (eq_of_== dir "Guest Profile" e)
    | inr no_guest ↦ elim (Bool-cases (dir == "System Profile")) [
      | inl e ↦ system_dir (eq_of_== dir "System Profile" e)
      | inr no_system ↦
          let left : is_number (strip_prefix "Profile " dir) ≡ true =
            ground (arith, h, no_default, no_guest, no_system) in
          numbered (strip_prefix "Profile " dir) refl left
    ]
  ]
]
  where
    numbered :
        (o : Option String) → strip_prefix "Profile " dir ≡ o → is_number o ≡ true → KnownDir dir
    numbered none e k = cc
    numbered (some n) e k =
        numbered_dir n (strip_prefix-append "Profile " dir n e) (ground (arith, k))
          (&&-true (not (is_empty n)) (all_chars is_ascii_digit n) k).1

-- Either no name, or a known one.
abbrev pub IsKnownDir : Option String → Type 0
IsKnownDir none = Unit
IsKnownDir (some dir) = KnownDir dir

if_safe-IsKnownDir : (v : String) → IsKnownDir (if_safe v)
if_safe-IsKnownDir v = elim (Bool-cases (is_safe_profile_dir v)) [
  | inl safe ↦ rw safe (safe_known v safe)
  | inr unsafe ↦ rw unsafe tt
]

named_dir-IsKnownDir :
    (named rest : Option String) → IsKnownDir rest → IsKnownDir (named_dir named rest)
named_dir-IsKnownDir none rest h = h
named_dir-IsKnownDir (some v) rest h = if_safe-IsKnownDir (unquoted v)

profile_dir_of-IsKnownDir : (args : List String) → IsKnownDir (profile_dir_of args)
unfolding profile_dir_of
profile_dir_of-IsKnownDir [] = tt
profile_dir_of-IsKnownDir (arg ∷ args) =
    named_dir-IsKnownDir (strip_prefix "--profile-directory=" (unquoted arg)) (profile_dir_of args)
      (profile_dir_of-IsKnownDir args)

pub profile_dir_from_command_line-IsKnownDir :
    (cmd : String) → IsKnownDir (profile_dir_from_command_line cmd)
unfolding profile_dir_from_command_line
profile_dir_from_command_line-IsKnownDir cmd = profile_dir_of-IsKnownDir (split_quoted cmd)

safe_or_none-IsKnownDir : (o : Option String) → IsKnownDir (safe_or_none o)
safe_or_none-IsKnownDir none = tt
safe_or_none-IsKnownDir (some v) = if_safe-IsKnownDir v

last_used_in-IsKnownDir : (state : Option LocalState) → IsKnownDir (last_used_in state)
last_used_in-IsKnownDir none = tt
last_used_in-IsKnownDir (some s) = safe_or_none-IsKnownDir s.last_used

pub last_used_profile_dir-IsKnownDir :
    (disk : Disk) (browser : String) → IsKnownDir (last_used_profile_dir disk browser)
unfolding last_used_profile_dir
last_used_profile_dir-IsKnownDir disk browser = last_used_in-IsKnownDir (state_of disk browser)

abbrev AreKnown : List String → Type 0
AreKnown dirs = All (λ dir. KnownDir dir) dirs

safe_only-AreKnown : (o : Option (List String)) → AreKnown (safe_only o)
safe_only-AreKnown none = tt
safe_only-AreKnown (some dirs) =
    All-imp _ _ (select is_safe_profile_dir dirs) safe_known (select-All is_safe_profile_dir dirs)

or_else-AreKnown : (xs ys : List String) → AreKnown xs → AreKnown ys → AreKnown (or_else xs ys)
or_else-AreKnown [] ys h k = k
or_else-AreKnown (x ∷ xs) ys h k = h

dirs_in-AreKnown : (state : Option LocalState) → AreKnown (dirs_in state)
dirs_in-AreKnown none = tt
dirs_in-AreKnown (some s) =
    or_else-AreKnown _ _ (safe_only-AreKnown s.profiles_order) (safe_only-AreKnown s.info_cache)

find-IsKnownDir :
    (p : String → Bool) (dirs : List String) → AreKnown dirs → IsKnownDir (find p dirs)
unfolding find
find-IsKnownDir p [] h = tt
find-IsKnownDir p (d ∷ ds) (h, hs) = if_both IsKnownDir (p d) _ _ h (find-IsKnownDir p ds hs)

scan_below-IsKnownDir :
    (disk : Disk) (browser : String) (exts : List String) (id : String) (base : Option String)
    → IsKnownDir (scan_below disk browser exts id base)
unfolding scan_for_profile_id known_profile_dirs
scan_below-IsKnownDir disk browser exts id none = tt
scan_below-IsKnownDir disk browser exts id (some base) =
    find-IsKnownDir _ (known_profile_dirs disk browser) (dirs_in-AreKnown (state_of disk browser))

pub directory_for_profile_id-IsKnownDir :
    (disk : Disk) (browser : String) (exts : List String) (id : String)
    → IsKnownDir (directory_for_profile_id disk browser exts id)
unfolding directory_for_profile_id
directory_for_profile_id-IsKnownDir disk browser exts id =
    if_both IsKnownDir (ltb (len id) 8) _ _ tt
      (scan_below-IsKnownDir disk browser exts id (user_data_dir browser))
