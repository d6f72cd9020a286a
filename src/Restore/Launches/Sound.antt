-- ===== src/Restore/Launches/Sound.antt =====
-- Only browsers that are asked for and missing are started, and only with known arguments.
use session_restore.Common.{
  ℕ, ◌≡◌, ap, ◌∙◌, String, Bool, true, false, ◌||◌, Option, none, some, List, [], ◌∷◌, All,
  All-append, All-imp, select-All, String_eq, ℕ_eq, ==-refl, ◌==◌, if_both, Bool-cases, inl, inr,
  arith,
}
use Prim.Native.String
use Prim.Native.Char.{code}
use text.Mathlib.TextLemmas.{nil-append, cons-append}
use session_restore.Common.Texts.{has_prefix, strip_prefix, has_text}
use session_restore.Store.Schema.{AppRow}
use session_restore.Store.Db.{Db}
use session_restore.Watcher.Profiles.{launch_args_for, is_safe_profile_dir}
use session_restore.Restore.Launches.{
  BrowserLaunch, is_kept, useful_args, is_missing, to_start, push_launch, mark, exe_browser, launch,
  launches, args_of, is_empty_list, profile_dir_for, wanted_browsers, running_browsers,
  browsers_to_launch,
}

-- One of the two that are carried over, or a profile directory.
abbrev pub is_known_arg : String → Bool
is_known_arg a = is_kept a || has_prefix "--profile-directory=" a

-- Each is asked for, has no window, was not started before, and gets known arguments alone.
abbrev pub AreMissing : List String → List String → List String → List BrowserLaunch → Type 0
AreMissing wanted running seen [] = Unit
AreMissing wanted running seen (l ∷ ls) =
    (is_missing wanted running seen l.browser ≡ true)
    × All (λ a. is_known_arg a ≡ true) l.args
    × AreMissing wanted running (l.browser ∷ seen) ls

abbrev AreKnown : List String → Type 0
AreKnown args = All (λ a. is_known_arg a ≡ true) args

useful_args-AreKnown : (c : String) → AreKnown (useful_args c)
unfolding useful_args
useful_args-AreKnown c =
    if_both AreKnown (has_text "<redacted:" c) [] _ tt
      (All-imp _ _ _ (λ a e. ground (arith, e)) (select-All is_kept _))

strip_prefix-append_same : (p d : String) → strip_prefix p (String.◌++◌ p d) ≡ some d
unfolding strip_prefix
strip_prefix-append_same String.[] d = ap some (nil-append d)
strip_prefix-append_same (String.◌∷◌ c ps) d =
    ap (strip_prefix (String.◌∷◌ c ps)) (cons-append c ps d)
    ∙ rw (==-refl (code c)) (strip_prefix-append_same ps d)

abbrev is_found : Option String → Bool
is_found none = false
is_found (some _) = true

known_dir : (d : String) → is_known_arg (String.◌++◌ "--profile-directory=" d) ≡ true
known_dir d = ground (arith, ap is_found (strip_prefix-append_same "--profile-directory=" d))

launch_args_for-AreKnown : (b : String) (dir : Option String) → AreKnown (launch_args_for b dir)
unfolding launch_args_for
launch_args_for-AreKnown b none = tt
launch_args_for-AreKnown b (some d) =
    if_both AreKnown (is_safe_profile_dir d) _ []
      (if_both AreKnown (b == "chrome" || b == "edge") _ [] (known_dir d, tt) tt) tt

args_of-AreKnown : (o : Option String) → AreKnown (args_of o)
args_of-AreKnown none = tt
args_of-AreKnown (some c) = useful_args-AreKnown c

launch-AreKnown :
    (db : Db) (id : ℕ) (windows : List String) (a : AppRow) (b : String)
    → AreKnown (launch db id windows a b).args
unfolding launch
launch-AreKnown db id windows a b =
    All-append (λ x. is_known_arg x ≡ true) (args_of a.command_line)
      (launch_args_for b (profile_dir_for db id b windows)) (args_of-AreKnown a.command_line)
      (launch_args_for-AreKnown b (profile_dir_for db id b windows))

module _ (db : Db) (id : ℕ) (windows wanted running : List String) (a : AppRow) where
  -- One application of the snapshot.
  push_launch-AreMissing :
      (seen : List String) (o : Option String) (next : List String → List BrowserLaunch)
      → ((s : List String) → AreMissing wanted running s (next s))
      → AreMissing wanted running seen (
          push_launch
            (to_start wanted running seen o)
            (launch db id windows a)
            (next (mark (to_start wanted running seen o) seen)))
  unfolding launch
  push_launch-AreMissing seen none next h = h seen
  push_launch-AreMissing seen (some b) next h =
      elim (Bool-cases (is_missing wanted running seen b)) [
        | inl e ↦ rw e (e, launch-AreKnown db id windows a b, h (b ∷ seen))
        | inr e ↦ rw e (h seen)
      ]

launches-AreMissing :
    (lower : String → String) (db : Db) (id : ℕ) (windows wanted running seen : List String)
    → (apps : List AppRow)
    → AreMissing wanted running seen
        (launches lower (launch db id windows) wanted running seen apps)
unfolding launches
launches-AreMissing lower db id windows wanted running seen [] = tt
launches-AreMissing lower db id windows wanted running seen (a ∷ more) =
    push_launch-AreMissing db id windows wanted running a seen (exe_browser lower a)
      (λ s. launches lower (launch db id windows) wanted running s more)
      (λ s. launches-AreMissing lower db id windows wanted running s more)

-- A browser is started only if a window of it was ticked and it has no window now, and only once;
-- its arguments are the two that are carried over and a profile directory, whatever the captured
-- command line held.
pub browsers_to_launch-AreMissing :
    (lower : String → String) (db : Db) (id : ℕ) (windows : List String)
    → AreMissing
        (wanted_browsers db id windows)
        (running_browsers lower db)
        []
        (browsers_to_launch lower db id windows)
unfolding browsers_to_launch
browsers_to_launch-AreMissing lower db id windows =
    if_both (AreMissing (wanted_browsers db id windows) (running_browsers lower db) [])
      (is_empty_list (wanted_browsers db id windows)) [] _ tt
      (launches-AreMissing lower db id windows (wanted_browsers db id windows)
        (running_browsers lower db) [] _)
