-- ===== src/Watcher/Redaction/Secrecy.antt =====
-- What a stored command line tells of a secret.
use mathlib.Core.Option
use Prim.Native.Char.{Char}
use Prim.Native.String.{len, ◌++◌ as append}
use text.Mathlib.TextLemmas.{nil-append, cons-append}
use session_restore.Common.{
  ◌≡◌, refl, sym, ap, ◌∙◌, String, Bool, true, false, not, ◌&&◌, Option, none, some, List, [], ◌∷◌,
  arith,
}
use session_restore.Common.Texts.{is_empty, any_char, split_once, join}
use session_restore.Watcher.Redaction.{
  split_args, is_sep, names_secret, is_credential, redact_split, redact_whole, redact_arg,
  redact_all, redact_command_line, sentinel, is_some,
}

split_once-append :
    (p : Char → Bool) (name : String) (sep : Char) (v : String)
    → any_char p name ≡ false
    → p sep ≡ true
    → split_once p (append name (String.◌∷◌ sep v)) ≡ some (name, sep, v)
unfolding split_once any_char
split_once-append p String.[] sep v h k =
    ap (split_once p) (nil-append (String.◌∷◌ sep v)) ∙ ground (arith, k)
split_once-append p (String.◌∷◌ c s) sep v h k =
    let rest = split_once-append p s sep v (ground (arith, h)) k in
    ap (split_once p) (cons-append c s (String.◌∷◌ sep v)) ∙ ground (arith, h, rest)

-- A value behind the name of a secret, in the parts of an argument at its first separator.
abbrev pub is_parameter : (String → String) → Option (String × Char × String) → Bool
is_parameter lower none = false
is_parameter lower (some (name, _, value)) = not (is_empty value) && names_secret lower name

-- Two arguments that differ in a secret alone: the same text; the same name of a secret, with
-- values of the same length; or credentials of the same length, neither of them a value behind the
-- name of a secret.
pub data Alike (lower : String → String) (a b : String) : Type 0 where
  same : a ≡ b → Alike lower a b
  secret :
      (name : String) (sep : Char) (v w : String)
      → a ≡ append name (String.◌∷◌ sep v)
      → b ≡ append name (String.◌∷◌ sep w)
      → any_char is_sep name ≡ false
      → is_sep sep ≡ true
      → names_secret lower name ≡ true
      → is_empty v ≡ false
      → is_empty w ≡ false
      → len v ≡ len w
      → Alike lower a b
  credential :
      is_parameter lower (split_once is_sep a) ≡ false
      → is_parameter lower (split_once is_sep b) ≡ false
      → is_credential (lower a) a ≡ true
      → is_credential (lower b) b ≡ true
      → len a ≡ len b
      → Alike lower a b

redact_secret :
    (lower : String → String) (name : String) (sep : Char) (v : String)
    → any_char is_sep name ≡ false
    → is_sep sep ≡ true
    → names_secret lower name ≡ true
    → is_empty v ≡ false
    → redact_arg lower (append name (String.◌∷◌ sep v))
      ≡ some (append name (append (String.◌∷◌ sep String.[]) (sentinel (len v))))
unfolding redact_arg
redact_secret lower name sep v plain sepk names given =
    ap (redact_split lower (append name (String.◌∷◌ sep v)))
      (split_once-append is_sep name sep v plain sepk)
    ∙ ground (arith, names, given)

redact_split-credential :
    (lower : String → String) (a : String) (parts : Option (String × Char × String))
    → is_parameter lower parts ≡ false
    → is_credential (lower a) a ≡ true
    → redact_split lower a parts ≡ some (sentinel (len a))
unfolding redact_whole
redact_split-credential lower a none other shape = ground (arith, shape)
redact_split-credential lower a (some (name, sep, v)) other shape = rw (other, shape) refl

redact_credential :
    (lower : String → String) (a : String)
    → is_parameter lower (split_once is_sep a) ≡ false
    → is_credential (lower a) a ≡ true
    → redact_arg lower a ≡ some (sentinel (len a))
unfolding redact_arg
redact_credential lower a other shape =
    redact_split-credential lower a (split_once is_sep a) other shape

-- What is stored of an argument.
abbrev pub stored : (String → String) → String → String × Bool
stored lower a = (Option.get_or (redact_arg lower a) a, is_some (redact_arg lower a))

stored_as :
    (lower : String → String) (a b r : String)
    → redact_arg lower a ≡ some r
    → redact_arg lower b ≡ some r
    → stored lower a ≡ stored lower b
stored_as lower a b r h k = rw (h, k)

stored-Alike :
    (lower : String → String) (a b : String) → Alike lower a b → stored lower a ≡ stored lower b
stored-Alike lower a b (same e) = ap (stored lower) e
stored-Alike lower a b (secret name sep v w ea eb plain sepk names hv hw size) =
    stored_as lower a b _
      (ap (redact_arg lower) ea ∙ redact_secret lower name sep v plain sepk names hv)
      (ap (redact_arg lower) eb
        ∙ redact_secret lower name sep w plain sepk names hw
        ∙ ap (λ n. some (append name (append (String.◌∷◌ sep String.[]) (sentinel n)))) (sym size))
stored-Alike lower a b (credential na nb ca cb size) =
    stored_as lower a b _ (redact_credential lower a na ca)
      (redact_credential lower b nb cb ∙ ap (λ n. some (sentinel n)) (sym size))

pub data AllAlike (lower : String → String) : List String → List String → Type 0 where
  none_left : AllAlike lower [] []
  next :
      {a b : String} {args others : List String}
      → Alike lower a b
      → AllAlike lower args others
      → AllAlike lower (a ∷ args) (b ∷ others)

redact_all-AllAlike :
    (lower : String → String) {args others : List String}
    → AllAlike lower args others
    → redact_all lower args ≡ redact_all lower others
unfolding redact_all
redact_all-AllAlike lower none_left = refl
redact_all-AllAlike lower (next {a} {b} {args} {others} h hs) =
    cc (stored-Alike lower a b h, redact_all-AllAlike lower hs)

-- What is stored of a command line tells no more of a secret than its length: two command lines
-- whose arguments differ only in the values of secret parameters, or in credentials of a known
-- shape, of the same length each, are stored as the same text. An argument counts as a credential
-- here, with or without separators in it, unless the text before its first `=` or `:` names a
-- secret and some text follows.
pub redact_command_line-AllAlike :
    (lower : String → String) (c d : String)
    → AllAlike lower (split_args c) (split_args d)
    → redact_command_line lower c ≡ redact_command_line lower d
unfolding redact_command_line
redact_command_line-AllAlike lower c d h =
    ap (λ (done : List String × Bool). (join " " done.0, done.1)) (redact_all-AllAlike lower h)
