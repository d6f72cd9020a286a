-- ===== src/Common/Texts.antt =====
-- Operations of `str` on native texts, by recursion on their characters.
use Prim.Native.Nat.{ℕ, zero, suc, ◌-◌, ◌/◌, ◌%◌}
use Prim.Native.Char.{Char, code}
use Prim.Native.String.{String, ◌++◌ as append, char_at}
use mathlib.Core.Bool.{Bool, true, false, not, ◌&&◌, ◌||◌}
use mathlib.Core.Option.{Option, none, some}
use mathlib.Core.List.{List, [], ◌∷◌}
use session_restore.Common.Tests.{leb, if◌then◌else◌, nat_eq, ◌==◌, String_eq}

abbrev pub is_char : ℕ → Char → Bool
is_char n c = nat_eq (code c) n

abbrev pub is_empty : String → Bool
is_empty String.[] = true
is_empty (String.◌∷◌ c s) = false

-- `chars().all(p)` and `chars().any(p)`
unfoldable pub all_chars : (Char → Bool) → String → Bool
all_chars p String.[] = true
all_chars p (String.◌∷◌ c s) = p c && all_chars p s

unfoldable pub any_char : (Char → Bool) → String → Bool
any_char p String.[] = false
any_char p (String.◌∷◌ c s) = p c || any_char p s

abbrev pub is_ascii_digit : Char → Bool
is_ascii_digit c = leb b'0' (code c) && leb (code c) b'9'

-- `strip_prefix`
unfoldable pub strip_prefix : String → String → Option String
strip_prefix String.[] s = some s
strip_prefix (String.◌∷◌ p ps) String.[] = none
strip_prefix (String.◌∷◌ p ps) (String.◌∷◌ c s) =
    let rest = strip_prefix ps s in if nat_eq (code c) (code p) then rest else none

abbrev pub has_prefix : String → String → Bool
has_prefix p s = elim (strip_prefix p s) [ none ↦ false | some _ ↦ true ]

-- `trim_start_matches` and `trim_end_matches`, of a set of characters.
unfoldable pub trim_start_matches : (Char → Bool) → String → String
trim_start_matches p String.[] = String.[]
trim_start_matches p (String.◌∷◌ c s) =
    let rest = trim_start_matches p s in if p c then rest else String.◌∷◌ c s

abbrev keep_end : Bool → Char → String → String
keep_end trimmed c String.[] = if trimmed then String.[] else String.◌∷◌ c String.[]
keep_end trimmed c s = String.◌∷◌ c s

unfoldable pub trim_end_matches : (Char → Bool) → String → String
trim_end_matches p String.[] = String.[]
trim_end_matches p (String.◌∷◌ c s) = keep_end (p c) c (trim_end_matches p s)

-- `trim_matches('"')`
unfoldable pub unquoted : String → String
unfolding trim_start_matches trim_end_matches
unquoted s = trim_end_matches (is_char b'"') (trim_start_matches (is_char b'"') s)

-- `to_ascii_lowercase`
abbrev pub ascii_lower : Char → Char
ascii_lower c =
    if leb b'A' (code c) && leb (code c) b'Z'
    then char_at "abcdefghijklmnopqrstuvwxyz" (code c - b'A')
    else c

unfoldable pub to_ascii_lowercase : String → String
to_ascii_lowercase String.[] = String.[]
to_ascii_lowercase (String.◌∷◌ c s) = String.◌∷◌ (ascii_lower c) (to_ascii_lowercase s)

-- `contains`, of a text.
unfoldable pub has_text : String → String → Bool
unfolding strip_prefix
has_text t String.[] = has_prefix t String.[]
has_text t (String.◌∷◌ c s) = has_prefix t (String.◌∷◌ c s) || has_text t s

-- {b:02x}
abbrev pub hex_digit : ℕ → Char
hex_digit n = char_at "0123456789abcdef" n

unfoldable pub hex : List ℕ → String
hex [] = ""
hex (b ∷ bs) = String.◌∷◌ (hex_digit (b / 16 % 16)) (String.◌∷◌ (hex_digit (b % 16)) (hex bs))

-- Splits at the characters that end a word outside double quotes; `word` is what was read of the
-- current one.
unfoldable pub split_from : (Char → Bool) → Bool → String → String → List String
split_from ends quoted word String.[] = if is_empty word then [] else word ∷ []
split_from ends quoted word (String.◌∷◌ c s) =
    let next : Bool = if is_char b'"' c then not quoted else quoted in
    let cut : Bool = ends c && (not (is_char b'"' c) && not quoted) in
    let longer : String = if cut then "" else append word (String.◌∷◌ c String.[]) in
    let rest = split_from ends next longer s in
    if cut && not (is_empty word) then word ∷ rest else rest

-- `char::is_whitespace`
abbrev in_range : ℕ → ℕ → ℕ → Bool
in_range lo hi n = leb lo n && leb n hi

unfoldable pub is_whitespace : Char → Bool
is_whitespace c =
    let n = code c in
    in_range 0x9 0xd n
    || nat_eq n 0x20
    || nat_eq n 0x85
    || nat_eq n 0xa0
    || nat_eq n 0x1680
    || in_range 0x2000 0x200a n
    || nat_eq n 0x2028
    || nat_eq n 0x2029
    || nat_eq n 0x202f
    || nat_eq n 0x205f
    || nat_eq n 0x3000

-- `ends_with`
unfoldable pub has_suffix : String → String → Bool
has_suffix t String.[] = t == String.[]
has_suffix t (String.◌∷◌ c s) = String.◌∷◌ c s == t || has_suffix t s

-- The text before the first character that a test accepts, that character, and the rest.
unfoldable pub split_once : (Char → Bool) → String → Option (String × Char × String)
split_once p String.[] = none
split_once p (String.◌∷◌ c s) =
    let rest = split_once p s in
    if p c
    then some (String.[], c, s)
    else elim rest [ none ↦ none | some (front, sep, back) ↦ some (String.◌∷◌ c front, sep, back) ]

-- `join`
unfoldable pub join : String → List String → String
join sep [] = ""
join sep (s ∷ []) = s
join sep (s ∷ t ∷ ts) = append s (append sep (join sep (t ∷ ts)))

-- The to_decimal digits of a length, which is below 10 ^ 20.
unfoldable pub digits_of : ℕ → ℕ → String → String
digits_of zero n back = back
digits_of (suc rounds) n back =
    let front = String.◌∷◌ (char_at "0123456789" (n % 10)) back in
    let rest = digits_of rounds (n / 10) front in if leb n 9 then front else rest

unfoldable pub to_decimal : ℕ → String
unfolding digits_of
to_decimal n = digits_of 20 n ""
