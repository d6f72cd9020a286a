-- ===== src/Common/Paths.antt =====
-- `Path::file_name` on Windows. A path with the prefix `\\?\` or `\\.\` is not told from one of a
-- server.
use Prim.Native.Char.{Char}
use Prim.Native.String
use Prim.Native.String.{String}
use mathlib.Core.Bool.{Bool, false, ◌&&◌, ◌||◌}
use mathlib.Core.Option.{Option, none, some}
use mathlib.Core.List.{List, [], ◌∷◌}
use session_restore.Common.Tests.{if◌then◌else◌, ◌==◌, String_eq}
use session_restore.Common.Texts.{is_char, is_empty}

abbrev is_separator : Char → Bool
is_separator c = is_char b'/' c || is_char b'\\' c

abbrev keep_word : String → List String → List String
keep_word word rest = if is_empty word || word == "." then rest else word ∷ rest

-- The components of a path, but for the current folder.
unfoldable pub components : String → String → List String
components word String.[] = keep_word word []
components word (String.◌∷◌ c s) =
    let next : String = if is_separator c then "" else String.◌++◌ word (String.◌∷◌ c String.[]) in
    let rest = components next s in if is_separator c then keep_word word rest else rest

abbrev second_is_colon : String → Bool
second_is_colon (String.◌∷◌ _ (String.◌∷◌ c _)) = is_char b':' c
second_is_colon _ = false

abbrev after_drive : String → String
after_drive (String.◌∷◌ _ (String.◌∷◌ _ rest)) = rest
after_drive s = s

abbrev without_drive : List String → List String
without_drive [] = []
without_drive (w ∷ ws) = if second_is_colon w then keep_word (after_drive w) ws else w ∷ ws

abbrev is_server : String → Bool
is_server (String.◌∷◌ a (String.◌∷◌ b _)) = is_separator a && is_separator b
is_server _ = false

abbrev without_share : List String → List String
without_share (_ ∷ _ ∷ rest) = rest
without_share _ = []

unfoldable pub last_name : List String → Option String
last_name [] = none
last_name (w ∷ []) = if w == ".." then none else some w
last_name (w ∷ v ∷ ws) = last_name (v ∷ ws)

-- `Path::file_name` on Windows.
unfoldable pub file_name : String → Option String
file_name p =
    last_name
      (if is_server p then without_share (components "" p) else without_drive (components "" p))
