-- ===== src/Base/Texts.antt =====
-- What the program uses of Go's `strings` on text, and sets of texts as lists.
use Prim.Native.Char.{Char, code}
use Prim.Native.Nat.{ℕ}
use Prim.Native.String.{String}
use mathlib.Core.Bool.{Bool, true, false, not, ◌&&◌, ◌||◌}
use mathlib.Core.List.{List, [], ◌∷◌}
use whatsapp_mcp_docker.Base.Tests.{leb, ◌==◌, str_eq, if◌then◌else◌}

-- unicode.IsSpace, on a code point
unfoldable pub is_space : ℕ → Bool
is_space c =
    (leb 9 c && leb c 13)
    || (c == 32)
    || (c == 133)
    || (c == 160)
    || (c == 5760)
    || (leb 8192 c && leb c 8202)
    || (c == 8232)
    || (c == 8233)
    || (c == 8239)
    || (c == 8287)
    || (c == 12288)

abbrev trim_left : String → String
trim_left String.[] = ""
trim_left (String.◌∷◌ c s) =
    let rest = trim_left s in if is_space (code c) then rest else String.◌∷◌ c s

abbrev cons_unless : Bool → Char → String → String
cons_unless true c String.[] = ""
cons_unless _ c s = String.◌∷◌ c s

abbrev trim_right : String → String
trim_right String.[] = ""
trim_right (String.◌∷◌ c s) = cons_unless (is_space (code c)) c (trim_right s)

-- strings.TrimSpace
unfoldable pub trim_space : String → String
trim_space s = trim_right (trim_left s)

-- A set of texts has the text.
abbrev pub has : String → List String → Bool
has s [] = false
has s (x ∷ xs) = str_eq x s || has s xs

-- No text stands twice.
abbrev pub distinct : List String → Bool
distinct [] = true
distinct (x ∷ xs) = not (has x xs) && distinct xs
