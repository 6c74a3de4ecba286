-- ===== src/Base/ByteStrings.antt =====
-- Bytes: what the program uses of Go's `bytes`, `strings` and `encoding/binary` on them.
use Prim.Native.Char.{code}
use Prim.Native.Nat.{ℕ, suc, ◌+◌, ◌-◌, ◌*◌}
use Prim.Native.String.{String}
use mathlib.Core.Path.{◌≡◌, refl}
use mathlib.Core.Bool.{Bool, true, false, ◌&&◌}
use mathlib.Core.List.{List, [], ◌∷◌, map}
use mathlib.Core.Option
use mathlib.Core.Option.{Option, none, some}
use native.Mathlib.Omega.{arith}
use whatsapp_mcp_docker.Base.Tests.{leb, ◌==◌, if◌then◌else◌}
use whatsapp_mcp_docker.Base.Lists.{take, drop}

abbrev pub Bytes : Type 0
Bytes = List ℕ

-- The bytes of an ASCII literal.
abbrev pub codes : String → Bytes
codes String.[] = []
codes (String.◌∷◌ c s) = code c ∷ codes s

-- bytes.Equal
abbrev pub bytes_eq : Bytes → Bytes → Bool
bytes_eq [] [] = true
bytes_eq [] (b ∷ bs) = false
bytes_eq (a ∷ as') [] = false
bytes_eq (a ∷ as') (b ∷ bs) = (a == b) && bytes_eq as' bs

pub bytes_eq_sound : (s t : Bytes) → bytes_eq s t ≡ true → s ≡ t
bytes_eq_sound [] [] h = refl
bytes_eq_sound [] (b ∷ t) h = ground arith
bytes_eq_sound (a ∷ s) [] h = ground arith
bytes_eq_sound (a ∷ s) (b ∷ t) h = ground (arith, bytes_eq_sound s t)

pub bytes_eq_refl : (s : Bytes) → bytes_eq s s ≡ true
bytes_eq_refl [] = refl
bytes_eq_refl (a ∷ s) = ground (arith, bytes_eq_refl s)

-- buf[i:j]
abbrev pub slice : Bytes → ℕ → ℕ → Bytes
slice buf i j = take (j - i) (drop i buf)

-- bytes.HasPrefix
abbrev pub has_prefix : Bytes → Bytes → Bool
has_prefix [] s = true
has_prefix (p ∷ ps) [] = false
has_prefix (p ∷ ps) (c ∷ s) = (p == c) && has_prefix ps s

-- bytes.Index, with `none` for -1
unfoldable pub index : Bytes → Bytes → Option ℕ
index pat [] = if has_prefix pat [] then some 0 else none
index pat (b ∷ s) = if has_prefix pat (b ∷ s) then some 0 else Option.map suc (index pat s)

-- binary.LittleEndian: the number that the bytes hold, the lowest first
abbrev pub little_endian : Bytes → ℕ
little_endian [] = 0
little_endian (b ∷ s) = b + 256 * little_endian s

-- A letter of ASCII in lower case, as `strings.ToLower` maps it.
unfoldable pub lower : ℕ → ℕ
lower c = if leb b'A' c && leb c b'Z' then c + 32 else c

-- strings.ToLower on ASCII
abbrev pub to_lower : Bytes → Bytes
to_lower = map lower
