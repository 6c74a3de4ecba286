-- ===== src/Media/Disposition/Reading.antt =====
-- internal/media/http.go: what a client reads from the header that `contentDisposition` writes.
use whatsapp_mcp_docker.Base.{
  ℕ, ◌+◌, ◌-◌, ◌*◌, ◌/◌, ◌%◌, ◌<◌, ◌≡◌, refl, ap, inl, inr, Bool, true, false, not, ◌&&◌, [], ◌∷◌,
  arith, ltb, leb, ◌==◌, if◌then◌else◌, Bool-cases, Option, none, some, all, Bytes, codes,
}
use whatsapp_mcp_docker.Media.Disposition.{is_unreserved, hex_digit, rfc5987_escape}

-- Where a reader of percent-encoded bytes stands.
pub data Escape : Type 0 where
  plain : Escape
  opened : Escape
  half : ℕ → Escape

abbrev next : Escape → ℕ → Escape
next plain c = if c == b'%' then opened else plain
next opened c = half c
next (half h) c = plain

abbrev hex_value : ℕ → ℕ
hex_value c = if leb c b'9' then c - b'0' else c - b'A' + 10

abbrev emitted : Escape → ℕ → Bytes → Bytes
emitted plain c s = if c == b'%' then s else c ∷ s
emitted opened c s = s
emitted (half h) c s = (hex_value h * 16 + hex_value c) ∷ s

abbrev decode_from : Escape → Bytes → Bytes
decode_from e [] = []
decode_from e (c ∷ s) = emitted e c (decode_from (next e c) s)

-- The bytes that percent-encoded ones stand for (RFC 3986, 2.1).
abbrev pub percent_decode : Bytes → Bytes
percent_decode = decode_from plain

abbrev is_byte : ℕ → Bool
is_byte c = ltb c 256

digits_of_byte :
    (c : ℕ) → c < 256 → hex_value (hex_digit (c / 16)) * 16 + hex_value (hex_digit (c % 16)) ≡ c
digits_of_byte c h = ground arith

unreserved_plain : (c : ℕ) → is_unreserved c ≡ true → (c == b'%') ≡ false
unfolding is_unreserved
unreserved_plain c h = ground arith

-- Decoding takes back the escape of any bytes.
pub percent_decode-rfc5987_escape :
    (s : Bytes) → all is_byte s ≡ true → percent_decode (rfc5987_escape s) ≡ s
unfolding rfc5987_escape is_unreserved
percent_decode-rfc5987_escape [] h = refl
percent_decode-rfc5987_escape (c ∷ s) h = elim (Bool-cases (is_unreserved c)) [
  | inl e ↦
      rw (e, unreserved_plain c e) (ap (◌∷◌ c) (percent_decode-rfc5987_escape s (ground arith)))
  | inr e ↦
      rw (e, digits_of_byte c (ground arith), percent_decode-rfc5987_escape s (ground arith)) refl
]

abbrev until_quote : Bytes → Bytes
until_quote [] = []
until_quote (c ∷ s) = let rest = until_quote s in if c == b'"' then [] else c ∷ rest

abbrev after_quote : Bytes → Option Bytes
after_quote [] = none
after_quote (c ∷ s) = let rest = after_quote s in if c == b'"' then some s else rest

-- What follows the prefix, if it stands there byte for byte.
abbrev after_prefix : Bytes → Bytes → Option Bytes
after_prefix [] s = some s
after_prefix (c ∷ p) [] = none
after_prefix (c ∷ p) (b ∷ s) = let rest = after_prefix p s in if c == b then rest else none

abbrev decoded : Option Bytes → Option Bytes
decoded none = none
decoded (some s) = some (percent_decode s)

abbrev chosen : Bytes → Bytes → Option Bytes
chosen quoted [] = some quoted
chosen quoted (c ∷ s) = decoded (after_prefix (codes "; filename*=UTF-8''") (c ∷ s))

abbrev chosen_after : Bytes → Option Bytes → Option Bytes
chosen_after quoted none = none
chosen_after quoted (some s) = chosen quoted s

abbrev read_parameters : Option Bytes → Option Bytes
read_parameters none = none
read_parameters (some s) = chosen_after (until_quote s) (after_quote s)

-- The name that a client reads from the header of an attachment: what the quotes of `filename` hold,
-- or what follows `filename*=UTF-8''` if there is such a parameter (RFC 6266, 4.3). A header with
-- other words in these places has no name.
abbrev pub read_filename : Bytes → Option Bytes
read_filename header = read_parameters (after_prefix (codes "attachment; filename=\"") header)

abbrev is_quoted : ℕ → Bool
is_quoted c = ltb c 128 && not (c == b'"')
