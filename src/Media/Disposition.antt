-- ===== src/Media/Disposition.antt =====
-- internal/media/http.go: `contentDisposition`, `asciiFallback` and `rfc5987Escape`.
pub mod Reading
use whatsapp_mcp_docker.Base.{
  ◌==◌, ℕ, ◌+◌, ◌-◌, ◌/◌, ◌%◌, Bool, ◌||◌, [], ◌∷◌, ◌++◌, map, ltb, if◌then◌else◌, any, Bytes,
  codes, bytes_eq,
}
use whatsapp_mcp_docker.Media.Digests.{is_alnum}
use whatsapp_mcp_docker.Media.Filenames.{Runes, sanitize_filename}

-- The bytes of a rune in a Go string: UTF-8.
abbrev utf8_rune : ℕ → Bytes
utf8_rune c =
    if ltb c 128
    then c ∷ []
    else if ltb c 2048
    then (192 + c / 64) ∷ (128 + c % 64) ∷ []
    else if ltb c 65536
    then (224 + c / 4096) ∷ (128 + c / 64 % 64) ∷ (128 + c % 64) ∷ []
    else (240 + c / 262144) ∷ (128 + c / 4096 % 64) ∷ (128 + c / 64 % 64) ∷ (128 + c % 64) ∷ []

unfoldable pub utf8 : Runes → Bytes
utf8 [] = []
utf8 (c ∷ s) = utf8_rune c ++ utf8 s

abbrev ascii_rune : ℕ → ℕ
ascii_rune c = if ltb 127 c then b'_' else c

-- asciiFallback
unfoldable pub ascii_fallback : Runes → Runes
ascii_fallback = map ascii_rune

abbrev is_in : ℕ → Bytes → Bool
is_in c = any (◌==◌ c)

-- The bytes that rfc5987Escape writes as they are.
unfoldable pub is_unreserved : ℕ → Bool
is_unreserved c = is_alnum c || is_in c (codes "!#$&+-.^_`|~")

-- hexDigits[n]
abbrev pub hex_digit : ℕ → ℕ
hex_digit n = if ltb n 10 then b'0' + n else b'A' + (n - 10)

-- rfc5987Escape
unfoldable pub rfc5987_escape : Bytes → Bytes
unfolding is_unreserved
rfc5987_escape [] = []
rfc5987_escape (c ∷ s) =
    let rest = rfc5987_escape s in
    if is_unreserved c then c ∷ rest else b'%' ∷ hex_digit (c / 16) ∷ hex_digit (c % 16) ∷ rest

abbrev pub extended : Runes → Bytes
extended name = codes "; filename*=UTF-8''" ++ rfc5987_escape (utf8 name)

abbrev pub disposition_of : Runes → Bytes
disposition_of name =
    codes "attachment; filename=\""
    ++ (utf8 (ascii_fallback name)
        ++ (codes "\"" ++ (if bytes_eq (ascii_fallback name) name then [] else extended name)))

-- contentDisposition
unfoldable pub content_disposition : Runes → Bytes
unfolding utf8 ascii_fallback rfc5987_escape
content_disposition name = disposition_of (sanitize_filename name)
