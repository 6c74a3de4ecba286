-- ===== src/Media/Digests.antt =====
-- internal/media/media.go: `NormalizeDigest`, the gate of every path of the store, and `sanitizeExt`.
use whatsapp_mcp_docker.Base.{
  ℕ, suc, ◌+◌, ◌-◌, ◌≡◌, refl, ◌↔◌, inl, inr, Bool, true, false, ◌&&◌, ◌||◌, Option, none, some, [],
  ◌∷◌, arith, ltb, leb, ◌==◌, if◌then◌else◌, Bool-cases, length, drop, all, Bytes, codes,
  has_prefix, to_lower,
}
use whatsapp_mcp_docker.Base.ByteStrings.{lower}

-- The case of the switch for one byte: the byte that is written, or `none` for the default.
unfoldable hex_lower : ℕ → Option ℕ
hex_lower c =
    if (leb b'0' c && leb c b'9') || (leb b'a' c && leb c b'f')
    then some c
    else if leb b'A' c && leb c b'F'
    then some (c + (b'a' - b'A'))
    else none

abbrev put_byte : Option ℕ → Option Bytes → Option Bytes
put_byte (some c) (some out) = some (c ∷ out)
put_byte _ _ = none

unfoldable hex_bytes : Bytes → Option Bytes
unfolding hex_lower
hex_bytes [] = some []
hex_bytes (c ∷ s) = put_byte (hex_lower c) (hex_bytes s)

-- NormalizeDigest
unfoldable pub normalize_digest : Bytes → Option Bytes
unfolding hex_bytes
normalize_digest s = if length s == 64 then hex_bytes s else none

abbrev pub is_alnum : ℕ → Bool
is_alnum c = (leb b'0' c && leb c b'9') || (leb b'a' c && leb c b'z') || (leb b'A' c && leb c b'Z')

abbrev bin : Bytes
bin = codes ".bin"

abbrev dotted : Bytes → Bytes
dotted ext = if has_prefix (codes ".") ext then ext else b'.' ∷ ext

abbrev checked_ext : Bytes → Bytes
checked_ext ext =
    if ltb 16 (length ext) then bin else if all is_alnum (drop 1 ext) then to_lower ext else bin

-- sanitizeExt
unfoldable pub sanitize_ext : Bytes → Bytes
sanitize_ext [] = bin
sanitize_ext (c ∷ ext) = checked_ext (dotted (c ∷ ext))

abbrev pub is_hex : ℕ → Bool
is_hex c = (leb b'0' c && leb c b'9') || (leb b'a' c && leb c b'f')

hex_lower_lem : (c : ℕ) → hex_lower c ≡ (if is_hex (lower c) then some (lower c) else none)
unfolding hex_lower lower
hex_lower_lem c = ground arith

hex_bytes_lem :
    (s : Bytes) → hex_bytes s ≡ (if all is_hex (to_lower s) then some (to_lower s) else none)
unfolding hex_bytes
hex_bytes_lem [] = refl
hex_bytes_lem (c ∷ s) =
    rw (hex_lower_lem c, hex_bytes_lem s)
      (elim (Bool-cases (is_hex (lower c))) [
        | inl e ↦ elim (Bool-cases (all is_hex (to_lower s))) [
          | inl f ↦ rw (e, f) refl
          | inr f ↦ rw (e, f) refl
        ]
        | inr e ↦ rw e refl
      ])

-- A SHA-256 digest in the form of the store: 64 hexadecimal digits, the letters in lower case.
abbrev pub is_digest : Bytes → Bool
is_digest d = (length d == 64) && all is_hex d

length-to_lower : (s : Bytes) → length (to_lower s) ≡ length s
length-to_lower [] = refl
length-to_lower (c ∷ s) = omega (arith, length-to_lower s)

-- A text is accepted as a digest exactly when it is one once its letters are in lower case, and this is
-- then the digest.
pub normalize_digest_iff :
    (s d : Bytes)
    → (normalize_digest s ≡ some d) ↔ ((is_digest (to_lower s) ≡ true) × (d ≡ to_lower s))
unfolding normalize_digest
normalize_digest_iff s d = ground (arith, hex_bytes_lem s, length-to_lower s)

hex_lower_hex : (c : ℕ) → is_hex c ≡ true → lower c ≡ c
unfolding lower
hex_lower_hex c h = ground arith

pub to_lower_hex : (d : Bytes) → all is_hex d ≡ true → to_lower d ≡ d
to_lower_hex [] h = refl
to_lower_hex (c ∷ d) h = ground (arith, hex_lower_hex c, to_lower_hex d)

pub is_digest-normalize_digest : (s d : Bytes) → normalize_digest s ≡ some d → is_digest d ≡ true
is_digest-normalize_digest s d h = ground (arith, normalize_digest_iff s d)

pub normalize_digest_of_digest : (d : Bytes) → is_digest d ≡ true → normalize_digest d ≡ some d
normalize_digest_of_digest d h =
    (normalize_digest_iff d d).1 (rw (to_lower_hex d (ground arith)) (h, refl))

-- The form of an extension on disk: a dot and letters in lower case or digits, 16 bytes at most.
abbrev pub is_ext : Bytes → Bool
is_ext [] = false
is_ext (c ∷ ext) =
    (c == b'.')
    && leb (length ext) 15
    && all (λ c. (leb b'0' c && leb c b'9') || (leb b'a' c && leb c b'z')) ext

ext_lower :
    (ext : Bytes)
    → all is_alnum ext ≡ true
    → all (λ c. (leb b'0' c && leb c b'9') || (leb b'a' c && leb c b'z')) (to_lower ext) ≡ true
unfolding lower
ext_lower [] h = refl
ext_lower (c ∷ ext) h = ground (arith, ext_lower ext)

checked_ext_dotted : (ext : Bytes) → is_ext (checked_ext (b'.' ∷ ext)) ≡ true
unfolding lower
checked_ext_dotted ext = ground (arith, ext_lower ext, length-to_lower ext)

-- The extension of a blob's path is well formed, whatever the sidecar says.
pub sanitize_ext-is_ext : (ext : Bytes) → is_ext (sanitize_ext ext) ≡ true
unfolding sanitize_ext
sanitize_ext-is_ext [] = refl
sanitize_ext-is_ext (c ∷ ext) = elim (Bool-cases (b'.' == c)) [
  | inl e ↦ ground (arith, checked_ext_dotted ext)
  | inr e ↦ ground (arith, checked_ext_dotted (c ∷ ext))
]

lower_ext :
    (ext : Bytes)
    → all (λ c. (leb b'0' c && leb c b'9') || (leb b'a' c && leb c b'z')) ext ≡ true
    → (to_lower ext ≡ ext) × (all is_alnum ext ≡ true)
unfolding lower
lower_ext [] h = (refl, refl)
lower_ext (c ∷ ext) h = ground (arith, lower_ext ext)

-- A well-formed extension is left as it is.
pub sanitize_ext_of_ext : (ext : Bytes) → is_ext ext ≡ true → sanitize_ext ext ≡ ext
unfolding sanitize_ext lower
sanitize_ext_of_ext [] h = absurd (ground arith)
sanitize_ext_of_ext (c ∷ ext) h =
    let (lowered, alnum) = lower_ext ext (ground arith) in
    let dot : c ≡ b'.' = ground arith in
    let short : ltb 16 (suc (length ext)) ≡ false = ground arith in
    rw (dot, short, alnum, lowered) refl
