-- ===== src/Media/Mime.antt =====
-- internal/media: MIME types. A type is the list of its code points; letters are lowered as in ASCII.
use whatsapp_mcp_docker.Base.{
  ◌≡◌, refl, inl, inr, Bool, true, ◌||◌, Option, none, some, List, [], ◌∷◌, arith, ◌==◌,
  if◌then◌else◌, Bool-cases, all, any, Bytes, codes, bytes_eq, to_lower,
}
use whatsapp_mcp_docker.Media.Digests.{sanitize_ext, sanitize_ext-is_ext, is_ext}
use whatsapp_mcp_docker.Media.Filenames.{Runes, trim}

-- What the store uses of Go's `mime` package and of the system's database behind it, and of
-- `http.DetectContentType`.
pub record Mimes : Type 0 where
  -- The type without its parameters, or `none` for an error.
  pub parse_media_type : Runes → Option Runes
  -- The extensions of a type, none for an error.
  pub extensions_by_type : Runes → List Bytes
  pub detect_content_type : Bytes → Runes

unfoldable pub default_mime : Runes
default_mime = codes "application/octet-stream"

-- mimeExt
unfoldable mime_ext : List (Bytes × Bytes)
mime_ext =
    (codes "image/jpeg", codes ".jpg")
    ∷ (codes "image/png", codes ".png")
    ∷ (codes "image/webp", codes ".webp")
    ∷ (codes "image/gif", codes ".gif")
    ∷ (codes "video/mp4", codes ".mp4")
    ∷ (codes "video/3gpp", codes ".3gp")
    ∷ (codes "video/quicktime", codes ".mov")
    ∷ (codes "video/webm", codes ".webm")
    ∷ (codes "audio/ogg", codes ".ogg")
    ∷ (codes "audio/opus", codes ".opus")
    ∷ (codes "audio/mpeg", codes ".mp3")
    ∷ (codes "audio/mp4", codes ".m4a")
    ∷ (codes "audio/aac", codes ".aac")
    ∷ (codes "audio/amr", codes ".amr")
    ∷ (codes "audio/wav", codes ".wav")
    ∷ (codes "audio/x-wav", codes ".wav")
    ∷ (codes "application/pdf", codes ".pdf")
    ∷ (codes "text/plain", codes ".txt")
    ∷ []

abbrev pinned : Bytes → List (Bytes × Bytes) → Option Bytes
pinned m [] = none
pinned m ((k, ext) ∷ rest) = if bytes_eq k m then some ext else pinned m rest

-- base[:i] for the first `;`, or the whole
abbrev pub before_semicolon : Runes → Runes
before_semicolon [] = []
before_semicolon (c ∷ s) = let rest = before_semicolon s in if c == b';' then [] else c ∷ rest

abbrev base_of : Option Runes → Runes → Runes
base_of (some parsed) m = parsed
base_of none m = if any (◌==◌ b';') m then trim (before_semicolon m) else m

abbrev first_ext : List Bytes → Bytes
first_ext [] = codes ".bin"
first_ext (ext ∷ rest) = sanitize_ext ext

abbrev ext_of : Option Bytes → List Bytes → Bytes
ext_of (some ext) exts = ext
ext_of none exts = first_ext exts

-- ExtensionForMime
unfoldable pub extension_for_mime : Mimes → Runes → Bytes
unfolding mime_ext
extension_for_mime mimes m =
    let base = to_lower (trim (base_of (mimes.parse_media_type m) m)) in
    ext_of (pinned base mime_ext) (mimes.extensions_by_type base)

-- isGenericMime
unfoldable pub is_generic_mime : Runes → Bool
unfolding default_mime
is_generic_mime m =
    let base = to_lower (trim (before_semicolon m)) in
    bytes_eq base default_mime
    || bytes_eq base (codes "application/x-www-form-urlencoded")
    || bytes_eq base (codes "binary/octet-stream")

ext_of-is_ext :
    (m : Bytes) (rest : List (Bytes × Bytes)) (exts : List Bytes)
    → all (λ ((k, ext) : Bytes × Bytes). is_ext ext) rest ≡ true
    → is_ext (ext_of (pinned m rest) exts) ≡ true
ext_of-is_ext m [] [] h = refl
ext_of-is_ext m [] (ext ∷ exts) h = sanitize_ext-is_ext ext
ext_of-is_ext m ((k, ext) ∷ rest) exts h = elim (Bool-cases (bytes_eq k m)) [
  | inl e ↦ rw e (ground arith)
  | inr e ↦ rw e (ext_of-is_ext m rest exts (ground arith))
]

-- The extension of a stored blob is well formed, whatever its type and the system's database say.
pub extension_for_mime-is_ext :
    (mimes : Mimes) (m : Runes) → is_ext (extension_for_mime mimes m) ≡ true
unfolding extension_for_mime mime_ext
extension_for_mime-is_ext mimes m =
    let base = to_lower (trim (base_of (mimes.parse_media_type m) m)) in
    ext_of-is_ext base mime_ext (mimes.extensions_by_type base) refl
