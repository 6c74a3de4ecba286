-- ===== src/Media/Filenames.antt =====
-- internal/media/media.go: `SanitizeFilename`. A name is the list of its code points.
use whatsapp_mcp_docker.Base.{
  ℕ, zero, suc, ◌≤◌, ◌≡◌, refl, inl, inr, Bool, true, false, not, ◌&&◌, ◌||◌, Option, none, some,
  List, [], ◌∷◌, map, arith, ltb, leb, ◌==◌, if◌then◌else◌, Bool-cases, length, take, all, any,
  length-take, codes, bytes_eq,
}
use whatsapp_mcp_docker.Base.Texts.{is_space}

abbrev pub Runes : Type 0
Runes = List ℕ

abbrev trim_left : Runes → Runes
trim_left [] = []
trim_left (c ∷ s) = let rest = trim_left s in if is_space c then rest else c ∷ s

abbrev cons_unless : Bool → ℕ → Runes → Runes
cons_unless true c [] = []
cons_unless _ c s = c ∷ s

abbrev trim_right : Runes → Runes
trim_right [] = []
trim_right (c ∷ s) = cons_unless (is_space c) c (trim_right s)

-- strings.TrimSpace
abbrev pub trim : Runes → Runes
trim s = trim_right (trim_left s)

-- strings.ReplaceAll(name, "\\", "_")
abbrev no_backslash : ℕ → ℕ
no_backslash c = if c == b'\\' then b'_' else c

abbrev cons_unless_slash : ℕ → Runes → Runes
cons_unless_slash c [] = if c == b'/' then [] else c ∷ []
cons_unless_slash c s = c ∷ s

abbrev strip_slashes : Runes → Runes
strip_slashes [] = []
strip_slashes (c ∷ s) = cons_unless_slash c (strip_slashes s)

-- What follows the last slash.
abbrev last_element : Runes → Runes
last_element [] = []
last_element (c ∷ s) = let rest = last_element s in if any (◌==◌ b'/') (c ∷ s) then rest else c ∷ s

abbrev or_slash : Runes → Runes
or_slash [] = b'/' ∷ []
or_slash s = s

-- filepath.Base
unfoldable base : Runes → Runes
base [] = b'.' ∷ []
base (c ∷ s) = or_slash (last_element (strip_slashes (c ∷ s)))

-- The function that strings.Map applies, with `none` for -1.
abbrev clean_rune : ℕ → Option ℕ
clean_rune c =
    if ltb c 32 || (c == 127)
    then none
    else if (c == b'/') || (c == b'"')
    then some b'_'
    else some c

abbrev cons_some : Option ℕ → Runes → Runes
cons_some none s = s
cons_some (some c) s = c ∷ s

abbrev clean : Runes → Runes
clean [] = []
clean (c ∷ s) = cons_some (clean_rune c) (clean s)

abbrev is_reserved : Runes → Bool
is_reserved s = bytes_eq s [] || bytes_eq s (codes ".") || bytes_eq s (codes "..")

abbrev named : Runes → Runes
named s = if is_reserved s then codes "download.bin" else take 200 s

-- SanitizeFilename
unfoldable pub sanitize_filename : Runes → Runes
unfolding base
sanitize_filename name = named (trim (clean (base (map no_backslash (trim name)))))

-- A rune that can stand in a file name and between the quotes of a header.
abbrev pub is_safe : ℕ → Bool
is_safe c =
    leb 32 c && (not (c == 127) && (not (c == b'/') && (not (c == b'"') && not (c == b'\\'))))

all-cons_unless :
    (p : ℕ → Bool) (b : Bool) (c : ℕ) (s : Runes)
    → p c ≡ true
    → all p s ≡ true
    → all p (cons_unless b c s) ≡ true
all-cons_unless p true c [] h a = refl
all-cons_unless p true c (d ∷ s) h a = ground arith
all-cons_unless p false c s h a = ground arith

all-trim_left : (p : ℕ → Bool) (s : Runes) → all p s ≡ true → all p (trim_left s) ≡ true
all-trim_left p [] h = refl
all-trim_left p (c ∷ s) h = ground (arith, all-trim_left p s)

all-trim_right : (p : ℕ → Bool) (s : Runes) → all p s ≡ true → all p (trim_right s) ≡ true
all-trim_right p [] h = refl
all-trim_right p (c ∷ s) h =
    all-cons_unless p (is_space c) c (trim_right s) (ground arith)
      (all-trim_right p s (ground arith))

all-last_element : (p : ℕ → Bool) (s : Runes) → all p s ≡ true → all p (last_element s) ≡ true
all-last_element p [] h = refl
all-last_element p (c ∷ s) h = ground (arith, all-last_element p s)

all-cons_unless_slash :
    (p : ℕ → Bool) (c : ℕ) (s : Runes)
    → p c ≡ true
    → all p s ≡ true
    → all p (cons_unless_slash c s) ≡ true
all-cons_unless_slash p c [] h a = ground arith
all-cons_unless_slash p c (d ∷ s) h a = ground arith

all-strip_slashes : (p : ℕ → Bool) (s : Runes) → all p s ≡ true → all p (strip_slashes s) ≡ true
all-strip_slashes p [] h = refl
all-strip_slashes p (c ∷ s) h =
    all-cons_unless_slash p c (strip_slashes s) (ground arith)
      (all-strip_slashes p s (ground arith))

all-or_slash :
    (p : ℕ → Bool) (s : Runes) → p b'/' ≡ true → all p s ≡ true → all p (or_slash s) ≡ true
all-or_slash p [] h a = ground arith
all-or_slash p (c ∷ s) h a = a

abbrev is_no_backslash : ℕ → Bool
is_no_backslash c = not (c == b'\\')

all-no_backslash : (s : Runes) → all is_no_backslash (map no_backslash s) ≡ true
all-no_backslash [] = refl
all-no_backslash (c ∷ s) = ground (arith, all-no_backslash s)

all-base :
    (p : ℕ → Bool) (s : Runes)
    → p b'/' ≡ true
    → p b'.' ≡ true
    → all p s ≡ true
    → all p (base s) ≡ true
unfolding base
all-base p [] slash dot h = ground arith
all-base p (c ∷ s) slash dot h =
    let stripped = strip_slashes (c ∷ s) in
    all-or_slash p (last_element stripped) slash
      (all-last_element p stripped (all-strip_slashes p (c ∷ s) h))

all-clean : (s : Runes) → all is_no_backslash s ≡ true → all is_safe (clean s) ≡ true
all-clean [] h = refl
all-clean (c ∷ s) h = ground (arith, all-clean s)

all-take : (p : ℕ → Bool) (n : ℕ) (s : Runes) → all p s ≡ true → all p (take n s) ≡ true
all-take p zero s h = refl
all-take p (suc n) [] h = refl
all-take p (suc n) (c ∷ s) h = ground (arith, all-take p n s)

-- A name that does not leave the directory it is put in, nor the quotes it is put between.
abbrev pub IsFilename : Runes → Type 0
IsFilename s = (is_reserved s ≡ false) × (length s ≤ 200) × (all is_safe s ≡ true)

is_reserved-take : (s : Runes) → is_reserved s ≡ false → is_reserved (take 200 s) ≡ false
is_reserved-take [] h = h
is_reserved-take (a ∷ []) h = h
is_reserved-take (a ∷ b ∷ []) h = h
is_reserved-take (a ∷ b ∷ c ∷ s) h = ground arith

named-IsFilename : (s : Runes) → all is_safe s ≡ true → IsFilename (named s)
named-IsFilename s h = elim (Bool-cases (is_reserved s)) [
  | inl e ↦ rw e (refl, omega arith, refl)
  | inr e ↦ rw e (is_reserved-take s e, omega (arith, length-take 200 s), all-take is_safe 200 s h)
]

-- Whatever name a sender gives, the name that is kept is not empty, `.` or `..`, has at most 200 runes, and
-- none of them is a control character, a separator, a quote or a backslash.
pub sanitize_filename-IsFilename : (name : Runes) → IsFilename (sanitize_filename name)
unfolding sanitize_filename
sanitize_filename-IsFilename name =
    let replaced = map no_backslash (trim name) in
    let based = all-base is_no_backslash replaced refl refl (all-no_backslash (trim name)) in
    let cleaned = clean (base replaced) in
    named-IsFilename (trim cleaned) (
      all-trim_right is_safe (trim_left cleaned)
        (all-trim_left is_safe cleaned (all-clean (base replaced) based)))

-- A code point.
abbrev pub is_rune : ℕ → Bool
is_rune c = ltb c 1_114_112

runes-no_backslash : (s : Runes) → all is_rune s ≡ true → all is_rune (map no_backslash s) ≡ true
runes-no_backslash [] h = refl
runes-no_backslash (c ∷ s) h = ground (arith, runes-no_backslash s)

runes-clean : (s : Runes) → all is_rune s ≡ true → all is_rune (clean s) ≡ true
runes-clean [] h = refl
runes-clean (c ∷ s) h = ground (arith, runes-clean s)

runes-named : (s : Runes) → all is_rune s ≡ true → all is_rune (named s) ≡ true
runes-named s h = elim (Bool-cases (is_reserved s)) [
  | inl e ↦ rw e refl
  | inr e ↦ rw e (all-take is_rune 200 s h)
]

all-trim : (p : ℕ → Bool) (s : Runes) → all p s ≡ true → all p (trim s) ≡ true
all-trim p s h = all-trim_right p (trim_left s) (all-trim_left p s h)

pub sanitize_filename-runes :
    (name : Runes) → all is_rune name ≡ true → all is_rune (sanitize_filename name) ≡ true
unfolding sanitize_filename
sanitize_filename-runes name h =
    let replaced = map no_backslash (trim name) in
    let based =
      all-base is_rune replaced refl refl
        (runes-no_backslash (trim name) (all-trim is_rune name h)) in
    let cleaned = clean (base replaced) in
    runes-named (trim cleaned) (all-trim is_rune cleaned (runes-clean (base replaced) based))
