-- ===== src/Media/Directory.antt =====
-- internal/media: the store's directory, as the files that its names hold, and the calls on it.
use whatsapp_mcp_docker.Base.{
  ℕ, ◌≡◌, refl, ◌↔◌, inl, inr, Bool, true, false, Option, none, some, [], ◌∷◌, ◌++◌, arith, ◌==◌,
  if◌then◌else◌, Bool-cases, Option-cases, length, Bytes, codes, bytes_eq, bytes_eq_sound,
  bytes_eq_refl, has_prefix,
}
use whatsapp_mcp_docker.Base.Keys.{Eq}
use whatsapp_mcp_docker.Cache.Table
use whatsapp_mcp_docker.Cache.Table.{Table, find, table_laws}
use whatsapp_mcp_docker.Media.Digests.{is_digest}

pub bytes_eq_iff : (s t : Bytes) → (bytes_eq s t ≡ true) ↔ (s ≡ t)
bytes_eq_iff s t = (bytes_eq_sound s t, λ e. rw e (bytes_eq_refl t))

instance abbrev pub bytes_key : Eq Bytes
bytes_key = record { beq = bytes_eq; beq_iff = bytes_eq_iff }

pub record File : Type 0 where
  pub bytes : Bytes
  -- The time of the last change, in nanoseconds.
  pub mtime : ℕ

abbrev pub Directory : Type 0
Directory = Table Bytes File

-- A file of the name is created, or its bytes replaced.
unfoldable pub write : Bytes → File → Directory → Directory
unfolding Table.upsert
write name f d = Table.upsert name f (λ _. f) d

-- os.Remove, where a missing file is no matter
unfoldable pub remove : Bytes → Directory → Directory
unfolding Table.delete
remove name d = Table.delete name d

abbrev moved : Bytes → Bytes → Option File → Directory → Directory
moved old name none d = d
moved old name (some f) d = write name f (remove old d)

-- os.Rename: a file of the new name is replaced.
unfoldable pub rename : Bytes → Bytes → Directory → Directory
unfolding write remove find
rename old name d = moved old name (find old d) d

-- os.Chtimes
unfoldable pub chtimes : Bytes → ℕ → Directory → Directory
unfolding Table.modify
chtimes name t d = Table.modify name (λ f. record f { mtime = t }) d

pub find-write :
    (name j : Bytes) (f : File) (d : Directory)
    → find j (write name f d) ≡ (if bytes_eq name j then some f else find j d)
unfolding write
find-write name j f d = simp table_laws (ground arith)

pub find-remove :
    (name j : Bytes) (d : Directory)
    → find j (remove name d) ≡ (if bytes_eq name j then none else find j d)
unfolding remove
find-remove name j d = simp table_laws (ground arith)

pub find-rename :
    (old name j : Bytes) (f : File) (d : Directory)
    → find old d ≡ some f
    → find j (rename old name d)
      ≡ (if bytes_eq name j then some f else if bytes_eq old j then none else find j d)
unfolding rename
find-rename old name j f d h = rw h (simp (find-write, find-remove) refl)

-- A file's bytes.
abbrev pub content : Option File → Option Bytes
content none = none
content (some f) = some f.bytes

-- The bytes that the directory has under a name.
abbrev pub bytes_at : Bytes → Directory → Option Bytes
bytes_at name d = content (find name d)

pub bytes_at-write :
    (name j : Bytes) (f : File) (d : Directory)
    → bytes_at j (write name f d) ≡ (if bytes_eq name j then some f.bytes else bytes_at j d)
bytes_at-write name j f d = rw find-write (ground arith)

pub bytes_at-remove :
    (name j : Bytes) (d : Directory)
    → bytes_at j (remove name d) ≡ (if bytes_eq name j then none else bytes_at j d)
bytes_at-remove name j d = rw find-remove (ground arith)

pub bytes_at-rename :
    (old name j : Bytes) (f : File) (d : Directory)
    → find old d ≡ some f
    → bytes_at j (rename old name d)
      ≡ (if bytes_eq name j then some f.bytes else if bytes_eq old j then none else bytes_at j d)
bytes_at-rename old name j f d h = rw (find-rename old name j f d h) (ground arith)

pub bytes_at-chtimes :
    (name j : Bytes) (t : ℕ) (d : Directory) → bytes_at j (chtimes name t d) ≡ bytes_at j d
unfolding chtimes
bytes_at-chtimes name j t d = elim (Bool-cases (bytes_eq name j)) [
  | inl e ↦
      simp table_laws
        (rw e (elim (Option-cases (find j d)) [ inl n ↦ rw n refl | inr (f, n) ↦ rw n refl ]))
  | inr e ↦ simp table_laws (rw e refl)
]

-- A name of os.CreateTemp for the store's pattern.
abbrev pub is_temp : Bytes → Bool
is_temp name = has_prefix (codes ".tmp-") name

-- No name of a digest's files is one of a temporary file.
pub temp_apart :
    (t j e : Bytes) → is_temp t ≡ true → is_digest j ≡ true → bytes_eq t (j ++ e) ≡ false
temp_apart [] j e h d = absurd (ground arith)
temp_apart (c ∷ t) [] e h d = absurd (ground arith)
temp_apart (c ∷ t) (b ∷ j) e h d = ground arith

pub same_digest : (j e f : Bytes) → bytes_eq (j ++ e) (j ++ f) ≡ bytes_eq e f
same_digest [] e f = refl
same_digest (c ∷ j) e f = ground (arith, same_digest j e f)

same_length_apart :
    (j k e f : Bytes)
    → length j ≡ length k
    → bytes_eq j k ≡ false
    → bytes_eq (j ++ e) (k ++ f) ≡ false
same_length_apart [] [] e f l h = absurd (ground arith)
same_length_apart [] (c ∷ k) e f l h = absurd (omega arith)
same_length_apart (c ∷ j) [] e f l h = absurd (omega arith)
same_length_apart (c ∷ j) (b ∷ k) e f l h = elim (Bool-cases (c == b)) [
  | inl s ↦ rw s (same_length_apart j k e f (omega arith) (ground arith))
  | inr s ↦ rw s refl
]

-- The files of two digests have different names.
pub digests_apart :
    (j k e f : Bytes)
    → is_digest j ≡ true
    → is_digest k ≡ true
    → bytes_eq j k ≡ false
    → bytes_eq (j ++ e) (k ++ f) ≡ false
digests_apart j k e f dj dk h = same_length_apart j k e f (ground arith) h
