-- ===== src/Media/Store/Objects.antt =====
-- internal/media/media.go: the objects that the store serves, as `Open` finds them.
use whatsapp_mcp_docker.Base.{
  ◌≡◌, refl, sym, ap, ◌∙◌, ◌≢◌, ◌⊎◌, inl, inr, true, false, Option, none, some, ◌++◌, arith,
  Option-cases, Bytes, codes,
}
use whatsapp_mcp_docker.Cache.Table.{find}
use whatsapp_mcp_docker.Media.Digests.{is_digest, sanitize_ext, normalize_digest_of_digest}
use whatsapp_mcp_docker.Media.Directory.{File, Directory, bytes_at, content, bytes_key}
use whatsapp_mcp_docker.Media.Payloads.{Sidecar, Descriptor, Result, ok, err, not_found, Codec, Io}
use whatsapp_mcp_docker.Media.Store.{
  sidecar_name, blob_name, dot_json, descriptor, Opened, parsed, read_file, opened_file,
  opened_sidecar, load_sidecar, open_blob_of,
}

-- No call fails.
abbrev pub calm : Io
calm = record {
  fails = λ call. false;
  now = 0;
  temp = codes ".tmp-0";
  sidecar_temp = codes ".tmp-1";
}

-- What is served under a digest.
pub record Object : Type 0 where
  pub bytes : Bytes
  pub desc : Descriptor

abbrev pub object_of : Result Opened → Option Object
object_of (err e) = none
object_of (ok o) = some (record { bytes = o.bytes; desc = o.desc })

-- The object of a digest: what Open finds when no call fails.
abbrev pub object : Codec → Directory → Bytes → Option Object
object codec d digest = object_of (open_blob_of codec calm digest d).result

-- The same, from the bytes of the files that have the digest's name.
abbrev pub blob_object : Sidecar → Option Bytes → Option Object
blob_object meta none = none
blob_object meta (some b) = some (record { bytes = b; desc = descriptor meta })

abbrev pub meta_object : Bytes → Option Sidecar → Directory → Option Object
meta_object digest none d = none
meta_object digest (some meta) d =
    blob_object (record meta { sha256 = digest }) (bytes_at (digest ++ sanitize_ext meta.ext) d)

abbrev pub file_object : Codec → Bytes → Option Bytes → Directory → Option Object
file_object codec digest none d = none
file_object codec digest (some b) d = meta_object digest (codec.unmarshal b) d

opened_file-calm :
    (meta : Sidecar) (d : Directory)
    → object_of (opened_file calm meta d (find (blob_name meta) d)).result
      ≡ blob_object meta (bytes_at (blob_name meta) d)
opened_file-calm meta d = elim (Option-cases (find (blob_name meta) d)) [
  | inl e ↦ rw e refl
  | inr (f, e) ↦ rw e refl
]

opened_sidecar-calm :
    (digest : Bytes) (meta : Option Sidecar) (d : Directory)
    → object_of (opened_sidecar calm d (parsed digest meta)).result ≡ meta_object digest meta d
opened_sidecar-calm digest none d = refl
opened_sidecar-calm digest (some meta) d = opened_file-calm (record meta { sha256 = digest }) d

pub object_lem :
    (codec : Codec) (d : Directory) (digest : Bytes)
    → is_digest digest ≡ true
    → object codec d digest ≡ file_object codec digest (bytes_at (sidecar_name digest) d) d
unfolding open_blob_of load_sidecar
object_lem codec d digest h =
    rw (normalize_digest_of_digest digest h) (elim (Option-cases (find (sidecar_name digest) d)) [
      | inl e ↦ rw e refl
      | inr (f, e) ↦ rw e (opened_sidecar-calm digest (codec.unmarshal f.bytes) d)
    ])

-- The files of the digest have the same bytes in both directories.
abbrev pub SameFiles : Bytes → Directory → Directory → Type 0
SameFiles digest d d' = (e : Bytes) → bytes_at (digest ++ e) d' ≡ bytes_at (digest ++ e) d

-- They have, or are gone.
abbrev pub FewerFiles : Bytes → Directory → Directory → Type 0
FewerFiles digest d d' =
    (e : Bytes)
    → (bytes_at (digest ++ e) d' ≡ bytes_at (digest ++ e) d) ⊎ (bytes_at (digest ++ e) d' ≡ none)

module _ (codec : Codec) (digest : Bytes) (d d' : Directory) where
  meta_object-same :
      (meta : Option Sidecar)
      → SameFiles digest d d'
      → meta_object digest meta d' ≡ meta_object digest meta d
  meta_object-same none same = refl
  meta_object-same (some meta) same = rw same refl

  file_object-same :
      (b : Option Bytes)
      → SameFiles digest d d'
      → file_object codec digest b d' ≡ file_object codec digest b d
  file_object-same none same = refl
  file_object-same (some b) same = meta_object-same (codec.unmarshal b) same

  -- An object depends on nothing but the bytes of its files.
  pub object-same :
      is_digest digest ≡ true
      → SameFiles digest d d'
      → object codec d' digest ≡ object codec d digest
  object-same h same =
      object_lem codec d' digest h
      ∙ (ap (λ b. file_object codec digest b d') (same dot_json)
          ∙ (file_object-same (bytes_at (sidecar_name digest) d) same
              ∙ sym (object_lem codec d digest h)))

  meta_object-fewer :
      (meta : Option Sidecar)
      → FewerFiles digest d d'
      → meta_object digest meta d ≡ none
      → meta_object digest meta d' ≡ none
  meta_object-fewer none fewer h = refl
  meta_object-fewer (some meta) fewer h = elim (fewer (sanitize_ext meta.ext)) [
    | inl same ↦ ap (blob_object (record meta { sha256 = digest })) same ∙ h
    | inr gone ↦ rw gone refl
  ]

  file_object-fewer :
      (b : Option Bytes)
      → FewerFiles digest d d'
      → file_object codec digest b d ≡ none
      → file_object codec digest b d' ≡ none
  file_object-fewer none fewer h = refl
  file_object-fewer (some b) fewer h = meta_object-fewer (codec.unmarshal b) fewer h

  -- Where files are lost, no object appears.
  pub object-fewer :
      is_digest digest ≡ true
      → FewerFiles digest d d'
      → object codec d digest ≡ none
      → object codec d' digest ≡ none
  object-fewer h fewer absent =
      let before = sym (object_lem codec d digest h) ∙ absent in
      object_lem codec d' digest h ∙ elim (fewer dot_json) [
        | inl same ↦
            ap (λ b. file_object codec digest b d') same
            ∙ file_object-fewer (bytes_at (sidecar_name digest) d) fewer before
        | inr gone ↦ rw gone refl
      ]

abbrev ok_or {ℓ} : {A : Type ℓ} → A → Result A → A
ok_or a (ok b) = b
ok_or a (err e) = a

pub ok_inj {ℓ} : {A : Type ℓ} (a b : A) → ok a ≡ ok b → a ≡ b
ok_inj a b h = ap (ok_or a) h

module _ (codec : Codec) (io : Io) (digest : Bytes) (d : Directory)
    (h : is_digest digest ≡ true) where
  parsed-ok :
      (o : Option Sidecar) (existing : Sidecar)
      → parsed digest o ≡ ok existing
      → meta_object digest o d ≡ blob_object existing (bytes_at (blob_name existing) d)
  parsed-ok none existing e = absurd cc
  parsed-ok (some meta) existing e = rw (← ok_inj (record meta { sha256 = digest }) existing e) refl

  read_file-ok :
      (f : Option File) (existing : Sidecar)
      → read_file codec io digest f ≡ ok existing
      → file_object codec digest (content f) d
        ≡ blob_object existing (bytes_at (blob_name existing) d)
  read_file-ok none existing e = absurd (ground arith)
  read_file-ok (some f) existing e = parsed-ok (codec.unmarshal f.bytes) existing (ground arith)

  -- The sidecar that is read is the one of the object.
  pub load_sidecar-ok :
      (existing : Sidecar)
      → load_sidecar codec io digest d ≡ ok existing
      → object codec d digest ≡ blob_object existing (bytes_at (blob_name existing) d)
  unfolding load_sidecar
  load_sidecar-ok existing e =
      object_lem codec d digest h
      ∙ read_file-ok (find (sidecar_name digest) d) existing
          (rw (normalize_digest_of_digest digest h) at e)

  parsed_found : (o : Option Sidecar) → parsed digest o ≢ err not_found
  parsed_found none e = absurd cc
  parsed_found (some meta) e = absurd cc

  read_file-not_found :
      (f : Option File) → read_file codec io digest f ≡ err not_found → content f ≡ none
  read_file-not_found none e = refl
  read_file-not_found (some f) e = absurd (ground (arith, parsed_found (codec.unmarshal f.bytes)))

  pub load_sidecar-not_found :
      load_sidecar codec io digest d ≡ err not_found → object codec d digest ≡ none
  unfolding load_sidecar
  load_sidecar-not_found e =
      object_lem codec d digest h
      ∙ ap (λ b. file_object codec digest b d)
          (read_file-not_found (find (sidecar_name digest) d)
            (rw (normalize_digest_of_digest digest h) at e))
