-- ===== src/Media/Store/Answers.antt =====
-- internal/media/media.go: what uploads answer, and what the store serves after them.
use whatsapp_mcp_docker.Base.{
  ℕ, ◌+◌, ◌^◌, ◌≤◌, ◌<◌, ◌≡◌, refl, sym, ap, ◌∙◌, ◌≢◌, inl, inr, Bool, true, false, Option, none,
  some, arith, ltb, ◌==◌, if◌then◌else◌, Bool-cases, length, take, length-take, take_of_length-le,
  Bytes, bytes_eq, bytes_eq_sound,
}
use whatsapp_mcp_docker.Cache.Table.{find}
use whatsapp_mcp_docker.Media.Digests.{is_digest, normalize_digest_of_digest}
use whatsapp_mcp_docker.Media.Filenames.{Runes}
use whatsapp_mcp_docker.Media.Directory.{File, Directory, write, find-write, temp_apart, bytes_key}
use whatsapp_mcp_docker.Media.Payloads.{
  Sidecar, Descriptor, Call, create_temp, stat_blob, remove_blob, StoreError, too_large,
  empty_upload, ok, err, Codec, Io, Options, Payload, copy, max_upload, refusal,
}
use whatsapp_mcp_docker.Media.Store.{
  Done, sidecar_name, blob_name, dot_json, descriptor, has_file, or_default_mime, new_sidecar,
  load_sidecar, place_blob, after_lookup, after_copy, put_stream,
}
use whatsapp_mcp_docker.Media.Store.Objects.{Object, object}
use whatsapp_mcp_docker.Media.Payloads.{
  eof, create_sidecar, write_sidecar, close_sidecar, chmod_sidecar, rename_sidecar, chmod_blob,
  rename_blob, copy_payload, close_temp, read_cap,
}
use whatsapp_mcp_docker.Media.Store.{put_reader, parsed, read_file, write_file}
use whatsapp_mcp_docker.Media.Store.Refinement.{kept, sidecar_of, object_of_upload, HasTemps}
use whatsapp_mcp_docker.Media.Store.Uploads.{put_stream_refines}

-- The bytes that are served under a digest have that digest.
abbrev pub IsIntact : Codec → Directory → Type 0
IsIntact codec d =
    (j : Bytes) (o : Object)
    → is_digest j ≡ true
    → object codec d j ≡ some o
    → codec.hash o.bytes ≡ j

some_or {ℓ} : {A : Type ℓ} → A → Option A → A
some_or a none = a
some_or a (some b) = b

pub some_inj {ℓ} : {A : Type ℓ} (a b : A) → some a ≡ some b → a ≡ b
unfolding some_or
some_inj a b h = ap (some_or a) h

kept_intact :
    (codec : Codec) (digest : Bytes) (old : Option Object) (new : Object)
    → ((o : Object) → old ≡ some o → codec.hash o.bytes ≡ digest)
    → codec.hash new.bytes ≡ digest
    → codec.hash (kept old new).bytes ≡ digest
kept_intact codec digest none new h n = n
kept_intact codec digest (some old) new h n = h old refl

-- Under the hypotheses of the refinement, an upload keeps the store intact: if the bytes that were served
-- under each digest had that digest, then the bytes that are served afterwards have it.
pub put_stream-IsIntact :
    (codec : Codec) (opts : Options) (io : Io) (payload : Payload) (bounded : Bool)
    (m filename : Runes) (d : Directory)
    → is_digest (sidecar_of codec opts payload bounded m filename).sha256 ≡ true
    → codec.unmarshal (codec.marshal (sidecar_of codec opts payload bounded m filename))
      ≡ some (sidecar_of codec opts payload bounded m filename)
    → bytes_eq dot_json (sidecar_of codec opts payload bounded m filename).ext ≡ false
    → HasTemps io
    → io.fails stat_blob ≡ false
    → io.fails remove_blob ≡ false
    → IsIntact codec d
    → IsIntact codec (put_stream codec opts io payload bounded m filename d).dir
put_stream-IsIntact codec opts io payload bounded m filename d digest reads not_json temps readable
      removable intact j o h served =
    let meta = sidecar_of codec opts payload bounded m filename in
    let new = object_of_upload codec opts payload bounded m filename in
    let done = put_stream codec opts io payload bounded m filename d in
    elim (put_stream_refines codec opts io payload bounded m filename d digest reads not_json temps
      readable removable) [
        | inl (r, stored) ↦ elim (Bool-cases (bytes_eq meta.sha256 j)) [
          | inl t ↦
              let at : meta.sha256 ≡ j = bytes_eq_sound meta.sha256 j t in
              let this : o ≡ kept (object codec d meta.sha256) new =
                some_inj o (kept (object codec d meta.sha256) new)
                  (sym served ∙ (stored j h ∙ rw t refl)) in
              rw this (
                kept_intact codec meta.sha256 (object codec d meta.sha256) new
                  (λ old e. intact meta.sha256 old digest e) refl
                ∙ at)
          | inr t ↦ intact j o h (sym (stored j h ∙ rw t refl) ∙ served)
        ]
        | inr (x, r, same) ↦ intact j o h (sym (same j h) ∙ served)
      ]

-- The answer is a descriptor of the digest.
abbrev pub Answered : Bytes → Done Descriptor → Type 0
Answered digest done = (desc : Descriptor) × (done.result ≡ ok desc) × (desc.sha256 ≡ digest)

module _ (codec : Codec) (io : Io) (works : (call : Call) → io.fails call ≡ false) where
  pub place_blob-works :
      (meta : Sidecar) (d : Directory) → (place_blob codec io meta d).result ≡ ok (descriptor meta)
  unfolding place_blob write_file
  place_blob-works meta d =
      rw
        (
          works chmod_blob,
          works rename_blob,
          works create_sidecar,
          works write_sidecar,
          works close_sidecar,
          works chmod_sidecar,
          works rename_sidecar,
        )
        refl

  after_existing :
      (meta existing : Sidecar) (d : Directory)
      → existing.sha256 ≡ meta.sha256
      → Answered meta.sha256 (after_lookup codec io meta d (ok existing))
  unfolding descriptor
  after_existing meta existing d same =
      let placed = place_blob-works meta d in
      elim (Bool-cases (has_file (find (blob_name existing) d))) [
        | inl e ↦ rw (e, works stat_blob) (_, refl, same)
        | inr e ↦ rw e (_, placed, refl)
      ]

  after_parsed :
      (meta : Sidecar) (d : Directory) (o : Option Sidecar)
      → o ≢ none
      → Answered meta.sha256 (after_lookup codec io meta d (parsed meta.sha256 o))
  after_parsed meta d none readable = absurd (readable refl)
  after_parsed meta d (some existing) readable =
      after_existing meta (record existing { sha256 = meta.sha256 }) d refl

  after_file :
      (meta : Sidecar) (d : Directory) (f : Option File)
      → ((g : File) → f ≡ some g → codec.unmarshal g.bytes ≢ none)
      → Answered meta.sha256 (after_lookup codec io meta d (read_file codec io meta.sha256 f))
  unfolding descriptor
  after_file meta d none readable =
      let placed = place_blob-works meta d in rw works (_, placed, refl)
  after_file meta d (some g) readable =
      let found = after_parsed meta d (codec.unmarshal g.bytes) (readable g refl) in rw works found

  after_load :
      (meta : Sidecar) (d : Directory)
      → is_digest meta.sha256 ≡ true
      → ((g : File) → find (sidecar_name meta.sha256) d ≡ some g → codec.unmarshal g.bytes ≢ none)
      → Answered meta.sha256 (after_lookup codec io meta d (load_sidecar codec io meta.sha256 d))
  unfolding load_sidecar
  after_load meta d digest readable =
      rw (normalize_digest_of_digest meta.sha256 digest)
        (after_file meta d (find (sidecar_name meta.sha256) d) readable)

-- A payload whose reader ends without an error.
abbrev pub whole : Bytes → Payload
whole bytes = record { bytes = bytes; ending = eof }

pub copy-whole :
    (limit : ℕ) (bytes : Bytes)
    → limit + 1 < 2 ^ 63
    → copy true limit (whole bytes) ≡ record { bytes = take (limit + 1) bytes; error = none }
unfolding copy
copy-whole limit bytes room =
    let cap : read_cap limit ≡ limit + 1 = ground arith in
    rw cap (ap (λ e. record { bytes = take (limit + 1) bytes; error = e }) (ground arith))

abbrev refused_for : ℕ → Bytes → Option StoreError
refused_for limit bytes =
    if ltb limit (length bytes)
    then some too_large
    else if length bytes == 0
    then some empty_upload
    else none

module _ (codec : Codec) (opts : Options) (io : Io) (works : (call : Call) → io.fails call ≡ false)
    (m filename : Runes) (d : Directory) where
  refusal-works :
      (limit : ℕ) (bytes : Bytes)
      → refusal io true limit (record { bytes = bytes; error = none }) ≡ refused_for limit bytes
  refusal-works limit bytes = rw (works copy_payload, works close_temp) refl

  abbrev read_bytes : Bytes → Bytes
  read_bytes bytes = take (max_upload opts + 1) bytes

  put_reader-works :
      (bytes : Bytes)
      → max_upload opts + 1 < 2 ^ 63
      → put_reader codec opts io (whole bytes) m filename d
        ≡ after_copy codec io
            (or_default_mime m)
            filename
            (read_bytes bytes)
            (refused_for (max_upload opts) (read_bytes bytes))
            (write io.temp (record { bytes = read_bytes bytes; mtime = io.now }) d)
  unfolding put_stream
  put_reader-works bytes room =
      rw
        (
          works create_temp,
          copy-whole (max_upload opts) bytes room,
          refusal-works (max_upload opts) (read_bytes bytes),
        )
        refl

-- Suppose that no call fails, that the reader of the payload ends without an error, that the upload limit
-- leaves room for one byte more in an int64, that the hash of the payload is a digest, that temporary files
-- have their names, and that the digest's sidecar can be parsed if there is one. Then an upload from outside is answered by
-- ErrTooLarge if it has more bytes than the limit, by ErrEmptyUpload if it has none, and otherwise by a
-- descriptor under the hash of exactly these bytes: a payload at the limit is stored whole.
pub put_reader_lem :
    (codec : Codec) (opts : Options) (io : Io) (bytes : Bytes) (m filename : Runes) (d : Directory)
    → ((call : Call) → io.fails call ≡ false)
    → max_upload opts + 1 < 2 ^ 63
    → is_digest (codec.hash bytes) ≡ true
    → HasTemps io
    → ((g : File)
        → find (sidecar_name (codec.hash bytes)) d ≡ some g
        → codec.unmarshal g.bytes ≢ none)
    → (max_upload opts < length bytes
        → (put_reader codec opts io (whole bytes) m filename d).result ≡ err too_large)
      × (length bytes ≡ 0
          → (put_reader codec opts io (whole bytes) m filename d).result ≡ err empty_upload)
      × (0 < length bytes
          → length bytes ≤ max_upload opts
          → Answered (codec.hash bytes) (put_reader codec opts io (whole bytes) m filename d))
put_reader_lem codec opts io bytes m filename d works room digest temps readable =
    let run = put_reader-works codec opts io works m filename d bytes room in
    let taken = length-take (max_upload opts + 1) bytes in
    (
      λ large.
          let over : ltb (max_upload opts) (length (take (max_upload opts + 1) bytes)) ≡ true =
            ground arith in
          rw (run, over) refl,
      λ empty.
          let over : ltb (max_upload opts) (length (take (max_upload opts + 1) bytes)) ≡ false =
            ground arith in
          let no_bytes : (length (take (max_upload opts + 1) bytes) == 0) ≡ true = ground arith in
          rw (run, over, no_bytes) refl,
      λ some_bytes within.
          let all' : take (max_upload opts + 1) bytes ≡ bytes =
            take_of_length-le bytes (omega arith) in
          let over : ltb (max_upload opts) (length bytes) ≡ false = ground arith in
          let any_bytes : (length bytes == 0) ≡ false = ground arith in
          let file : File = record { bytes = bytes; mtime = io.now } in
          let apart = temp_apart io.temp (codec.hash bytes) dot_json temps.0 digest in
          rw (run, all', over, any_bytes)
            (after_load codec io works (new_sidecar codec (or_default_mime m) filename bytes)
              (write io.temp file d) digest
              (λ g e. readable g (sym (find-write io.temp _ file d ∙ rw apart refl) ∙ e))),
    )
