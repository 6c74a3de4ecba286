-- ===== src/Media/Store/Losses.antt =====
-- internal/media/media.go: uploads that the store does not serve.
use whatsapp_mcp_docker.Base.{
  ◌-◌, ◌^◌, ◌≡◌, refl, ap, ◌∙◌, inl, inr, true, false, none, some, ◌++◌, Bytes, codes,
  bytes_eq_refl,
}
use whatsapp_mcp_docker.Cache.Table.{find}
use whatsapp_mcp_docker.Media.Digests.{
  is_digest, normalize_digest_of_digest, sanitize_ext, sanitize_ext_of_ext,
}
use whatsapp_mcp_docker.Media.Filenames.{Runes}
use whatsapp_mcp_docker.Media.Mime.{extension_for_mime}
use whatsapp_mcp_docker.Media.Directory.{
  File, Directory, write, find-write, bytes_at, temp_apart, bytes_key,
}
use whatsapp_mcp_docker.Media.Payloads.{
  Sidecar, Call, create_temp, remove_blob, not_found, empty_upload, ok, err, Codec, Io, Options,
  Payload, copy, max_upload,
}
use whatsapp_mcp_docker.Media.Store.{
  sidecar_name, dot_json, descriptor, or_default_mime, new_sidecar, load_sidecar, place_blob,
  put_stream,
}
use whatsapp_mcp_docker.Media.Store.Objects.{object, object_lem}
use whatsapp_mcp_docker.Media.Store.Placing.{place_blob-cases}
use whatsapp_mcp_docker.Media.Payloads.{copy_payload, close_temp, read_sidecar}
use whatsapp_mcp_docker.Media.Store.{put, put_reader}
use whatsapp_mcp_docker.Media.Store.Refinement.{HasTemps}
use whatsapp_mcp_docker.Media.Store.Answers.{place_blob-works}

module _ (codec : Codec) (io : Io) (meta : Sidecar) (f : File) (d : Directory)
    (works : (call : Call) → io.fails call ≡ false) (digest : is_digest meta.sha256 ≡ true)
    (reads : codec.unmarshal (codec.marshal meta) ≡ some meta) (json : meta.ext ≡ dot_json)
    (temps : HasTemps io) (there : find io.temp d ≡ some f) where
  placed_sidecar :
      bytes_at (sidecar_name meta.sha256) (place_blob codec io meta d).dir
      ≡ some (codec.marshal meta)
  placed_sidecar =
      elim (place_blob-cases codec io meta d f (sidecar_name meta.sha256) there
        (temp_apart io.temp meta.sha256 dot_json temps.0 digest)
        (temp_apart io.sidecar_temp meta.sha256 dot_json temps.1 digest) (works remove_blob)) [
          | inl (r, b) ↦ b ∙ rw (bytes_eq_refl (sidecar_name meta.sha256)) refl
          | inr (x, r, b) ↦ let good = place_blob-works codec io works meta d in absurd cc
        ]

  pub place_blob-json :
      object codec (place_blob codec io meta d).dir meta.sha256
      ≡ some (record { bytes = codec.marshal meta; desc = descriptor meta })
  place_blob-json =
      let dir = (place_blob codec io meta d).dir in
      let ext : sanitize_ext meta.ext ≡ dot_json =
        ap sanitize_ext json ∙ sanitize_ext_of_ext dot_json refl in
      let blob : bytes_at (meta.sha256 ++ sanitize_ext meta.ext) dir ≡ some (codec.marshal meta) =
        ap (λ e. bytes_at (meta.sha256 ++ e) dir) ext ∙ placed_sidecar in
      object_lem codec dir meta.sha256 digest ∙ rw (placed_sidecar, reads, blob) refl

module _ (codec : Codec) (opts : Options) (io : Io) (bytes : Bytes) (m filename : Runes)
    (d : Directory) where
  abbrev meta_of : Sidecar
  meta_of = new_sidecar codec (or_default_mime m) filename bytes

  load_sidecar-missing :
      (d' : Directory)
      → is_digest (codec.hash bytes) ≡ true
      → io.fails read_sidecar ≡ false
      → find (sidecar_name (codec.hash bytes)) d' ≡ none
      → load_sidecar codec io (codec.hash bytes) d' ≡ err not_found
  unfolding load_sidecar
  load_sidecar-missing d' digest reads missing =
      rw (normalize_digest_of_digest (codec.hash bytes) digest, missing, reads) refl

  put-new :
      ((call : Call) → io.fails call ≡ false)
      → is_digest (codec.hash bytes) ≡ true
      → HasTemps io
      → find (sidecar_name (codec.hash bytes)) d ≡ none
      → put codec opts io bytes m filename d
        ≡ place_blob codec io meta_of (write io.temp (record { bytes = bytes; mtime = io.now }) d)
  unfolding put_stream copy
  put-new works digest temps missing =
      let file : File = record { bytes = bytes; mtime = io.now } in
      let absent = load_sidecar-missing (write io.temp file d) digest (works read_sidecar) (
        find-write io.temp _ file d
        ∙ rw (temp_apart io.temp (codec.hash bytes) dot_json temps.0 digest) missing) in
      rw (works create_temp, works copy_payload, works close_temp, absent) refl

  -- Suppose that no call fails, that the hash of the bytes is a digest with no sidecar yet, that temporary
  -- files have their names, that the JSON of the new sidecar reads back, and that the type's extension is
  -- `.json`. Then Put answers with the descriptor of the new object, and the store serves the JSON of the
  -- sidecar under its digest, in place of the bytes.
  pub put_json_lost :
      ((call : Call) → io.fails call ≡ false)
      → is_digest (codec.hash bytes) ≡ true
      → HasTemps io
      → find (sidecar_name (codec.hash bytes)) d ≡ none
      → codec.unmarshal (codec.marshal (new_sidecar codec (or_default_mime m) filename bytes))
        ≡ some (new_sidecar codec (or_default_mime m) filename bytes)
      → extension_for_mime codec.mimes (or_default_mime m) ≡ codes ".json"
      → ((put codec opts io bytes m filename d).result
          ≡ ok (descriptor (new_sidecar codec (or_default_mime m) filename bytes)))
        × (object codec (put codec opts io bytes m filename d).dir (codec.hash bytes)
            ≡ some (record {
              bytes = codec.marshal (new_sidecar codec (or_default_mime m) filename bytes);
              desc = descriptor (new_sidecar codec (or_default_mime m) filename bytes);
            }))
  put_json_lost works digest temps missing reads json =
      let file : File = record { bytes = bytes; mtime = io.now } in
      let there = find-write io.temp io.temp file d ∙ rw (bytes_eq_refl io.temp) refl in
      rw (put-new works digest temps missing) (
        place_blob-works codec io works meta_of (write io.temp file d),
        place_blob-json codec io meta_of file (write io.temp file d) works digest reads json temps
            there,
      )

-- If the upload limit is the largest int64, one byte past it is a negative number: when no call fails, every
-- upload from outside is refused as empty.
pub put_reader_overflow :
    (codec : Codec) (opts : Options) (io : Io) (payload : Payload) (m filename : Runes)
    (d : Directory)
    → ((call : Call) → io.fails call ≡ false)
    → opts.max_upload_bytes ≡ 2 ^ 63 - 1
    → (put_reader codec opts io payload m filename d).result ≡ err empty_upload
unfolding put_stream copy max_upload
put_reader_overflow codec opts io payload m filename d works huge =
    rw (works create_temp, huge, works copy_payload) refl
