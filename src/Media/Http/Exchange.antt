-- ===== src/Media/Http/Exchange.antt =====
-- internal/media: an upload by one route and its download by the other.
use whatsapp_mcp_docker.Base.{
  ◌+◌, ◌^◌, ◌≤◌, ◌<◌, ◌≡◌, refl, sym, ap, ◌∙◌, inl, inr, true, false, Option, none, some, [], ◌++◌,
  arith, leb, length, take_of_length-le, Bytes, codes, bytes_eq, bytes_eq_refl,
}
use whatsapp_mcp_docker.Cache.Table.{find}
use whatsapp_mcp_docker.Media.Digests.{normalize_digest, is_digest, normalize_digest_of_digest}
use whatsapp_mcp_docker.Media.Filenames.{Runes}
use whatsapp_mcp_docker.Media.Directory.{File, Directory, bytes_key}
use whatsapp_mcp_docker.Media.Payloads.{
  Sidecar, Call, stat_blob, open_blob, read_sidecar, remove_blob, Result, ok, err, Codec, Io,
  Options, max_upload, read_cap, copy,
}
use whatsapp_mcp_docker.Media.Store.{
  Opened, sidecar_name, blob_name, dot_json, descriptor, or_default_mime, new_sidecar, read_file,
  read_normal, opened_file, opened_sidecar, load_sidecar, put_reader, open_blob_of,
}
use whatsapp_mcp_docker.Media.Store.Objects.{calm, Object, object, object_of, object_lem}
use whatsapp_mcp_docker.Media.Store.Refinement.{HasTemps}
use whatsapp_mcp_docker.Media.Store.Uploads.{put_stream_refines}
use whatsapp_mcp_docker.Media.Store.Answers.{whole, some_inj, put_reader_lem}
use whatsapp_mcp_docker.Media.Http.{
  get, post, UploadRequest, max_bytes_reader, limited_body, resolve_upload_mime, serve_upload,
  ServeRequest, ServeResponse, Content, serve_http, digest_from_request, serve_answer,
}

-- POST of a file.
abbrev pub upload_request : Runes → Runes → Bytes → UploadRequest
upload_request content_type filename bytes = record {
  method = post;
  content_type = content_type;
  filename = filename;
  body = whole bytes;
  error_with_last = false;
}

-- GET of a location.
abbrev pub download_request : Bytes → ServeRequest
download_request location = record { method = get; path_value = []; path = location }

-- What is under a digest is opened in the same way by every caller whose calls work.
module _ (codec : Codec) (io : Io) (works : (call : Call) → io.fails call ≡ false)
    (d : Directory) where
  opened_file-works :
      (meta : Sidecar) (f : Option File)
      → (opened_file io meta d f).result ≡ (opened_file calm meta d f).result
  opened_file-works meta none = refl
  opened_file-works meta (some f) = rw (works stat_blob) refl

  opened_sidecar-works :
      (meta : Result Sidecar)
      → (opened_sidecar io d meta).result ≡ (opened_sidecar calm d meta).result
  opened_sidecar-works (err e) = refl
  opened_sidecar-works (ok meta) =
      rw (works open_blob) (opened_file-works meta (find (blob_name meta) d))

  read_file-works :
      (digest : Bytes) (f : Option File)
      → read_file codec io digest f ≡ read_file codec calm digest f
  read_file-works digest none = rw (works read_sidecar) refl
  read_file-works digest (some f) = rw (works read_sidecar) refl

  read_normal-works :
      (digest : Option Bytes) → read_normal codec io digest d ≡ read_normal codec calm digest d
  read_normal-works none = refl
  read_normal-works (some digest) = read_file-works digest (find (sidecar_name digest) d)

  open_blob_of-works :
      (digest : Bytes)
      → (open_blob_of codec io digest d).result ≡ (open_blob_of codec calm digest d).result
  unfolding open_blob_of load_sidecar
  open_blob_of-works digest =
      rw (read_normal-works (normalize_digest digest))
        (opened_sidecar-works (read_normal codec calm (normalize_digest digest) d))

abbrev pub HasBytes : Object → ServeResponse → Type 0
HasBytes o response =
    (c : Content) × (response ≡ ServeResponse.content c)
    × (c.bytes ≡ o.bytes)
    × (c.content_type ≡ o.desc.mime)

answer_of_object :
    (r : Result Opened) (o : Object) → object_of r ≡ some o → HasBytes o (serve_answer r)
answer_of_object (err e) o h = absurd cc
answer_of_object (ok opened) o h =
    let same : (record { bytes = opened.bytes; desc = opened.desc }) ≡ o = some_inj _ o h in
    (_, refl, ap (λ (x : Object). x.bytes) same, ap (λ (x : Object). x.desc.mime) same)

limited_body-whole :
    (opts : Options) (content_type filename bytes : Bytes)
    → max_upload opts + 1 < 2 ^ 63
    → length bytes ≤ max_upload opts
    → limited_body opts (upload_request content_type filename bytes) ≡ whole bytes
unfolding max_bytes_reader
limited_body-whole opts content_type filename bytes room within =
    let cap : read_cap (max_upload opts) ≡ max_upload opts + 1 = ground arith in
    let fits : leb (length bytes) (max_upload opts + 1) ≡ true = ground arith in rw (cap, fits) refl

location-digest : (d : Bytes) → digest_from_request (download_request (codes "/media/" ++ d)) ≡ d
unfolding digest_from_request
location-digest d = refl

module _ (codec : Codec) (io : Io) (d : Directory)
    (works : (call : Call) → io.fails call ≡ false) where
  served_object :
      (digest : Bytes) (o : Object)
      → is_digest digest ≡ true
      → object codec d digest ≡ some o
      → HasBytes o (serve_http codec io (download_request (codes "/media/" ++ digest)) d).response
  unfolding serve_http
  served_object digest o h there =
      let found : object_of (open_blob_of codec io digest d).result ≡ some o =
        ap object_of (open_blob_of-works codec io works d digest) ∙ there in
      rw (location-digest digest, normalize_digest_of_digest digest h)
        (answer_of_object (open_blob_of codec io digest d).result o found)

-- The sidecar that an upload of new bytes gets.
abbrev pub uploaded_sidecar : Codec → Runes → Runes → Bytes → Sidecar
uploaded_sidecar codec content_type filename bytes =
    new_sidecar codec (or_default_mime (resolve_upload_mime codec.mimes content_type (whole bytes)))
      filename bytes

copied_whole :
    (opts : Options) (bytes : Bytes)
    → max_upload opts + 1 < 2 ^ 63
    → length bytes ≤ max_upload opts
    → (copy true (max_upload opts) (whole bytes)).bytes ≡ bytes
unfolding copy
copied_whole opts bytes room within =
    let cap : read_cap (max_upload opts) ≡ max_upload opts + 1 = ground arith in
    rw cap (take_of_length-le bytes (omega arith))

module _ (codec : Codec) (opts : Options) (io : Io) (bytes m filename : Bytes) (d : Directory)
    (works : (call : Call) → io.fails call ≡ false) (room : max_upload opts + 1 < 2 ^ 63)
    (some_bytes : 0 < length bytes) (within : length bytes ≤ max_upload opts)
    (digest : is_digest (codec.hash bytes) ≡ true) (temps : HasTemps io)
    (fresh : find (sidecar_name (codec.hash bytes)) d ≡ none) where
  abbrev meta : Sidecar
  meta = new_sidecar codec (or_default_mime m) filename bytes

  stored_new :
      codec.unmarshal (codec.marshal meta) ≡ some meta
      → bytes_eq dot_json meta.ext ≡ false
      → ((put_reader codec opts io (whole bytes) m filename d).result ≡ ok (descriptor meta))
        × (object codec (put_reader codec opts io (whole bytes) m filename d).dir (codec.hash bytes)
            ≡ some (record { bytes = bytes; desc = descriptor meta }))
  stored_new reads not_json =
      let same = copied_whole opts bytes room within in
      let absent : object codec d (codec.hash bytes) ≡ none =
        object_lem codec d (codec.hash bytes) digest ∙ rw fresh refl in
      let (large, none', good) =
        put_reader_lem codec opts io bytes m filename d works room digest temps
          (λ g e. absurd (let no : none ≡ some g = sym fresh ∙ e in cc)) in
      let (desc, answered, named) = good some_bytes within in
      elim (put_stream_refines codec opts io (whole bytes) true m filename d (rw same digest)
        (rw same reads) not_json temps (works stat_blob) (works remove_blob)) [
          | inl (result, objects) ↦ (
            rw (same, absent) at result,
            rw (same, absent, bytes_eq_refl (codec.hash bytes)) at
                (objects (codec.hash bytes) digest),
          )
          | inr (e, refused, objects) ↦ absurd cc
        ]

-- Suppose that no call fails, that the upload limit leaves room for one byte more in an int64, that the
-- bytes are at least one and within the limit, that their hash is a digest with no sidecar yet, that
-- temporary files have their names, that the JSON of the new sidecar reads back, and that the type's
-- extension is not `.json`. Then POST of the bytes is answered by 201 with a location under the digest, and
-- GET of that location, by any caller whose calls work, gives exactly these bytes with the type that was
-- stated or found.
pub serve_http-serve_upload :
    (codec : Codec) (opts : Options) (io reader : Io) (bytes content_type filename : Bytes)
    (d : Directory)
    → ((call : Call) → io.fails call ≡ false)
    → ((call : Call) → reader.fails call ≡ false)
    → max_upload opts + 1 < 2 ^ 63
    → 0 < length bytes
    → length bytes ≤ max_upload opts
    → is_digest (codec.hash bytes) ≡ true
    → HasTemps io
    → find (sidecar_name (codec.hash bytes)) d ≡ none
    → codec.unmarshal (codec.marshal (uploaded_sidecar codec content_type filename bytes))
      ≡ some (uploaded_sidecar codec content_type filename bytes)
    → bytes_eq dot_json (uploaded_sidecar codec content_type filename bytes).ext ≡ false
    → ((serve_upload codec opts io (upload_request content_type filename bytes) d).response.status
        ≡ 201)
      × ((serve_upload codec opts io
            (upload_request content_type filename bytes)
            d).response.location
          ≡ some (codes "/media/" ++ codec.hash bytes))
      × HasBytes
          (record {
            bytes = bytes;
            desc = descriptor (uploaded_sidecar codec content_type filename bytes);
          })
          (serve_http codec reader
            (download_request (codes "/media/" ++ codec.hash bytes))
            (serve_upload codec opts io
              (upload_request content_type filename bytes)
              d).dir).response
unfolding serve_upload descriptor
serve_http-serve_upload codec opts io reader bytes content_type filename d works reads_work room
      some_bytes within digest temps fresh reads not_json =
    let limited = limited_body-whole opts content_type filename bytes room within in
    let m = resolve_upload_mime codec.mimes content_type (whole bytes) in
    let (result, there) =
      stored_new codec opts io bytes m filename d works room some_bytes within digest temps fresh
        reads not_json in
    let d' = (put_reader codec opts io (whole bytes) m filename d).dir in
    let answer = served_object codec reader d' reads_work (codec.hash bytes) _ digest there in
    rw (limited, result) (refl, refl, answer)
