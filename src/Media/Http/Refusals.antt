-- ===== src/Media/Http/Refusals.antt =====
-- internal/media/upload.go: how an upload is refused, and how the reasons become statuses.
use whatsapp_mcp_docker.Base.{
  ℕ, ◌+◌, ◌^◌, ◌<◌, ◌≡◌, refl, inl, inr, Bool, true, false, none, some, [], arith, ltb, leb, ◌==◌,
  if◌then◌else◌, Bool-cases, length, take, length-take, take_of_length-le, Bytes,
}
use whatsapp_mcp_docker.Media.Filenames.{Runes}
use whatsapp_mcp_docker.Media.Directory.{Directory}
use whatsapp_mcp_docker.Media.Payloads.{
  Call, create_temp, copy_payload, StoreError, too_large, empty_upload, over_limit, err, Codec, Io,
  Options, fails_with, Payload, max_upload, read_cap, copy,
}
use whatsapp_mcp_docker.Media.Store.{put_reader, put_stream}
use whatsapp_mcp_docker.Media.Store.Answers.{whole, copy-whole}
use whatsapp_mcp_docker.Media.Http.{
  UploadRequest, max_bytes_reader, is_upload, resolve_upload_mime, serve_upload, upload_status,
}

-- What http.MaxBytesReader passes of a body that is longer than its limit.
abbrev cut : ℕ → Bytes → Bool → Payload
cut limit bytes with_last = record {
  bytes = take (limit + 1) bytes;
  ending = fails_with over_limit with_last;
}

copy-cut :
    (limit : ℕ) (bytes : Bytes) (with_last : Bool)
    → limit + 1 < 2 ^ 63
    → limit + 1 < length bytes
    → copy true limit (cut limit bytes with_last) ≡ record {
      bytes = take (limit + 1) bytes;
      error = if with_last then some over_limit else none;
    }
unfolding copy
copy-cut limit bytes with_last room long =
    let cap : read_cap limit ≡ limit + 1 = ground arith in
    let size = length-take (limit + 1) bytes in
    let positive : (limit + 1 == 0) ≡ false = ground arith in
    let same : (limit + 1 == length (take (limit + 1) bytes)) ≡ true = ground arith in
    let not_more : ltb (limit + 1) (length (take (limit + 1) bytes)) ≡ false = ground arith in
    rw
      (
        cap,
        take_of_length-le (take (limit + 1) bytes) {n = limit + 1} (omega arith),
        positive,
        not_more,
        same,
      )
      refl

module _ (codec : Codec) (opts : Options) (io : Io) (m filename : Runes) (d : Directory)
    (works : (call : Call) → io.fails call ≡ false) (room : max_upload opts + 1 < 2 ^ 63) where
  over_cap :
      (bytes : Bytes) (with_last : Bool)
      → max_upload opts + 1 < length bytes
      → (e : StoreError) × ((put_reader codec opts io
            (cut (max_upload opts) bytes with_last)
            m
            filename
            d).result
          ≡ err e)
        × (upload_status e ≡ 413)
  unfolding put_stream
  over_cap bytes true long =
      rw (works create_temp, copy-cut (max_upload opts) bytes true room long)
        (over_limit, refl, refl)
  over_cap bytes false long =
      let size = length-take (max_upload opts + 1) bytes in
      let over : ltb (max_upload opts) (length (take (max_upload opts + 1) bytes)) ≡ true =
        ground arith in
      rw
        (
          works create_temp,
          copy-cut (max_upload opts) bytes false room long,
          works copy_payload,
          over,
        )
        (too_large, refl, refl)

  at_cap :
      (bytes : Bytes)
      → length bytes ≡ max_upload opts + 1
      → (put_reader codec opts io (whole bytes) m filename d).result ≡ err too_large
  unfolding put_stream
  at_cap bytes exact =
      let over : ltb (max_upload opts) (length (take (max_upload opts + 1) bytes)) ≡ true =
        let size = length-take (max_upload opts + 1) bytes in ground arith in
      rw (works create_temp, copy-whole (max_upload opts) bytes room, works copy_payload, over) refl

  no_bytes : (put_reader codec opts io (whole []) m filename d).result ≡ err empty_upload
  unfolding put_stream
  no_bytes =
      let nil : Bytes = [] in
      let none_taken : take (max_upload opts + 1) nil ≡ nil =
        take_of_length-le nil {n = max_upload opts + 1} (omega arith) in
      let within : ltb (max_upload opts) 0 ≡ false = ground arith in
      rw
        (
          works create_temp,
          copy-whole (max_upload opts) [] room,
          works copy_payload,
          none_taken,
          within,
        )
        refl

-- If no call fails and the upload limit leaves room for one byte more in an int64, then a POST or PUT of
-- more bytes than the limit is answered by 413, however the reader of the body reports it, one with an empty
-- body by 400, and a request by another method by 405, which leaves the store as it is.
pub serve_upload_refuses :
    (codec : Codec) (opts : Options) (io : Io) (r : UploadRequest) (bytes : Bytes) (d : Directory)
    → ((call : Call) → io.fails call ≡ false)
    → max_upload opts + 1 < 2 ^ 63
    → r.body ≡ whole bytes
    → (is_upload r.method ≡ true
        → max_upload opts < length bytes
        → (serve_upload codec opts io r d).response.status ≡ 413)
      × (is_upload r.method ≡ true
          → bytes ≡ []
          → (serve_upload codec opts io r d).response.status ≡ 400)
      × (is_upload r.method ≡ false
          → ((serve_upload codec opts io r d).response.status ≡ 405)
            × ((serve_upload codec opts io r d).dir ≡ d))
unfolding serve_upload max_bytes_reader
serve_upload_refuses codec opts io r bytes d works room body =
    let cap : read_cap (max_upload opts) ≡ max_upload opts + 1 = ground arith in
    (
      λ upload large. elim (Bool-cases (leb (length bytes) (max_upload opts + 1))) [
        | inl fits ↦
            let refused =
              at_cap codec opts io (resolve_upload_mime codec.mimes r.content_type (whole bytes))
                r.filename d works room bytes (ground arith) in
            rw (upload, body, cap, fits, refused) refl
        | inr long ↦
            let b = cut (max_upload opts) bytes r.error_with_last in
            let (e, refused, status) =
              over_cap codec opts io (resolve_upload_mime codec.mimes r.content_type b) r.filename d
                works room bytes r.error_with_last (ground arith) in
            rw (upload, body, cap, long, refused) status
      ],
      λ upload empty.
          let refused =
            no_bytes codec opts io (resolve_upload_mime codec.mimes r.content_type (whole []))
              r.filename d works room in
          let fits : leb 0 (max_upload opts + 1) ≡ true = ground arith in
          rw (upload, body, empty, cap, fits, refused) refl,
      λ upload. rw upload (refl, refl),
    )
