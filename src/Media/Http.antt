-- ===== src/Media/Http.antt =====
-- internal/media/upload.go and internal/media/http.go: the routes that move bytes. `http.ServeContent` is
-- given by the arguments that it is called with.
pub mod Exchange
pub mod Refusals
use whatsapp_mcp_docker.Base.{
  ℕ, Bool, true, false, not, ◌&&◌, Option, none, some, [], ◌++◌, ltb, leb, ◌==◌, if◌then◌else◌,
  length, take, drop, Bytes, codes, bytes_eq, has_prefix,
}
use whatsapp_mcp_docker.Media.Digests.{normalize_digest}
use whatsapp_mcp_docker.Media.Filenames.{Runes, trim}
use whatsapp_mcp_docker.Media.Mime.{Mimes, default_mime, is_generic_mime}
use whatsapp_mcp_docker.Media.Disposition.{content_disposition}
use whatsapp_mcp_docker.Media.Directory.{Directory}
use whatsapp_mcp_docker.Media.Payloads.{
  Descriptor, StoreError, too_large, empty_upload, over_limit, Result, ok, err, Codec, Io, Options,
  Ending, eof, fails_with, Payload, max_upload, read_cap,
}
use whatsapp_mcp_docker.Media.Store.{Done, Opened, is_not_found, put_reader, open_blob_of}

pub data Method : Type 0 where
  get : Method
  head : Method
  post : Method
  put_method : Method
  other : Method

pub record UploadRequest : Type 0 where
  pub method : Method
  pub content_type : Runes
  pub filename : Runes
  pub body : Payload
  -- Whether http.MaxBytesReader gives its error together with the last bytes.
  pub error_with_last : Bool

pub record UploadResponse : Type 0 where
  pub status : ℕ
  -- The body and the Location header of an answer 201.
  pub desc : Option Descriptor
  pub location : Option Bytes

abbrev pub plain : ℕ → UploadResponse
plain status = record { status = status; desc = none; location = none }

-- http.MaxBytesReader
unfoldable pub max_bytes_reader : ℕ → Bool → Payload → Payload
max_bytes_reader cap with_last body =
    if leb (length body.bytes) cap
    then body
    else record { bytes = take cap body.bytes; ending = fails_with over_limit with_last }

abbrev is_eof : Ending → Bool
is_eof eof = true
is_eof (fails_with e with_last) = false

-- sniffLen
abbrev sniff_len : ℕ
sniff_len = 512

abbrev sniffed : Mimes → Payload → Runes
sniffed mimes body =
    let peek = take sniff_len body.bytes in
    if length peek == 0
    then default_mime
    else if ltb (length body.bytes) sniff_len && not (is_eof body.ending)
    then default_mime
    else mimes.detect_content_type peek

-- resolveUploadMime
unfoldable pub resolve_upload_mime : Mimes → Runes → Payload → Runes
resolve_upload_mime mimes header body =
    let declared = trim header in
    if not (bytes_eq declared []) && not (is_generic_mime declared)
    then declared
    else sniffed mimes body

abbrev pub upload_status : StoreError → ℕ
upload_status too_large = 413
upload_status over_limit = 413
upload_status empty_upload = 400
upload_status _ = 500

abbrev pub upload_answer : Result Descriptor → UploadResponse
upload_answer (err e) = plain (upload_status e)
upload_answer (ok desc) = record { status = 201; desc = some desc; location = some desc.media_path }

pub record Uploaded : Type 0 where
  pub dir : Directory
  pub response : UploadResponse

abbrev pub uploaded : Done Descriptor → Uploaded
uploaded done = record { dir = done.dir; response = upload_answer done.result }

abbrev pub is_upload : Method → Bool
is_upload post = true
is_upload put_method = true
is_upload _ = false

abbrev pub limited_body : Options → UploadRequest → Payload
limited_body opts r = max_bytes_reader (read_cap (max_upload opts)) r.error_with_last r.body

-- serveUpload
unfoldable pub serve_upload : Codec → Options → Io → UploadRequest → Directory → Uploaded
serve_upload codec opts io r d =
    let body = limited_body opts r in
    if is_upload r.method
    then uploaded (
        put_reader codec opts io body (resolve_upload_mime codec.mimes r.content_type body)
          r.filename d)
    else record { dir = d; response = plain 405 }

pub record ServeRequest : Type 0 where
  pub method : Method
  -- The wildcard of the route, empty if there is none.
  pub path_value : Bytes
  pub path : Bytes

-- What http.ServeContent is called with: the headers that are set, the time and the bytes.
pub record Content : Type 0 where
  pub content_type : Runes
  pub disposition : Bytes
  pub etag : Bytes
  pub cache_control : Bytes
  pub mod_time : ℕ
  pub bytes : Bytes

pub data ServeResponse : Type 0 where
  status : ℕ → ServeResponse
  content : Content → ServeResponse

pub record Served : Type 0 where
  pub dir : Directory
  pub response : ServeResponse

-- strings.TrimPrefix
abbrev trim_prefix : Bytes → Bytes → Bytes
trim_prefix prefix s = if has_prefix prefix s then drop (length prefix) s else s

-- digestFromRequest
unfoldable pub digest_from_request : ServeRequest → Bytes
digest_from_request r =
    if bytes_eq r.path_value [] then trim_prefix (codes "/media/") r.path else r.path_value

abbrev pub serve_answer : Result Opened → ServeResponse
serve_answer (err e) = if is_not_found e then status 404 else status 500
serve_answer (ok o) = content (record {
  content_type = o.desc.mime;
  disposition = content_disposition o.desc.filename;
  etag = codes "\"" ++ (o.desc.sha256 ++ codes "\"");
  cache_control = codes "private, max-age=31536000, immutable";
  mod_time = o.mod_time;
  bytes = o.bytes;
})

abbrev pub served : Done Opened → Served
served done = record { dir = done.dir; response = serve_answer done.result }

abbrev pub serve_digest : Codec → Io → Option Bytes → Directory → Served
serve_digest codec io none d = record { dir = d; response = status 404 }
serve_digest codec io (some digest) d = served (open_blob_of codec io digest d)

abbrev is_read : Method → Bool
is_read get = true
is_read head = true
is_read _ = false

-- serveHTTP
unfoldable pub serve_http : Codec → Io → ServeRequest → Directory → Served
unfolding digest_from_request
serve_http codec io r d =
    let answer = serve_digest codec io (normalize_digest (digest_from_request r)) d in
    if is_read r.method then answer else record { dir = d; response = status 405 }
