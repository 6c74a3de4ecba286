-- ===== src/Media/Payloads.antt =====
-- internal/media: the records of the store, the calls that it makes, and the reading of a payload.
use whatsapp_mcp_docker.Base.{
  ℕ, ◌+◌, ◌^◌, Bool, true, false, ◌&&◌, Option, none, some, ltb, ◌==◌, if◌then◌else◌, length, take,
  Bytes,
}
use whatsapp_mcp_docker.Media.Filenames.{Runes}
use whatsapp_mcp_docker.Media.Mime.{Mimes}

pub record Sidecar : Type 0 where
  pub sha256 : Bytes
  pub mime : Runes
  pub filename : Runes
  pub size : ℕ
  pub ext : Bytes

pub record Descriptor : Type 0 where
  pub media_path : Bytes
  pub mime : Runes
  pub size : ℕ
  pub filename : Runes
  pub sha256 : Bytes

-- The calls of the operating system that the store reacts to, or whose failure it ignores.
pub data Call : Type 0 where
  create_temp : Call
  copy_payload : Call
  close_temp : Call
  chmod_blob : Call
  rename_blob : Call
  create_sidecar : Call
  write_sidecar : Call
  close_sidecar : Call
  chmod_sidecar : Call
  rename_sidecar : Call
  read_sidecar : Call
  stat_blob : Call
  open_blob : Call
  touch_sidecar : Call
  remove_temp : Call
  remove_blob : Call

pub data StoreError : Type 0 where
  not_found : StoreError
  too_large : StoreError
  empty_upload : StoreError
  -- http.MaxBytesError, from the reader of the payload
  over_limit : StoreError
  -- another error of that reader
  bad_payload : StoreError
  bad_sidecar : StoreError
  os_error : Call → StoreError

pub data Result {ℓ} (A : Type ℓ) : Type ℓ where
  ok : A → Result A
  err : StoreError → Result A

-- What the store uses of other code: SHA-256 in hexadecimal, the JSON of a sidecar, MIME types.
pub record Codec : Type 0 where
  pub hash : Bytes → Bytes
  pub marshal : Sidecar → Bytes
  pub unmarshal : Bytes → Option Sidecar
  pub mimes : Mimes

-- What one operation meets: the calls that fail, the clock, the names of its temporary files.
pub record Io : Type 0 where
  pub fails : Call → Bool
  pub now : ℕ
  pub temp : Bytes
  pub sidecar_temp : Bytes

pub record Options : Type 0 where
  pub max_bytes : ℕ
  pub ttl : ℕ
  pub max_upload_bytes : ℕ

-- How the reader of a payload ends: `with_last` says that an error comes with the last bytes.
pub data Ending : Type 0 where
  eof : Ending
  fails_with : StoreError → Bool → Ending

pub record Payload : Type 0 where
  pub bytes : Bytes
  pub ending : Ending

-- 100 << 20
abbrev default_max_upload_bytes : ℕ
default_max_upload_bytes = 104_857_600

-- maxUpload
unfoldable pub max_upload : Options → ℕ
max_upload opts =
    if ltb 0 opts.max_upload_bytes then opts.max_upload_bytes else default_max_upload_bytes

-- limit+1 as an int64, with 0 for a negative one: neither kind of limited reader reads anything then.
abbrev pub read_cap : ℕ → ℕ
read_cap limit = if ltb (limit + 1) (2 ^ 63) then limit + 1 else 0

-- The error that ends the copy.
abbrev raised : Ending → Option StoreError
raised eof = none
raised (fails_with e with_last) = some e

abbrev raised_at_cap : Ending → Option StoreError
raised_at_cap eof = none
raised_at_cap (fails_with e with_last) = if with_last then some e else none

pub record Copied : Type 0 where
  pub bytes : Bytes
  pub error : Option StoreError

-- io.LimitReader
abbrev limit_reader : ℕ → Payload → Copied
limit_reader cap payload = record {
  bytes = take cap payload.bytes;
  error =
      if cap == 0
      then none
      else if ltb cap (length payload.bytes)
      then none
      else if cap == length payload.bytes
      then raised_at_cap payload.ending
      else raised payload.ending;
}

-- What io.Copy reads.
unfoldable pub copy : Bool → ℕ → Payload → Copied
copy true limit payload = limit_reader (read_cap limit) payload
copy false limit payload = record { bytes = payload.bytes; error = raised payload.ending }

abbrev guarded : Io → Bool → ℕ → Bytes → Option StoreError → Option StoreError
guarded io bounded limit bytes (some e) = some e
guarded io bounded limit bytes none =
    if io.fails copy_payload
    then some (os_error copy_payload)
    else if bounded && ltb limit (length bytes)
    then some too_large
    else if bounded && (length bytes == 0)
    then some empty_upload
    else if io.fails close_temp
    then some (os_error close_temp)
    else none

-- The guards between the copy and the hash.
abbrev pub refusal : Io → Bool → ℕ → Copied → Option StoreError
refusal io bounded limit copied = guarded io bounded limit copied.bytes copied.error
