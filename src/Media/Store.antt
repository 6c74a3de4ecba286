-- ===== src/Media/Store.antt =====
-- internal/media/media.go: `Put`, `PutReader`, `Lookup` and `Open` of the store. Each call of the operating
-- system can fail, as the caller's `Io` says.
pub mod Objects
pub mod Placing
pub mod Refinement
pub mod Uploads
pub mod Answers
pub mod Losses
use whatsapp_mcp_docker.Base.{
  ℕ, Bool, true, false, not, ◌&&◌, Option, none, some, [], ◌∷◌, ◌++◌, if◌then◌else◌, length, take,
  Bytes, codes,
}
use whatsapp_mcp_docker.Cache.Table.{find}
use whatsapp_mcp_docker.Media.Digests.{normalize_digest, sanitize_ext}
use whatsapp_mcp_docker.Media.Filenames.{Runes, sanitize_filename}
use whatsapp_mcp_docker.Media.Mime.{default_mime, extension_for_mime}
use whatsapp_mcp_docker.Media.Payloads.{
  Sidecar, Descriptor, Call, create_temp, chmod_blob, rename_blob, create_sidecar, write_sidecar,
  close_sidecar, chmod_sidecar, rename_sidecar, read_sidecar, stat_blob, open_blob, touch_sidecar,
  remove_temp, remove_blob, StoreError, not_found, bad_sidecar, os_error, Result, ok, err, Codec,
  Io, Options, eof, Payload, max_upload, copy, refusal,
}
use whatsapp_mcp_docker.Media.Directory.{File, Directory, write, remove, rename, chtimes, bytes_key}

abbrev pub dot_json : Bytes
dot_json = codes ".json"

abbrev pub sidecar_name : Bytes → Bytes
sidecar_name digest = digest ++ dot_json

-- blobPath
abbrev pub blob_name : Sidecar → Bytes
blob_name meta = meta.sha256 ++ sanitize_ext meta.ext

abbrev pub or_default_mime : Runes → Runes
or_default_mime [] = default_mime
or_default_mime (c ∷ s) = c ∷ s

-- descriptor
unfoldable pub descriptor : Sidecar → Descriptor
descriptor meta = record {
  media_path = codes "/media/" ++ meta.sha256;
  mime = or_default_mime meta.mime;
  size = meta.size;
  filename = meta.filename;
  sha256 = meta.sha256;
}

abbrev pub or_named : Runes → Bytes → Bytes → Runes
or_named [] digest ext = take 12 digest ++ ext
or_named (c ∷ s) digest ext = c ∷ s

-- touch
unfoldable pub touch : Io → Sidecar → Directory → Directory
touch io meta d = if io.fails touch_sidecar then d else chtimes (sidecar_name meta.sha256) io.now d

-- os.Remove, where a failure is ignored
abbrev pub try_remove : Io → Call → Bytes → Directory → Directory
try_remove io call name d = if io.fails call then d else remove name d

abbrev pub has_file : Option File → Bool
has_file none = false
has_file (some f) = true

pub record Written : Type 0 where
  pub dir : Directory
  pub error : Option StoreError

pub record Done {ℓ} (A : Type ℓ) : Type ℓ where
  pub dir : Directory
  pub result : Result A

abbrev pub write_failure : Io → Option Call
write_failure io =
    if io.fails write_sidecar
    then some write_sidecar
    else if io.fails close_sidecar
    then some close_sidecar
    else if io.fails chmod_sidecar
    then some chmod_sidecar
    else if io.fails rename_sidecar
    then some rename_sidecar
    else none

abbrev pub after_temp : Io → Bytes → Option Call → Directory → Written
after_temp io name (some call) d = record {
  dir = try_remove io remove_temp io.sidecar_temp d;
  error = some (os_error call);
}
after_temp io name none d = record {
  dir = try_remove io remove_temp io.sidecar_temp (rename io.sidecar_temp name d);
  error = none;
}

-- writeFile: the temporary file has what was written when a call fails.
unfoldable pub write_file : Io → Bytes → Bytes → Directory → Written
write_file io name body d =
    if io.fails create_sidecar
    then record { dir = d; error = some (os_error create_sidecar) }
    else after_temp io name (write_failure io) (
        write io.sidecar_temp
          (record { bytes = if io.fails write_sidecar then [] else body; mtime = io.now }) d)

abbrev pub after_written : Io → Sidecar → Directory → Option StoreError → Done Descriptor
after_written io meta d none = record { dir = d; result = ok (descriptor meta) }
after_written io meta d (some e) = record {
  dir = try_remove io remove_blob (meta.sha256 ++ meta.ext) d;
  result = err e;
}

abbrev pub after_sidecar : Io → Sidecar → Written → Done Descriptor
after_sidecar io meta w = after_written io meta w.dir w.error

-- What Open returns: the bytes behind the handle, the descriptor, and the blob's time.
pub record Opened : Type 0 where
  pub bytes : Bytes
  pub desc : Descriptor
  pub mod_time : ℕ

abbrev pub opened_file : Io → Sidecar → Directory → Option File → Done Opened
opened_file io meta d none = record { dir = d; result = err not_found }
opened_file io meta d (some f) =
    if io.fails stat_blob then record { dir = d; result = err (os_error stat_blob) } else record {
      dir = touch io meta d;
      result = ok (record { bytes = f.bytes; desc = descriptor meta; mod_time = f.mtime });
    }

abbrev pub parsed : Bytes → Option Sidecar → Result Sidecar
parsed digest none = err bad_sidecar
parsed digest (some meta) = ok (record meta { sha256 = digest })

abbrev looked_up : Io → Directory → Result Sidecar → Done Descriptor
looked_up io d (err e) = record { dir = d; result = err e }
looked_up io d (ok meta) =
    if io.fails stat_blob
    then record { dir = d; result = err (os_error stat_blob) }
    else if has_file (find (blob_name meta) d)
    then record { dir = touch io meta d; result = ok (descriptor meta) }
    else record { dir = d; result = err not_found }

abbrev pub opened_sidecar : Io → Directory → Result Sidecar → Done Opened
opened_sidecar io d (err e) = record { dir = d; result = err e }
opened_sidecar io d (ok meta) =
    let opened = opened_file io meta d (find (blob_name meta) d) in
    if io.fails open_blob then record { dir = d; result = err (os_error open_blob) } else opened

-- errors.Is(lookupErr, ErrNotFound)
abbrev pub is_not_found : StoreError → Bool
is_not_found not_found = true
is_not_found _ = false

module _ (codec : Codec) where
  abbrev pub read_file : Io → Bytes → Option File → Result Sidecar
  read_file io digest none =
      if io.fails read_sidecar then err (os_error read_sidecar) else err not_found
  read_file io digest (some f) =
      if io.fails read_sidecar
      then err (os_error read_sidecar)
      else parsed digest (codec.unmarshal f.bytes)

  abbrev pub read_normal : Io → Option Bytes → Directory → Result Sidecar
  read_normal io none d = err not_found
  read_normal io (some digest) d = read_file io digest (find (sidecar_name digest) d)

  -- readSidecar
  unfoldable pub load_sidecar : Io → Bytes → Directory → Result Sidecar
  load_sidecar io digest d = read_normal io (normalize_digest digest) d

  -- The end of putStream, for a payload that is not stored yet.
  unfoldable pub place_blob : Io → Sidecar → Directory → Done Descriptor
  place_blob io meta d =
      let failed = try_remove io remove_temp io.temp d in
      if io.fails chmod_blob
      then record { dir = failed; result = err (os_error chmod_blob) }
      else if io.fails rename_blob
      then record { dir = failed; result = err (os_error rename_blob) }
      else after_sidecar io meta (
          write_file io (sidecar_name meta.sha256) (codec.marshal meta)
            (rename io.temp (meta.sha256 ++ meta.ext) d))

  -- The switch of putStream on the sidecar that is there already.
  abbrev pub after_lookup : Io → Sidecar → Directory → Result Sidecar → Done Descriptor
  after_lookup io meta d (ok existing) =
      let placed = place_blob io meta d in
      if has_file (find (blob_name existing) d) && not (io.fails stat_blob)
      then record {
        dir = try_remove io remove_temp io.temp (touch io existing d);
        result = ok (descriptor existing);
      }
      else placed
  after_lookup io meta d (err e) =
      let placed = place_blob io meta d in
      if is_not_found e
      then placed
      else record { dir = try_remove io remove_temp io.temp d; result = err e }

  -- The sidecar of new bytes.
  abbrev pub new_sidecar : Runes → Runes → Bytes → Sidecar
  new_sidecar m filename bytes =
      let ext = extension_for_mime codec.mimes m in
      record {
        sha256 = codec.hash bytes;
        mime = m;
        filename = sanitize_filename (or_named filename (codec.hash bytes) ext);
        size = length bytes;
        ext = ext;
      }

  abbrev pub after_copy :
      Io → Runes → Runes → Bytes → Option StoreError → Directory → Done Descriptor
  after_copy io m filename bytes (some e) d = record {
    dir = try_remove io remove_temp io.temp d;
    result = err e;
  }
  after_copy io m filename bytes none d =
      after_lookup io (new_sidecar m filename bytes) d (load_sidecar io (codec.hash bytes) d)

  -- putStream
  unfoldable pub put_stream :
      Options → Io → Payload → Bool → Runes → Runes → Directory → Done Descriptor
  put_stream opts io payload bounded m filename d =
      let copied = copy bounded (max_upload opts) payload in
      if io.fails create_temp
      then record { dir = d; result = err (os_error create_temp) }
      else after_copy io (or_default_mime m) filename copied.bytes
          (refusal io bounded (max_upload opts) copied)
          (write io.temp (record { bytes = copied.bytes; mtime = io.now }) d)

  -- Put
  abbrev pub put : Options → Io → Bytes → Runes → Runes → Directory → Done Descriptor
  put opts io data' m filename d =
      put_stream opts io (record { bytes = data'; ending = eof }) false m filename d

  -- PutReader
  abbrev pub put_reader : Options → Io → Payload → Runes → Runes → Directory → Done Descriptor
  put_reader opts io payload m filename d = put_stream opts io payload true m filename d

  -- Lookup
  unfoldable pub lookup : Io → Bytes → Directory → Done Descriptor
  lookup io digest d = looked_up io d (load_sidecar io digest d)

  -- Open, of the store
  unfoldable pub open_blob_of : Io → Bytes → Directory → Done Opened
  open_blob_of io digest d = opened_sidecar io d (load_sidecar io digest d)
