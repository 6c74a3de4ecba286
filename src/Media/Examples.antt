-- ===== src/Media/Examples.antt =====
-- The media store on concrete files.
use whatsapp_mcp_docker.Base.{
  ℕ, ◌+◌, ◌%◌, ◌≤◌, ◌<◌, ◌≡◌, ◌≢◌, ap, bytes_eq, refl, sym, ◌∙◌, ◌⊎◌, true, false, Option, none,
  some, List, [], ◌∷◌, ◌++◌, arith, length, take, drop, all, Bytes, codes,
}
use whatsapp_mcp_docker.Base.ByteStrings.{lower}
use whatsapp_mcp_docker.Base.Texts.{is_space}
use whatsapp_mcp_docker.Base.Sorting.{sort}
use whatsapp_mcp_docker.Cache.Table
use whatsapp_mcp_docker.Cache.Table.{find, find-empty, empty}
use whatsapp_mcp_docker.Media.Digests.{is_digest, normalize_digest}
use whatsapp_mcp_docker.Media.Filenames.{Runes, sanitize_filename}
use whatsapp_mcp_docker.Media.Mime.{extension_for_mime, is_generic_mime}
use whatsapp_mcp_docker.Media.Directory.{Directory, bytes_key}
use whatsapp_mcp_docker.Media.Payloads.{Sidecar, Io, Codec, Options, copy, max_upload}
use whatsapp_mcp_docker.Media.Store.{sidecar_name, put_stream, descriptor}
use whatsapp_mcp_docker.Media.Store.Objects.{object, object_lem, Object}
use whatsapp_mcp_docker.Media.Store.Refinement.{Stored, Refused, object_of_upload}
use whatsapp_mcp_docker.Media.Store.Uploads.{put_stream_refines}
use whatsapp_mcp_docker.Media.Store.Answers.{IsIntact, put_stream-IsIntact, whole}
use whatsapp_mcp_docker.Media.Sweep.{stem, DirEntry, scan_entry, visit, sweep}
use whatsapp_mcp_docker.Media.Sweep.Accounting.{Accounts}
use whatsapp_mcp_docker.Media.Sweep.Listing.{AreDistinct, blobs_of, bytes_of, sweep-Accounts}
use whatsapp_mcp_docker.Media.Sweep.Ownership.{is_ours, sweep_ours}
use whatsapp_mcp_docker.Media.Http.{UploadRequest, resolve_upload_mime, serve_upload, serve_http}
use whatsapp_mcp_docker.Media.Http.Exchange.{
  upload_request, download_request, uploaded_sidecar, HasBytes, serve_http-serve_upload,
}
use whatsapp_mcp_docker.Media.Http.Refusals.{serve_upload_refuses}

-- 63 zeros and the last digit of the length, in place of a hash.
abbrev hash : Bytes → Bytes
hash b =
    codes "000000000000000000000000000000000000000000000000000000000000000"
    ++ ((b'0' + length b % 10) ∷ [])

abbrev field : Bytes → Bytes → Bytes
field x rest = length x ∷ (x ++ rest)

-- Fields with their lengths, in place of JSON.
abbrev marshal : Sidecar → Bytes
marshal s = field s.sha256 (field s.mime (field s.filename (field s.ext (s.size ∷ []))))

abbrev first_field : Bytes → Bytes
first_field [] = []
first_field (n ∷ s) = take n s

abbrev after_field : Bytes → Bytes
after_field [] = []
after_field (n ∷ s) = drop n s

abbrev size_field : Bytes → ℕ
size_field [] = 0
size_field (n ∷ s) = n

abbrev unmarshal : Bytes → Option Sidecar
unmarshal b =
    let m = after_field b in
    let f = after_field m in
    let e = after_field f in
    some (record {
      sha256 = first_field b;
      mime = first_field m;
      filename = first_field f;
      size = size_field (after_field e);
      ext = first_field e;
    })

abbrev codec : Codec
codec = record {
  hash = hash;
  marshal = marshal;
  unmarshal = unmarshal;
  mimes = record {
    parse_media_type = λ m. some m;
    extensions_by_type = λ m. [];
    detect_content_type = λ b. codes "text/plain";
  };
}

abbrev io : Io
io = record { fails = λ call. false; now = 5; temp = codes ".tmp-1"; sidecar_temp = codes ".tmp-2" }

abbrev opts : Options
opts = record { max_bytes = 10; ttl = 0; max_upload_bytes = 4 }

abbrev none_stored : Directory
none_stored = empty

abbrev hello : Bytes
hello = codes "hey"

abbrev text : Runes
text = codes "text/plain"

abbrev too_long : Bytes
too_long = codes "hello"

put_stream_refines_example :
    Stored codec
      (hash hello)
      (object_of_upload codec opts (whole hello) true text [])
      none_stored
      (put_stream codec opts io (whole hello) true text [] none_stored)
    ⊎ Refused codec none_stored (put_stream codec opts io (whole hello) true text [] none_stored)
unfolding copy max_upload extension_for_mime sanitize_filename is_space lower
put_stream_refines_example =
    put_stream_refines codec opts io (whole hello) true text [] none_stored refl refl refl
      (refl, refl) refl refl

nothing_served :
    (j : Bytes) (o : Object)
    → is_digest j ≡ true
    → object codec none_stored j ≡ some o
    → hash o.bytes ≡ j
nothing_served j o h served = absurd (
    let no : none ≡ some o = sym (object_lem codec none_stored j h ∙ rw find-empty refl) ∙ served in
    cc)

put_stream-IsIntact_example :
    IsIntact codec (put_stream codec opts io (whole hello) true text [] none_stored).dir
unfolding copy max_upload extension_for_mime sanitize_filename is_space lower
put_stream-IsIntact_example =
    put_stream-IsIntact codec opts io (whole hello) true text [] none_stored refl refl refl
      (refl, refl) refl refl nothing_served

serve_http-serve_upload_example :
    ((serve_upload codec opts io (upload_request text [] hello) none_stored).response.status ≡ 201)
    × ((serve_upload codec opts io (upload_request text [] hello) none_stored).response.location
        ≡ some (codes "/media/" ++ hash hello))
    × HasBytes
        (record { bytes = hello; desc = descriptor (uploaded_sidecar codec text [] hello) })
        (serve_http codec io
          (download_request (codes "/media/" ++ hash hello))
          (serve_upload codec opts io (upload_request text [] hello) none_stored).dir).response
unfolding copy max_upload extension_for_mime sanitize_filename resolve_upload_mime is_generic_mime
    is_space lower
serve_http-serve_upload_example =
    serve_http-serve_upload codec opts io io hello text [] none_stored (λ call. refl) (λ call. refl)
      (omega arith) (omega arith) (omega arith) refl (refl, refl)
      (find-empty (sidecar_name (hash hello))) refl refl

abbrev long_upload : UploadRequest
long_upload = upload_request text [] too_long

serve_upload_refuses_example :
    (true ≡ true
      → 4 < length too_long
      → (serve_upload codec opts io long_upload none_stored).response.status ≡ 413)
    × (true ≡ true
        → too_long ≡ []
        → (serve_upload codec opts io long_upload none_stored).response.status ≡ 400)
    × (true ≡ false
        → ((serve_upload codec opts io long_upload none_stored).response.status ≡ 405)
          × ((serve_upload codec opts io long_upload none_stored).dir ≡ none_stored))
unfolding max_upload
serve_upload_refuses_example =
    serve_upload_refuses codec opts io long_upload too_long none_stored (λ call. refl) (omega arith)
      refl

abbrev file : Bytes → ℕ → ℕ → DirEntry
file name size t = record {
  name = name;
  is_dir = false;
  info = some (record { size = size; mod_time = t });
}

abbrev other_hash : Bytes
other_hash = hash too_long

-- Two blobs of 8 bytes with their sidecars, and a file of somebody else.
abbrev listing : List DirEntry
listing =
    file (hash hello ++ codes ".jpg") 8 1
    ∷ file (hash hello ++ codes ".json") 2 4
    ∷ file (other_hash ++ codes ".txt") 8 2
    ∷ file (other_hash ++ codes ".json") 2 3
    ∷ file (codes "notes.txt") 9 9
    ∷ []

two_digests : hash hello ≢ other_hash
two_digests e = let same : true ≡ false = ap (bytes_eq (hash hello)) e in absurd cc

listing-AreDistinct : AreDistinct (blobs_of listing)
unfolding normalize_digest stem
listing-AreDistinct = ((two_digests, tt), (tt, tt))

sweep-Accounts_example :
    Accounts (length (blobs_of listing)) (bytes_of (blobs_of listing)) (sweep opts 10 listing)
    × (0 < 10 → (sweep opts 10 listing).res.remaining_bytes ≤ 10)
sweep-Accounts_example = sweep-Accounts opts 10 listing listing-AreDistinct

sweep_ours_example : all is_ours (sweep opts 10 listing).removed ≡ true
sweep_ours_example = sweep_ours opts 10 listing

-- The blob that was used longer ago goes, with its sidecar, and nothing else.
sweep-listing :
    (sweep opts 10 listing).removed
    ≡ (other_hash ++ codes ".txt") ∷ (other_hash ++ codes ".json") ∷ []
unfolding sweep scan_entry normalize_digest Table.upsert visit find sort
sweep-listing = refl
