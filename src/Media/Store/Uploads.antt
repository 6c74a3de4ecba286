-- ===== src/Media/Store/Uploads.antt =====
-- internal/media/media.go: putStream, as a refinement of a store that keeps the first object of a digest.
use whatsapp_mcp_docker.Base.{
  ◌≡◌, refl, sym, ap, ◌∙◌, ◌⊎◌, inl, inr, Bool, true, false, Option, none, some, ◌++◌, Bool-cases,
  Option-cases, Bytes, bytes_eq, bytes_eq_sound, bytes_eq_refl,
}
use whatsapp_mcp_docker.Cache.Table.{find}
use whatsapp_mcp_docker.Media.Digests.{is_digest, sanitize_ext, sanitize_ext_of_ext}
use whatsapp_mcp_docker.Media.Filenames.{Runes}
use whatsapp_mcp_docker.Media.Mime.{extension_for_mime-is_ext}
use whatsapp_mcp_docker.Media.Directory.{
  File, Directory, write, find-write, bytes_at, content, bytes_at-write, bytes_at-chtimes,
  temp_apart, bytes_key,
}
use whatsapp_mcp_docker.Media.Payloads.{
  Sidecar, Descriptor, create_temp, stat_blob, touch_sidecar, remove_blob, remove_temp, StoreError,
  not_found, too_large, empty_upload, over_limit, bad_payload, bad_sidecar, os_error, Result, ok,
  err, Codec, Io, Options, Payload, copy, max_upload, refusal,
}
use whatsapp_mcp_docker.Media.Store.{
  Done, sidecar_name, blob_name, dot_json, descriptor, touch, try_remove, has_file, or_default_mime,
  load_sidecar, place_blob, after_lookup, put_stream,
}
use whatsapp_mcp_docker.Media.Store.Objects.{
  Object, object, SameFiles, object-same, load_sidecar-ok, load_sidecar-not_found,
}
use whatsapp_mcp_docker.Media.Store.Placing.{bytes_at-try_remove}
use whatsapp_mcp_docker.Media.Store.{is_not_found}
use whatsapp_mcp_docker.Media.Store.Refinement.{
  sidecar_of, object_of_upload, HasTemps, Stored, Refused, place_blob_lem,
}

is_not_found_sound : (e : StoreError) → is_not_found e ≡ true → e ≡ not_found
is_not_found_sound not_found h = refl
is_not_found_sound too_large h = absurd cc
is_not_found_sound empty_upload h = absurd cc
is_not_found_sound over_limit h = absurd cc
is_not_found_sound bad_payload h = absurd cc
is_not_found_sound bad_sidecar h = absurd cc
is_not_found_sound (os_error call) h = absurd cc

has_file_sound : (f : Option File) → has_file f ≡ true → (b : Bytes) × (content f ≡ some b)
has_file_sound none h = absurd cc
has_file_sound (some f) h = (f.bytes, refl)

no_file : (f : Option File) → has_file f ≡ false → content f ≡ none
no_file none h = refl
no_file (some f) h = absurd cc

module _ (io : Io) (temps : HasTemps io) (d : Directory) where
  removed_temp :
      (j : Bytes) → is_digest j ≡ true → SameFiles j d (try_remove io remove_temp io.temp d)
  removed_temp j h e =
      bytes_at-try_remove io remove_temp io.temp (j ++ e) d (temp_apart io.temp j e temps.0 h)

  touched : (meta : Sidecar) (n : Bytes) → bytes_at n (touch io meta d) ≡ bytes_at n d
  unfolding touch
  touched meta n = elim (Bool-cases (io.fails touch_sidecar)) [
    | inl e ↦ rw e refl
    | inr e ↦ rw e (bytes_at-chtimes (sidecar_name meta.sha256) n io.now d)
  ]

  removed_object :
      (codec : Codec) (j : Bytes)
      → is_digest j ≡ true
      → object codec (try_remove io remove_temp io.temp d) j ≡ object codec d j
  removed_object codec j h =
      object-same codec j d (try_remove io remove_temp io.temp d) h (removed_temp j h)

module _ (codec : Codec) (io : Io) (meta : Sidecar) (f : File) (d : Directory)
    (digest : is_digest meta.sha256 ≡ true)
    (reads : codec.unmarshal (codec.marshal meta) ≡ some meta)
    (well : sanitize_ext meta.ext ≡ meta.ext) (not_json : bytes_eq dot_json meta.ext ≡ false)
    (temps : HasTemps io) (there : find io.temp d ≡ some f)
    (removable : io.fails remove_blob ≡ false) (readable : io.fails stat_blob ≡ false) where
  abbrev new : Object
  new = record { bytes = f.bytes; desc = descriptor meta }

  abbrev Settled : Done Descriptor → Type 0
  Settled done = Stored codec meta.sha256 new d done ⊎ Refused codec d done

  missed : object codec d meta.sha256 ≡ none → Settled (place_blob codec io meta d)
  missed = place_blob_lem codec io meta f d digest reads well not_json temps there removable

  hit :
      (existing : Sidecar) (b : Bytes)
      → object codec d meta.sha256 ≡ some (record { bytes = b; desc = descriptor existing })
      → Stored codec meta.sha256 new d (record {
        dir = try_remove io remove_temp io.temp (touch io existing d);
        result = ok (descriptor existing);
      })
  hit existing b old = (
    rw old refl,
    λ j h.
        let same : SameFiles j d (touch io existing d) =
          λ e. touched io temps d existing (j ++ e) in
        let unchanged =
          removed_object io temps (touch io existing d) codec j h
          ∙ object-same codec j d (touch io existing d) h same in
        elim (Bool-cases (bytes_eq meta.sha256 j)) [
          | inl t ↦
              let at : meta.sha256 ≡ j = bytes_eq_sound meta.sha256 j t in
              rw (t, old) (unchanged ∙ (ap (object codec d) (sym at) ∙ old))
          | inr t ↦ rw t unchanged
        ],
  )

  after_lookup_lem :
      (r : Result Sidecar)
      → load_sidecar codec io meta.sha256 d ≡ r
      → Settled (after_lookup codec io meta d r)
  after_lookup_lem (ok existing) loaded =
      let found = load_sidecar-ok codec io meta.sha256 d digest existing loaded in
      elim (Bool-cases (has_file (find (blob_name existing) d))) [
        | inl e ↦
            let (b, there') = has_file_sound (find (blob_name existing) d) e in
            let stored = hit existing b (found ∙ rw there' refl) in rw (e, readable) (inl stored)
        | inr e ↦
            let placed = missed (found ∙ rw (no_file (find (blob_name existing) d) e) refl) in
            rw e placed
      ]
  after_lookup_lem (err x) loaded = elim (Bool-cases (is_not_found x)) [
    | inl e ↦
        let missing : load_sidecar codec io meta.sha256 d ≡ err not_found =
          loaded ∙ ap err (is_not_found_sound x e) in
        let placed = missed (load_sidecar-not_found codec io meta.sha256 d digest missing) in
        rw e placed
    | inr e ↦ rw e (inr (x, refl, λ j h. removed_object io temps d codec j h))
  ]

module _ (codec : Codec) (opts : Options) (io : Io) (payload : Payload) (bounded : Bool)
    (m filename : Runes) (d : Directory) where
  abbrev meta : Sidecar
  meta = sidecar_of codec opts payload bounded m filename

  abbrev object' : Object
  object' = object_of_upload codec opts payload bounded m filename

  abbrev spooled : Directory
  spooled =
      write io.temp
        (record { bytes = (copy bounded (max_upload opts) payload).bytes; mtime = io.now }) d

  module _ (temps : HasTemps io) where
    spooled_unchanged : (j : Bytes) → is_digest j ≡ true → object codec spooled j ≡ object codec d j
    spooled_unchanged j h =
        object-same codec j d spooled h
          (λ e. bytes_at-write io.temp (j ++ e) _ d ∙ rw (temp_apart io.temp j e temps.0 h) refl)

    refused_lem : (done : Done Descriptor) → Refused codec spooled done → Refused codec d done
    refused_lem done (e, r, same) = (e, r, λ j h. same j h ∙ spooled_unchanged j h)

    stored_lem :
        (done : Done Descriptor)
        → is_digest meta.sha256 ≡ true
        → Stored codec meta.sha256 object' spooled done
        → Stored codec meta.sha256 object' d done
    stored_lem done digest (r, stored) = (
      r ∙ rw (spooled_unchanged meta.sha256 digest) refl,
      λ j h. stored j h ∙ rw (spooled_unchanged meta.sha256 digest, spooled_unchanged j h) refl,
    )

  -- Suppose that the hash is a digest, the JSON of the new sidecar reads back, the type's extension is not
  -- `.json`, temporary files have their names, and `stat` and the removal of a blob work. Then, whatever
  -- other calls fail, an upload ends in one of two ways. It is stored: the answer describes the object that
  -- the digest has now, which is the one that it had before, if any, and else the new one, and no other
  -- digest's object changes. Or it answers an error, and no object changes.
  pub put_stream_refines :
      is_digest meta.sha256 ≡ true
      → codec.unmarshal (codec.marshal meta) ≡ some meta
      → bytes_eq dot_json meta.ext ≡ false
      → HasTemps io
      → io.fails stat_blob ≡ false
      → io.fails remove_blob ≡ false
      → Stored codec meta.sha256 object' d (put_stream codec opts io payload bounded m filename d)
        ⊎ Refused codec d (put_stream codec opts io payload bounded m filename d)
  unfolding put_stream
  put_stream_refines digest reads not_json temps readable removable =
      let copied = copy bounded (max_upload opts) payload in
      let file : File = record { bytes = copied.bytes; mtime = io.now } in
      elim (Bool-cases (io.fails create_temp)) [
        | inl e ↦ rw e (inr (_, refl, λ j h. refl))
        | inr e ↦ rw e (elim (Option-cases (refusal io bounded (max_upload opts) copied)) [
          | inl r ↦
              let there = find-write io.temp io.temp file d ∙ rw (bytes_eq_refl io.temp) refl in
              let well =
                sanitize_ext_of_ext meta.ext
                  (extension_for_mime-is_ext codec.mimes (or_default_mime m)) in
              let outcome =
                after_lookup_lem codec io meta file spooled digest reads well not_json temps there
                  removable readable (load_sidecar codec io meta.sha256 spooled) refl in
              rw r (elim outcome [
                | inl stored ↦ inl (stored_lem temps _ digest stored)
                | inr refused ↦ inr (refused_lem temps _ refused)
              ])
          | inr (x, r) ↦ rw r (
              inr (
                x,
                refl,
                λ j h. removed_object io temps spooled codec j h ∙ spooled_unchanged temps j h,
              ))
        ])
      ]
