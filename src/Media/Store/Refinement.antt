-- ===== src/Media/Store/Refinement.antt =====
-- internal/media/media.go: putStream as an operation on the objects that the store serves.
use whatsapp_mcp_docker.Base.{
  ◌≡◌, refl, ◌∙◌, ◌⊎◌, inl, inr, Bool, true, false, Option, none, some, [], ◌++◌, if◌then◌else◌,
  Bool-cases, Bytes, bytes_eq, bytes_eq_sound, bytes_eq_refl,
}
use whatsapp_mcp_docker.Cache.Table.{find}
use whatsapp_mcp_docker.Media.Digests.{is_digest, sanitize_ext}
use whatsapp_mcp_docker.Media.Filenames.{Runes}
use whatsapp_mcp_docker.Media.Directory.{
  File, Directory, bytes_at, is_temp, temp_apart, same_digest, digests_apart, bytes_key,
}
use whatsapp_mcp_docker.Media.Payloads.{
  Sidecar, Descriptor, remove_blob, StoreError, ok, err, Codec, Io, Options, Payload, copy,
  max_upload,
}
use whatsapp_mcp_docker.Media.Store.{
  Done, sidecar_name, dot_json, descriptor, or_default_mime, new_sidecar, place_blob,
}
use whatsapp_mcp_docker.Media.Store.Objects.{
  Object, object, object_lem, SameFiles, FewerFiles, object-same, object-fewer,
}
use whatsapp_mcp_docker.Media.Store.Placing.{place_blob-cases}

-- The abstract store has at most one object for a digest, and keeps the first.
abbrev pub kept : Option Object → Object → Object
kept none new = new
kept (some old) new = old

abbrev new_object : Codec → Sidecar → Bytes → Object
new_object codec meta bytes = record { bytes = bytes; desc = descriptor meta }

-- The sidecar that an upload would get, and the object.
abbrev pub sidecar_of : Codec → Options → Payload → Bool → Runes → Runes → Sidecar
sidecar_of codec opts payload bounded m filename =
    new_sidecar codec (or_default_mime m) filename (copy bounded (max_upload opts) payload).bytes

abbrev pub object_of_upload : Codec → Options → Payload → Bool → Runes → Runes → Object
object_of_upload codec opts payload bounded m filename = record {
  bytes = (copy bounded (max_upload opts) payload).bytes;
  desc = descriptor (sidecar_of codec opts payload bounded m filename);
}

-- The names of an operation's temporary files are such names.
abbrev pub HasTemps : Io → Type 0
HasTemps io = (is_temp io.temp ≡ true) × (is_temp io.sidecar_temp ≡ true)

-- What an operation answers and serves afterwards, where `digest` is that of the new object.
abbrev pub Stored : Codec → Bytes → Object → Directory → Done Descriptor → Type 0
Stored codec digest new d done =
    (done.result ≡ ok (kept (object codec d digest) new).desc)
    × ((j : Bytes)
        → is_digest j ≡ true
        → object codec done.dir j ≡ (
            if bytes_eq digest j
            then some (kept (object codec d digest) new)
            else object codec d j))

abbrev pub Refused : Codec → Directory → Done Descriptor → Type 0
Refused codec d done =
    (e : StoreError) × (done.result ≡ err e)
    × ((j : Bytes) → is_digest j ≡ true → object codec done.dir j ≡ object codec d j)

module _ (codec : Codec) (io : Io) (meta : Sidecar) (f : File) (d : Directory)
    (digest : is_digest meta.sha256 ≡ true)
    (reads : codec.unmarshal (codec.marshal meta) ≡ some meta)
    (well : sanitize_ext meta.ext ≡ meta.ext) (not_json : bytes_eq dot_json meta.ext ≡ false)
    (temps : HasTemps io) (there : find io.temp d ≡ some f)
    (removable : io.fails remove_blob ≡ false) where
  abbrev placed : Done Descriptor
  placed = place_blob codec io meta d

  abbrev new : Object
  new = record { bytes = f.bytes; desc = descriptor meta }

  placed_bytes :
      (j e : Bytes)
      → is_digest j ≡ true
      → placed.result ≡ ok (descriptor meta)
      → bytes_at (j ++ e) placed.dir ≡ (
          if bytes_eq (sidecar_name meta.sha256) (j ++ e)
          then some (codec.marshal meta)
          else if bytes_eq (meta.sha256 ++ meta.ext) (j ++ e)
          then some f.bytes
          else bytes_at (j ++ e) d)
  placed_bytes j e h good =
      elim (place_blob-cases codec io meta d f (j ++ e) there (temp_apart io.temp j e temps.0 h)
        (temp_apart io.sidecar_temp j e temps.1 h) removable) [
          | inl (r, b) ↦ b
          | inr (x, r, b) ↦ absurd cc
        ]

  placed_object :
      placed.result ≡ ok (descriptor meta) → object codec placed.dir meta.sha256 ≡ some new
  placed_object good =
      let side : bytes_at (sidecar_name meta.sha256) placed.dir ≡ some (codec.marshal meta) =
        placed_bytes meta.sha256 dot_json digest good
        ∙ rw (bytes_eq_refl (sidecar_name meta.sha256)) refl in
      let blob : bytes_at (meta.sha256 ++ meta.ext) placed.dir ≡ some f.bytes =
        placed_bytes meta.sha256 meta.ext digest good
        ∙ rw
            (
              same_digest meta.sha256 dot_json meta.ext,
              not_json,
              bytes_eq_refl (meta.sha256 ++ meta.ext),
            )
            refl in
      object_lem codec placed.dir meta.sha256 digest ∙ rw (side, reads, well, blob) refl

  placed_fewer :
      (j e : Bytes) (x : StoreError)
      → is_digest j ≡ true
      → placed.result ≡ err x
      → (bytes_at (j ++ e) placed.dir ≡ bytes_at (j ++ e) d)
        ⊎ ((bytes_eq (meta.sha256 ++ meta.ext) (j ++ e) ≡ true)
            × (bytes_at (j ++ e) placed.dir ≡ none))
  placed_fewer j e x h bad =
      elim (place_blob-cases codec io meta d f (j ++ e) there (temp_apart io.temp j e temps.0 h)
        (temp_apart io.sidecar_temp j e temps.1 h) removable) [
          | inl (r, b) ↦ absurd cc
          | inr (y, r, b) ↦ b
        ]

  placed_result :
      (placed.result ≡ ok (descriptor meta)) ⊎ ((e : StoreError) × (placed.result ≡ err e))
  placed_result =
      elim (place_blob-cases codec io meta d f (meta.sha256 ++ []) there
        (temp_apart io.temp meta.sha256 [] temps.0 digest)
        (temp_apart io.sidecar_temp meta.sha256 [] temps.1 digest) removable) [
          | inl (r, b) ↦ inl r
          | inr (y, r, b) ↦ inr (y, r)
        ]

  placed_other :
      (j : Bytes) → is_digest j ≡ true → bytes_eq meta.sha256 j ≡ false → SameFiles j d placed.dir
  placed_other j h other e = elim placed_result [
    | inl good ↦
        placed_bytes j e h good
        ∙ rw
            (
              digests_apart meta.sha256 j dot_json e digest h other,
              digests_apart meta.sha256 j meta.ext e digest h other,
            )
            refl
    | inr (x, bad) ↦ elim (placed_fewer j e x h bad) [
      | inl same ↦ same
      | inr (t, gone) ↦
          let apart = digests_apart meta.sha256 j meta.ext e digest h other in absurd cc
    ]
  ]

  placed_gone : (x : StoreError) → placed.result ≡ err x → FewerFiles meta.sha256 d placed.dir
  placed_gone x bad e = elim (placed_fewer meta.sha256 e x digest bad) [
    | inl same ↦ inl same
    | inr (t, gone) ↦ inr gone
  ]

  -- Where nothing is served under the digest, the end of putStream adds the object or changes none.
  pub place_blob_lem :
      object codec d meta.sha256 ≡ none
      → Stored codec meta.sha256 new d placed ⊎ Refused codec d placed
  place_blob_lem absent = elim placed_result [
    | inl good ↦ inl (
      rw absent good,
      λ j h. elim (Bool-cases (bytes_eq meta.sha256 j)) [
        | inl same ↦
            let at : meta.sha256 ≡ j = bytes_eq_sound meta.sha256 j same in
            rw (← at, bytes_eq_refl meta.sha256, absent) (placed_object good)
        | inr other ↦ rw other (object-same codec j d placed.dir h (placed_other j h other))
      ],
    )
    | inr (x, bad) ↦ inr (
      x,
      bad,
      λ j h. elim (Bool-cases (bytes_eq meta.sha256 j)) [
        | inl same ↦
            let at : meta.sha256 ≡ j = bytes_eq_sound meta.sha256 j same in
            rw (← at, absent)
              (object-fewer codec meta.sha256 d placed.dir digest (placed_gone x bad) absent)
        | inr other ↦ object-same codec j d placed.dir h (placed_other j h other)
      ],
    )
  ]
