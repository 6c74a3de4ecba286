-- ===== src/Media/Store/Placing.antt =====
-- internal/media/media.go: what `writeFile` and the end of `putStream` leave in the directory.
use whatsapp_mcp_docker.Base.{
  ◌≡◌, refl, ◌∙◌, ◌⊎◌, inl, inr, true, false, none, some, [], ◌++◌, arith, if◌then◌else◌,
  Bool-cases, Option-cases, Bytes, bytes_eq, bytes_eq_refl,
}
use whatsapp_mcp_docker.Cache.Table.{find}
use whatsapp_mcp_docker.Media.Directory.{
  File, Directory, write, rename, remove, find-write, bytes_at, bytes_at-write, bytes_at-remove,
  bytes_at-rename, bytes_key,
}
use whatsapp_mcp_docker.Media.Payloads.{
  Sidecar, Descriptor, Call, create_sidecar, write_sidecar, chmod_blob, rename_blob, remove_blob,
  remove_temp, StoreError, ok, err, Codec, Io,
}
use whatsapp_mcp_docker.Media.Store.{
  Written, Done, sidecar_name, descriptor, try_remove, write_failure, after_temp, write_file,
  place_blob,
}

pub bytes_at-try_remove :
    (io : Io) (call : Call) (name n : Bytes) (d : Directory)
    → bytes_eq name n ≡ false
    → bytes_at n (try_remove io call name d) ≡ bytes_at n d
bytes_at-try_remove io call name n d apart = elim (Bool-cases (io.fails call)) [
  | inl e ↦ rw e refl
  | inr e ↦ rw (e, bytes_at-remove name n d, apart) refl
]

written_whole : (io : Io) → write_failure io ≡ none → io.fails write_sidecar ≡ false
written_whole io h = ground arith

-- The file that writeFile has in its temporary file.
abbrev part : Io → Bytes → File
part io body = record { bytes = if io.fails write_sidecar then [] else body; mtime = io.now }

module _ (io : Io) (name body : Bytes) (d : Directory) (n : Bytes)
    (apart : bytes_eq io.sidecar_temp n ≡ false) where
  after_temp-ok :
      write_failure io ≡ none
      → bytes_at n (after_temp io name none (write io.sidecar_temp (part io body) d)).dir
        ≡ (if bytes_eq name n then some body else bytes_at n d)
  after_temp-ok h =
      let d' = write io.sidecar_temp (part io body) d in
      let there : find io.sidecar_temp d' ≡ some (part io body) =
        find-write io.sidecar_temp io.sidecar_temp (part io body) d ∙ rw bytes_eq_refl refl in
      bytes_at-try_remove io remove_temp io.sidecar_temp n (rename io.sidecar_temp name d') apart
      ∙ (bytes_at-rename io.sidecar_temp name n (part io body) d' there
          ∙ rw (apart, bytes_at-write io.sidecar_temp n (part io body) d, apart, written_whole io h)
              refl)

  after_temp-err :
      (call : Call)
      → bytes_at n (after_temp io name (some call) (write io.sidecar_temp (part io body) d)).dir
        ≡ bytes_at n d
  after_temp-err call =
      bytes_at-try_remove io remove_temp io.sidecar_temp n (write io.sidecar_temp (part io body) d)
        apart
      ∙ (bytes_at-write io.sidecar_temp n (part io body) d ∙ rw apart refl)

  -- writeFile replaces one file, or leaves all.
  pub write_file-cases :
      (((write_file io name body d).error ≡ none)
        × (bytes_at n (write_file io name body d).dir
            ≡ (if bytes_eq name n then some body else bytes_at n d)))
      ⊎ ((e : StoreError) × ((write_file io name body d).error ≡ some e)
          × (bytes_at n (write_file io name body d).dir ≡ bytes_at n d))
  unfolding write_file
  write_file-cases = elim (Bool-cases (io.fails create_sidecar)) [
    | inl e ↦ rw e (inr (_, refl, refl))
    | inr e ↦ rw e (elim (Option-cases (write_failure io)) [
      | inl f ↦ let w = after_temp-ok f in rw f (inl (refl, w))
      | inr (call, f) ↦ let w = after_temp-err call in rw f (inr (_, refl, w))
    ])
  ]

module _ (codec : Codec) (io : Io) (meta : Sidecar) (d : Directory) (f : File) (n : Bytes)
    (there : find io.temp d ≡ some f) (apart : bytes_eq io.temp n ≡ false)
    (sidecar_apart : bytes_eq io.sidecar_temp n ≡ false)
    (removable : io.fails remove_blob ≡ false) where
  abbrev blob : Bytes
  blob = meta.sha256 ++ meta.ext

  abbrev renamed : Directory
  renamed = rename io.temp blob d

  bytes_at-renamed : bytes_at n renamed ≡ (if bytes_eq blob n then some f.bytes else bytes_at n d)
  bytes_at-renamed = bytes_at-rename io.temp blob n f d there ∙ rw apart refl

  abbrev Placed : Done Descriptor → Type 0
  Placed done =
      (done.result ≡ ok (descriptor meta))
      × (bytes_at n done.dir ≡ (
          if bytes_eq (sidecar_name meta.sha256) n
          then some (codec.marshal meta)
          else if bytes_eq blob n
          then some f.bytes
          else bytes_at n d))

  abbrev Undone : Done Descriptor → Type 0
  Undone done =
      (e : StoreError) × (done.result ≡ err e)
      × ((bytes_at n done.dir ≡ bytes_at n d)
          ⊎ ((bytes_eq blob n ≡ true) × (bytes_at n done.dir ≡ none)))

  undone :
      (w : Written)
      → bytes_at n w.dir ≡ bytes_at n renamed
      → (bytes_at n (remove blob w.dir) ≡ bytes_at n d)
        ⊎ ((bytes_eq blob n ≡ true) × (bytes_at n (remove blob w.dir) ≡ none))
  undone w h = elim (Bool-cases (bytes_eq blob n)) [
    | inl e ↦ inr (e, bytes_at-remove blob n w.dir ∙ rw e refl)
    | inr e ↦ inl (bytes_at-remove blob n w.dir ∙ rw e (h ∙ (bytes_at-renamed ∙ rw e refl)))
  ]

  -- The end of putStream stores the blob and its sidecar, or leaves every file but a blob of that name.
  pub place_blob-cases : Placed (place_blob codec io meta d) ⊎ Undone (place_blob codec io meta d)
  unfolding place_blob
  place_blob-cases =
      let kept = bytes_at-try_remove io remove_temp io.temp n d apart in
      let w = write_file io (sidecar_name meta.sha256) (codec.marshal meta) renamed in
      elim (Bool-cases (io.fails chmod_blob)) [
        | inl e ↦ rw e (inr (_, refl, inl kept))
        | inr e ↦ elim (Bool-cases (io.fails rename_blob)) [
          | inl g ↦ rw (e, g) (inr (_, refl, inl kept))
          | inr g ↦
              rw (e, g)
                (elim (write_file-cases io (sidecar_name meta.sha256) (codec.marshal meta) renamed n
                  sidecar_apart) [
                    | inl (none', b) ↦ rw none' (inl (refl, b ∙ rw bytes_at-renamed refl))
                    | inr (err', some', b) ↦
                        let back = undone w b in rw (some', removable) (inr (err', refl, back))
                  ])
        ]
      ]
