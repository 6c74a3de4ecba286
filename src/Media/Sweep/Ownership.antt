-- ===== src/Media/Sweep/Ownership.antt =====
-- internal/media/sweep.go: which files the sweeper touches.
use whatsapp_mcp_docker.Base.{
  ℕ, max, ◌≡◌, refl, ◌∙◌, inl, inr, Bool, true, false, ◌&&◌, ◌||◌, Option, none, some, List, [],
  ◌∷◌, ◌++◌, arith, ltb, leb, if◌then◌else◌, Bool-cases, Option-cases, all, Bytes,
}
use whatsapp_mcp_docker.Base.Sorting.{sort, insert_sorted}
use whatsapp_mcp_docker.Cache.Table.{Table, find, all-upsert}
use whatsapp_mcp_docker.Media.Digests.{
  normalize_digest, normalize_digest_of_digest, is_digest, is_digest-normalize_digest, is_hex,
}
use whatsapp_mcp_docker.Media.Directory.{bytes_key, is_temp}
use whatsapp_mcp_docker.Media.Store.{sidecar_name, dot_json}
use whatsapp_mcp_docker.Media.Payloads.{Options}
use whatsapp_mcp_docker.Media.Sweep.{
  Info, DirEntry, Entry, Scan, Pass, stem, has_suffix, with_blob, with_file, is_old, time_of,
  scan_entry, scan, no_scan, orphans, evict, expire, keep, no_pass, used_by, is_expired, before,
  sorted, evicted, visit, visit_all, first_pass, evict_until, enforce, sweep,
}

abbrev is_found : Option Bytes → Bool
is_found none = false
is_found (some digest) = true

-- A name of the store: one of a temporary file, or one that is a digest up to its extension.
abbrev pub is_ours : Bytes → Bool
is_ours name = is_temp name || is_found (normalize_digest (stem name))

stem-dot_json : (d : Bytes) → all is_hex d ≡ true → stem (d ++ dot_json) ≡ d
unfolding stem
stem-dot_json [] h = refl
stem-dot_json (c ∷ d) h = ground (arith, stem-dot_json d)

sidecar_ours : (digest : Bytes) → is_digest digest ≡ true → is_ours (sidecar_name digest) ≡ true
sidecar_ours digest h =
    let found = normalize_digest_of_digest digest h in
    rw (stem-dot_json digest (ground arith), found) (ground arith)

all-append : (xs ys : List Bytes) → all is_ours (xs ++ ys) ≡ (all is_ours xs && all is_ours ys)
all-append [] ys = refl
all-append (x ∷ xs) ys = ground (arith, all-append xs ys)

abbrev blob_ours : Entry → Bool
blob_ours b = is_ours b.name && is_digest b.digest

abbrev blob_row : Bytes × Entry → Bool
blob_row r = blob_ours r.1

abbrev sidecar_row : Bytes × Option ℕ → Bool
sidecar_row r = is_digest r.0

abbrev IsOurs : Scan → Type 0
IsOurs s =
    (all blob_row s.blobs.rows ≡ true)
    × (all sidecar_row s.sidecars.rows ≡ true)
    × (all is_ours s.removed ≡ true)

with_blob-IsOurs :
    (digest name : Bytes) (info : Option Info) (s : Scan)
    → is_digest digest ≡ true
    → is_ours name ≡ true
    → IsOurs s
    → IsOurs (with_blob digest name info s)
with_blob-IsOurs digest name none s h n ours = ours
with_blob-IsOurs digest name (some i) s h n (blobs, sidecars, removed) =
    let b : Entry = record {
      digest = digest;
      name = name;
      size = i.size;
      stored_at = i.mod_time;
      used_at = i.mod_time;
    } in
    let new : blob_row (digest, b) ≡ true = ground arith in
    (all-upsert blob_row digest b (λ _. b) new (λ j w _. new) s.blobs blobs, sidecars, removed)

with_file-IsOurs :
    (de : DirEntry) (digest : Option Bytes) (s : Scan)
    → normalize_digest (stem de.name) ≡ digest
    → IsOurs s
    → IsOurs (with_file de digest s)
with_file-IsOurs de none s e ours = ours
with_file-IsOurs de (some digest) s e (blobs, sidecars, removed) =
    let h = is_digest-normalize_digest (stem de.name) digest e in
    let n : is_ours de.name ≡ true = rw e (ground arith) in
    elim (Bool-cases (has_suffix dot_json de.name)) [
      | inl t ↦
          let more =
            all-upsert sidecar_row digest (time_of de.info) (λ _. time_of de.info) h (λ j w p. p)
              s.sidecars sidecars in
          rw t (blobs, more, removed)
      | inr t ↦
          let more = with_blob-IsOurs digest de.name de.info s h n (blobs, sidecars, removed) in
          rw t more
    ]

scan_entry-IsOurs : (now : ℕ) (de : DirEntry) (s : Scan) → IsOurs s → IsOurs (scan_entry now de s)
unfolding scan_entry
scan_entry-IsOurs now de s (blobs, sidecars, removed) = elim (Bool-cases de.is_dir) [
  | inl d ↦ rw d (blobs, sidecars, removed)
  | inr d ↦ elim (Bool-cases (is_temp de.name)) [
    | inl t ↦ elim (Bool-cases (is_old now de.info)) [
      | inl o ↦ rw (d, t, o) (blobs, sidecars, ground (arith, all-append s.removed (de.name ∷ [])))
      | inr o ↦ rw (d, t, o) (blobs, sidecars, removed)
    ]
    | inr t ↦
        let more =
          with_file-IsOurs de (normalize_digest (stem de.name)) s refl (blobs, sidecars, removed) in
        rw (d, t) more
  ]
]

scan-IsOurs :
    (now : ℕ) (listing : List DirEntry) (s : Scan) → IsOurs s → IsOurs (scan now listing s)
unfolding scan
scan-IsOurs now [] s ours = ours
scan-IsOurs now (de ∷ rest) s ours =
    scan-IsOurs now rest (scan_entry now de s) (scan_entry-IsOurs now de s ours)

orphans-ours :
    (blobs : Table Bytes Entry) (rows : List (Bytes × Option ℕ))
    → all sidecar_row rows ≡ true
    → all is_ours (orphans blobs rows) ≡ true
unfolding orphans
orphans-ours blobs [] h = refl
orphans-ours blobs ((digest, used) ∷ rows) h =
    let more = orphans-ours blobs rows (ground arith) in
    let this = sidecar_ours digest (ground arith) in
    elim (Option-cases (find digest blobs)) [ inl e ↦ rw (e, this) more | inr (b, e) ↦ rw e more ]

abbrev IsOursPass : Pass → Type 0
IsOursPass p = (all blob_ours p.live ≡ true) × (all is_ours p.removed ≡ true)

evict-ours : (b : Entry) → blob_ours b ≡ true → all is_ours (evict b) ≡ true
evict-ours b h = let side = sidecar_ours b.digest (ground arith) in ground arith

all_live-append :
    (xs : List Entry) (b : Entry)
    → all blob_ours xs ≡ true
    → blob_ours b ≡ true
    → all blob_ours (xs ++ (b ∷ [])) ≡ true
all_live-append [] b h k = ground arith
all_live-append (x ∷ xs) b h k = ground (arith, all_live-append xs b)

removed_more :
    (p : Pass) (names : List Bytes)
    → all is_ours p.removed ≡ true
    → all is_ours names ≡ true
    → all is_ours (p.removed ++ names) ≡ true
removed_more p names h k = all-append p.removed names ∙ rw (h, k) refl

kept_or_expired-ours :
    (gone : Bool) (b : Entry) (p : Pass)
    → blob_ours b ≡ true
    → IsOursPass p
    → IsOursPass (if gone then expire b p else keep b p)
kept_or_expired-ours true b p h (live, removed) =
    (live, removed_more p (evict b) removed (evict-ours b h))
kept_or_expired-ours false b p h (live, removed) = (all_live-append p.live b live h, removed)

used-ours :
    (gone : Bool) (used : Option ℕ) (b : Entry) (p : Pass)
    → blob_ours b ≡ true
    → IsOursPass p
    → IsOursPass (if gone then expire (used_by used b) p else keep (used_by used b) p)
used-ours gone none b p h ours = kept_or_expired-ours gone b p h ours
used-ours gone (some t) b p h ours = kept_or_expired-ours gone (record b { used_at = t }) p h ours

visit-ours :
    (opts : Options) (now : ℕ) (sidecars : Table Bytes (Option ℕ)) (b : Entry) (p : Pass)
    → blob_ours b ≡ true
    → IsOursPass p
    → IsOursPass (visit opts now sidecars b p)
unfolding visit
visit-ours opts now sidecars b p h (live, removed) = elim (Option-cases (find b.digest sidecars)) [
  | inl e ↦ rw e (live, removed_more p (b.name ∷ []) removed (ground arith))
  | inr (used, e) ↦
      let known = used-ours (is_expired opts now b) used b p h (live, removed) in rw e known
]

visit_all-ours :
    (opts : Options) (now : ℕ) (sidecars : Table Bytes (Option ℕ)) (rows : List (Bytes × Entry))
    (p : Pass)
    → all blob_row rows ≡ true
    → IsOursPass p
    → IsOursPass (visit_all opts now sidecars rows p)
unfolding visit_all
visit_all-ours opts now sidecars [] p h ours = ours
visit_all-ours opts now sidecars ((digest, b) ∷ rows) p h ours =
    visit_all-ours opts now sidecars rows (visit opts now sidecars b p) (ground arith)
      (visit-ours opts now sidecars b p (ground arith) ours)

first_pass-ours :
    (opts : Options) (now : ℕ) (s : Scan) → IsOurs s → IsOursPass (first_pass opts now s)
unfolding first_pass
first_pass-ours opts now s (blobs, sidecars, removed) =
    let names = s.removed ++ orphans s.blobs s.sidecars.rows in
    let start : all is_ours names ≡ true =
      all-append s.removed (orphans s.blobs s.sidecars.rows)
      ∙ rw (removed, orphans-ours s.blobs s.sidecars.rows sidecars) refl in
    visit_all-ours opts now s.sidecars s.blobs.rows (no_pass names) blobs (refl, start)

insert-ours :
    (b : Entry) (live : List Entry)
    → blob_ours b ≡ true
    → all blob_ours live ≡ true
    → all blob_ours (insert_sorted before b live) ≡ true
unfolding insert_sorted
insert-ours b [] h k = ground arith
insert-ours b (a ∷ live) h k = elim (Bool-cases (before b a)) [
  | inl e ↦ rw e (ground arith)
  | inr e ↦ rw e (ground (arith, insert-ours b live))
]

sort-ours :
    (live : List Entry) → all blob_ours live ≡ true → all blob_ours (sort before live) ≡ true
unfolding sort
sort-ours [] h = refl
sort-ours (b ∷ live) h =
    insert-ours b (sort before live) (ground arith) (sort-ours live (ground arith))

evict_until-ours :
    (max : ℕ) (live : List Entry) (p : Pass)
    → all blob_ours live ≡ true
    → all is_ours p.removed ≡ true
    → all is_ours (evict_until max live p).removed ≡ true
unfolding evict_until
evict_until-ours max [] p h k = k
evict_until-ours max (b ∷ rest) p h k =
    let more =
      evict_until-ours max rest (evicted b p) (ground arith)
        (removed_more p (evict b) k (evict-ours b (ground arith))) in
    elim (Bool-cases (leb p.res.remaining_bytes max)) [ inl e ↦ rw e k | inr e ↦ rw e more ]

-- Whatever the directory holds, the sweeper removes no file but temporary files of the store and files whose
-- name is a digest up to its extension.
pub sweep_ours :
    (opts : Options) (now : ℕ) (listing : List DirEntry)
    → all is_ours (sweep opts now listing).removed ≡ true
unfolding sweep enforce
sweep_ours opts now listing =
    let s = scan now listing no_scan in
    let p = first_pass opts now s in
    let (live, removed) =
      first_pass-ours opts now s (scan-IsOurs now listing no_scan (refl, refl, refl)) in
    let smaller =
      evict_until-ours opts.max_bytes (sort before p.live) (sorted p) (sort-ours p.live live)
        removed in
    elim (Bool-cases (ltb 0 opts.max_bytes && ltb opts.max_bytes p.res.remaining_bytes)) [
      | inl e ↦ rw e smaller
      | inr e ↦ rw e removed
    ]
