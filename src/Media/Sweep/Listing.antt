-- ===== src/Media/Sweep/Listing.antt =====
-- internal/media/sweep.go: the blobs of a listing, and what a pass of the sweeper does with each.
use whatsapp_mcp_docker.Base.{
  ℕ, ◌+◌, ◌≤◌, ◌<◌, ◌≡◌, ◌≢◌, refl, ap, ◌∙◌, ◌⊎◌, inl, inr, ◌||◌, Option, none, some, List, [], ◌∷◌,
  ◌++◌, arith, if◌then◌else◌, Bool-cases, Option-cases, length, length-append, All, Bytes,
  bytes_eq_sound,
}
use whatsapp_mcp_docker.Cache.Table
use whatsapp_mcp_docker.Cache.Table.{find, find-upsert, upsert-fresh}
use whatsapp_mcp_docker.Media.Digests.{normalize_digest}
use whatsapp_mcp_docker.Media.Directory.{is_temp, bytes_key}
use whatsapp_mcp_docker.Media.Payloads.{Options}
use whatsapp_mcp_docker.Media.Store.{dot_json}
use whatsapp_mcp_docker.Media.Sweep.{
  Info, DirEntry, Entry, Scan, stem, has_suffix, scan_entry, first_pass, sweep, scan, no_scan,
}
use whatsapp_mcp_docker.Media.Sweep.Accounting.{
  Accounts, size_of, enforce-cases, first_pass-Accounts, oldest-Accounts,
}

abbrev with_size : Bytes → Option Info → List (Bytes × ℕ)
with_size digest none = []
with_size digest (some i) = (digest, i.size) ∷ []

abbrev with_digest : Option Info → Option Bytes → List (Bytes × ℕ)
with_digest info none = []
with_digest info (some digest) = with_size digest info

-- The blob that an entry of the directory holds, with its digest and its size: a file, not a temporary one
-- and not a sidecar, whose name is a digest up to its extension and whose size is known.
abbrev pub blob_at : DirEntry → List (Bytes × ℕ)
blob_at de =
    if de.is_dir || (is_temp de.name || has_suffix dot_json de.name)
    then []
    else with_digest de.info (normalize_digest (stem de.name))

abbrev pub blobs_of : List DirEntry → List (Bytes × ℕ)
blobs_of [] = []
blobs_of (de ∷ rest) = blob_at de ++ blobs_of rest

abbrev pub bytes_of : List (Bytes × ℕ) → ℕ
bytes_of [] = 0
bytes_of ((digest, size) ∷ rest) = size + bytes_of rest

-- No two of the blobs have one digest.
abbrev pub AreDistinct : List (Bytes × ℕ) → Type 0
AreDistinct [] = Unit
AreDistinct ((digest, size) ∷ rest) = All (λ b. digest ≢ b.0) rest × AreDistinct rest

-- What an entry adds to the scan.
scan_entry-cases :
    (now : ℕ) (de : DirEntry) (s : Scan)
    → ((blob_at de ≡ []) × ((scan_entry now de s).blobs ≡ s.blobs))
      ⊎ ((digest : Bytes) × (b : Entry) × (blob_at de ≡ (digest, b.size) ∷ [])
          × ((scan_entry now de s).blobs ≡ Table.upsert digest b (λ _. b) s.blobs))
unfolding scan_entry
scan_entry-cases now de s = elim (Bool-cases de.is_dir) [
  | inl d ↦ rw d (inl (refl, refl))
  | inr d ↦ elim (Bool-cases (is_temp de.name)) [
    | inl t ↦ rw (d, t) (inl (refl, ground arith))
    | inr t ↦ elim (Option-cases (normalize_digest (stem de.name))) [
      | inl n ↦ rw (d, t, n) (inl (ground arith, refl))
      | inr (digest, n) ↦ elim (Bool-cases (has_suffix dot_json de.name)) [
        | inl j ↦ rw (d, t, n, j) (inl (refl, refl))
        | inr j ↦ elim (Option-cases de.info) [
          | inl i ↦ rw (d, t, n, j, i) (inl (refl, refl))
          | inr (info, i) ↦ rw (d, t, n, j, i) (inr (digest, _, refl, refl))
        ]
      ]
    ]
  ]
]

size_of-append : (xs ys : List (Bytes × Entry)) → size_of (xs ++ ys) ≡ size_of xs + size_of ys
size_of-append [] ys = omega arith
size_of-append ((digest, b) ∷ xs) ys = omega (arith, size_of-append xs ys)

-- The blobs have digests that the scan has not seen.
abbrev AreNew : Scan → List (Bytes × ℕ) → Type 0
AreNew s = All (λ b. find b.0 s.blobs ≡ none)

AreNew-upsert :
    (digest : Bytes) (b : Entry) (s t : Scan) (bs : List (Bytes × ℕ))
    → t.blobs ≡ Table.upsert digest b (λ _. b) s.blobs
    → AreNew s bs
    → All (λ c. digest ≢ c.0) bs
    → AreNew t bs
AreNew-upsert digest b s t [] e new other = tt
AreNew-upsert digest b s t (c ∷ bs) e new other = (
  rw e (
      find-upsert digest c.0 b (λ _. b) s.blobs ∙ elim (Bool-cases (bytes_key.beq digest c.0)) [
        | inl same ↦ absurd (other.0 (bytes_eq_sound digest c.0 same))
        | inr apart ↦ rw apart new.0
      ]),
  AreNew-upsert digest b s t bs e new.1 other.1,
)

AreNew-same : (s t : Scan) (bs : List (Bytes × ℕ)) → t.blobs ≡ s.blobs → AreNew s bs → AreNew t bs
AreNew-same s t [] e new = tt
AreNew-same s t (c ∷ bs) e new = (rw e new.0, AreNew-same s t bs e new.1)

-- If no two blobs of the listing have one digest, the scan has a row for each.
scan-blobs_of :
    (now : ℕ) (listing : List DirEntry) (s : Scan)
    → AreNew s (blobs_of listing)
    → AreDistinct (blobs_of listing)
    → (length (scan now listing s).blobs.rows ≡ length s.blobs.rows + length (blobs_of listing))
      × (size_of (scan now listing s).blobs.rows
          ≡ size_of s.blobs.rows + bytes_of (blobs_of listing))
unfolding scan
scan-blobs_of now [] s new distinct = (omega arith, omega arith)
scan-blobs_of now (de ∷ rest) s new distinct =
    let t = scan_entry now de s in
    elim (scan_entry-cases now de s) [
      | inl (nothing, same) ↦
          let new' = AreNew-same s t (blobs_of rest) same (rw nothing at new) in
          let (count, bytes) = scan-blobs_of now rest t new' (rw nothing at distinct) in
          rw nothing (count ∙ rw same, bytes ∙ rw same)
      | inr (digest, b, one, stored) ↦
          let (fresh, news) = rw one at new in
          let (others, distinct') = rw one at distinct in
          let new' = AreNew-upsert digest b s t (blobs_of rest) stored news others in
          let (count, bytes) = scan-blobs_of now rest t new' distinct' in
          let rows : t.blobs.rows ≡ s.blobs.rows ++ ((digest, b) ∷ []) =
            rw stored (upsert-fresh digest b (λ _. b) s.blobs fresh) in
          let longer = ap length rows ∙ length-append s.blobs.rows ((digest, b) ∷ []) in
          let larger = ap size_of rows ∙ size_of-append s.blobs.rows ((digest, b) ∷ []) in
          rw one (omega arith, omega arith)
    ]

no_scan-AreNew : (bs : List (Bytes × ℕ)) → AreNew no_scan bs
unfolding find
no_scan-AreNew [] = tt
no_scan-AreNew (b ∷ bs) = (refl, no_scan-AreNew bs)

rows-Accounts :
    (opts : Options) (now : ℕ) (listing : List DirEntry)
    → Accounts
        (length (scan now listing no_scan).blobs.rows)
        (size_of (scan now listing no_scan).blobs.rows)
        (sweep opts now listing)
      × (0 < opts.max_bytes → (sweep opts now listing).res.remaining_bytes ≤ opts.max_bytes)
unfolding sweep
rows-Accounts opts now listing =
    let s = scan now listing no_scan in
    let first = first_pass-Accounts opts now s in
    elim (enforce-cases opts.max_bytes _ _ (first_pass opts now s) first) [
      | inl (within, same) ↦
          rw same
            (first, λ limited. elim within [ inl none' ↦ absurd (omega arith) | inr fits ↦ fits ])
      | inr (oldest, order) ↦
          let accounts = oldest-Accounts _ _ _ (first_pass opts now s) _ first oldest in
          let (gone, split, removed, remaining, more, evicted, same, expired, fits, needed) =
            oldest in
          (accounts, λ limited. omega arith)
    ]

-- If no two files of the listing that hold blobs have one digest, then after a pass each of these blobs is
-- counted once, as expired, as evicted or as left; their sizes are freed or remain, none lost and none
-- counted twice; and if there is a limit, the blobs that are left do not exceed it.
pub sweep-Accounts :
    (opts : Options) (now : ℕ) (listing : List DirEntry)
    → AreDistinct (blobs_of listing)
    → Accounts (length (blobs_of listing)) (bytes_of (blobs_of listing)) (sweep opts now listing)
      × (0 < opts.max_bytes → (sweep opts now listing).res.remaining_bytes ≤ opts.max_bytes)
sweep-Accounts opts now listing distinct =
    let (count, bytes) =
      scan-blobs_of now listing no_scan (no_scan-AreNew (blobs_of listing)) distinct in
    let ((scanned, number, sizes, left), fits) = rows-Accounts opts now listing in
    ((omega arith, omega arith, omega arith, left), fits)
