-- ===== src/Media/Sweep/Accounting.antt =====
-- internal/media/sweep.go: the accounts of a whole pass, and the order in which blobs are evicted.
use whatsapp_mcp_docker.Base.{
  ℕ, suc, ◌+◌, ◌≤◌, max, ◌≡◌, refl, sym, ap, ◌∙◌, ◌⊎◌, inl, inr, Bool, true, false, ◌&&◌, Option,
  none, some, List, [], ◌∷◌, ◌++◌, arith, ltb, if◌then◌else◌, Bool-cases, Option-cases, length,
  length-append, Bytes,
}
use whatsapp_mcp_docker.Base.Sorting.{sort, insert_sorted, IsSorted, sort-IsSorted}
use whatsapp_mcp_docker.Cache.Table.{Table, find}
use whatsapp_mcp_docker.Media.Directory.{bytes_key}
use whatsapp_mcp_docker.Media.Payloads.{Options}
use whatsapp_mcp_docker.Media.Sweep.{
  Entry, Scan, Pass, keep, expire, bytes_le, before, sorted, visit, visit_all, first_pass, enforce,
  orphans, no_pass, used_by, is_expired,
}
use whatsapp_mcp_docker.Media.Sweep.Retention.{total, Evicted, evict_until_lem}

bytes_le_total : (s t : Bytes) → bytes_le s t ≡ false → bytes_le t s ≡ true
bytes_le_total [] t h = absurd (ground arith)
bytes_le_total (c ∷ s) [] h = refl
bytes_le_total (c ∷ s) (b ∷ t) h = ground (arith, bytes_le_total s t)

bytes_le_trans : (s t u : Bytes) → bytes_le s t ≡ true → bytes_le t u ≡ true → bytes_le s u ≡ true
bytes_le_trans [] t u h k = refl
bytes_le_trans (c ∷ s) [] u h k = absurd (ground arith)
bytes_le_trans (c ∷ s) (b ∷ t) [] h k = absurd (ground arith)
bytes_le_trans (c ∷ s) (b ∷ t) (a ∷ u) h k = ground (arith, bytes_le_trans s t u)

before_total : (a b : Entry) → before a b ≡ false → before b a ≡ true
before_total a b h = ground (arith, bytes_le_total a.digest b.digest)

before_trans : (a b c : Entry) → before a b ≡ true → before b c ≡ true → before a c ≡ true
before_trans a b c h k = ground (arith, bytes_le_trans a.digest b.digest c.digest)

total-insert_sorted :
    (b : Entry) (live : List Entry) → total (insert_sorted before b live) ≡ b.size + total live
unfolding insert_sorted
total-insert_sorted b [] = refl
total-insert_sorted b (a ∷ live) = elim (Bool-cases (before b a)) [
  | inl e ↦ rw e refl
  | inr e ↦ rw e (omega (arith, total-insert_sorted b live))
]

total-sort : (live : List Entry) → total (sort before live) ≡ total live
unfolding sort
total-sort [] = refl
total-sort (b ∷ live) = omega (arith, total-insert_sorted b (sort before live), total-sort live)

length-insert_sorted :
    (b : Entry) (live : List Entry) → length (insert_sorted before b live) ≡ suc (length live)
unfolding insert_sorted
length-insert_sorted b [] = refl
length-insert_sorted b (a ∷ live) = elim (Bool-cases (before b a)) [
  | inl e ↦ rw e refl
  | inr e ↦ rw e (omega (arith, length-insert_sorted b live))
]

length-sort : (live : List Entry) → length (sort before live) ≡ length live
unfolding sort
length-sort [] = refl
length-sort (b ∷ live) = omega (arith, length-insert_sorted b (sort before live), length-sort live)

total-append : (xs ys : List Entry) → total (xs ++ ys) ≡ total xs + total ys
total-append [] ys = omega arith
total-append (b ∷ xs) ys = omega (arith, total-append xs ys)

-- The size of the blobs of a scan.
abbrev pub size_of : List (Bytes × Entry) → ℕ
size_of [] = 0
size_of ((digest, b) ∷ rest) = b.size + size_of rest

-- The counters agree with what was seen and what is left.
abbrev pub Accounts : ℕ → ℕ → Pass → Type 0
Accounts seen bytes p =
    (p.res.scanned_blobs ≡ seen)
    × (p.res.expired_blobs + p.res.evicted_blobs + length p.live ≡ seen)
    × (p.res.freed_bytes + p.res.remaining_bytes ≡ bytes)
    × (p.res.remaining_bytes ≡ total p.live)

module _ (seen bytes : ℕ) (p : Pass) (accounts : Accounts seen bytes p) where
  expire-Accounts : (b : Entry) → Accounts (seen + 1) (bytes + b.size) (expire b p)
  expire-Accounts b =
      let (scanned, count, freed, left) = accounts in (omega arith, omega arith, omega arith, left)

  keep-Accounts : (b : Entry) → Accounts (seen + 1) (bytes + b.size) (keep b p)
  keep-Accounts b =
      let (scanned, count, freed, left) = accounts in
      let one = total-append p.live (b ∷ []) in
      let longer = length-append p.live (b ∷ []) in
      (omega arith, omega arith, omega arith, omega arith)

  kept_or_expired :
      (gone : Bool) (b : Entry)
      → Accounts (seen + 1) (bytes + b.size) (if gone then expire b p else keep b p)
  kept_or_expired true b = expire-Accounts b
  kept_or_expired false b = keep-Accounts b

  used-Accounts :
      (gone : Bool) (used : Option ℕ) (b : Entry)
      → Accounts
          (seen + 1)
          (bytes + b.size)
          (if gone then expire (used_by used b) p else keep (used_by used b) p)
  used-Accounts gone none b = kept_or_expired gone b
  used-Accounts gone (some t) b = kept_or_expired gone (record b { used_at = t })

  visit-Accounts :
      (opts : Options) (now : ℕ) (sidecars : Table Bytes (Option ℕ)) (b : Entry)
      → Accounts (seen + 1) (bytes + b.size) (visit opts now sidecars b p)
  unfolding visit
  visit-Accounts opts now sidecars b = elim (Option-cases (find b.digest sidecars)) [
    | inl e ↦
        let (scanned, count, freed, left) = accounts in
        rw e (omega arith, omega arith, omega arith, left)
    | inr (used, e) ↦ let known = used-Accounts (is_expired opts now b) used b in rw e known
  ]

visit_all-Accounts :
    (opts : Options) (now seen bytes : ℕ) (sidecars : Table Bytes (Option ℕ))
    (rows : List (Bytes × Entry)) (p : Pass)
    → Accounts seen bytes p
    → Accounts (seen + length rows) (bytes + size_of rows) (visit_all opts now sidecars rows p)
unfolding visit_all
visit_all-Accounts opts now seen bytes sidecars [] p accounts =
    let (scanned, count, freed, left) = accounts in (omega arith, omega arith, omega arith, left)
visit_all-Accounts opts now seen bytes sidecars ((digest, b) ∷ rows) p accounts =
    let (scanned, count, freed, left) =
      visit_all-Accounts opts now (seen + 1) (bytes + b.size) sidecars rows
        (visit opts now sidecars b p) (visit-Accounts seen bytes p accounts opts now sidecars b) in
    (omega arith, omega arith, omega arith, left)

pub first_pass-Accounts :
    (opts : Options) (now : ℕ) (s : Scan)
    → Accounts (length s.blobs.rows) (size_of s.blobs.rows) (first_pass opts now s)
unfolding first_pass
first_pass-Accounts opts now s =
    let (scanned, count, freed, left) =
      visit_all-Accounts opts now 0 0 s.sidecars s.blobs.rows
        (no_pass (s.removed ++ orphans s.blobs s.sidecars.rows)) (refl, refl, refl, refl) in
    (omega arith, omega arith, omega arith, left)

-- The second pass removes the first blobs in the order of the eviction.
abbrev pub TookFirst : ℕ → Pass → Pass → Type 0
TookFirst max p out =
    Evicted max (sort before p.live) (sorted p) out × IsSorted before (sort before p.live)

pub enforce-cases :
    (max seen bytes : ℕ) (p : Pass)
    → Accounts seen bytes p
    → (((max ≡ 0) ⊎ (p.res.remaining_bytes ≤ max)) × (enforce max p ≡ p))
      ⊎ TookFirst max p (enforce max p)
unfolding enforce
enforce-cases max seen bytes p accounts =
    elim (Bool-cases (ltb 0 max && ltb max p.res.remaining_bytes)) [
      | inl e ↦
          let (scanned, count, freed, left) = accounts in
          let gone =
            evict_until_lem max (sort before p.live) (sorted p) refl
              (left ∙ sym (total-sort p.live)) in
          let order = sort-IsSorted before before_total before_trans p.live in
          rw e (inr (gone, order))
      | inr e ↦
          let within : (max ≡ 0) ⊎ (p.res.remaining_bytes ≤ max) = ground arith in
          rw e (inl (within, refl))
    ]

pub oldest-Accounts :
    (max seen bytes : ℕ) (p out : Pass)
    → Accounts seen bytes p
    → Evicted max (sort before p.live) (sorted p) out
    → Accounts seen bytes out
oldest-Accounts max seen bytes p out (scanned, count, freed, left)
      (gone, split, removed, remaining, more, evicted, same, expired, within, needed) =
    let sizes : total (gone ++ out.live) ≡ total p.live =
      ap total (sym split) ∙ total-sort p.live in
    let lengths : length (gone ++ out.live) ≡ length p.live =
      ap length (sym split) ∙ length-sort p.live in
    let size = total-append gone out.live in
    let number = length-append gone out.live in
    (same ∙ scanned, omega arith, omega arith, remaining)
