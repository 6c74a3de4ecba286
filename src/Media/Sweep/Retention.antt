-- ===== src/Media/Sweep/Retention.antt =====
-- internal/media/sweep.go: what a pass of the sweeper removes, and what it leaves.
use whatsapp_mcp_docker.Base.{
  ℕ, ◌+◌, ◌≤◌, ◌<◌, max, ◌≡◌, refl, sym, ap, ◌∙◌, inl, inr, List, [], ◌∷◌, ◌++◌, arith, leb,
  Bool-cases, length, drop, Bytes,
}
use mathlib.Core.List.{append_assoc, append-nil}
use whatsapp_mcp_docker.Media.Directory.{bytes_key}
use whatsapp_mcp_docker.Media.Sweep.{Entry, Pass, evict, evicted, evict_until}

-- The size of the blobs.
abbrev pub total : List Entry → ℕ
total [] = 0
total (b ∷ rest) = b.size + total rest

-- The names that the evictions remove.
abbrev pub evictions : List Entry → List Bytes
evictions [] = []
evictions (b ∷ rest) = evict b ++ evictions rest

-- Each eviction was made when the blobs that were left had more bytes than the limit.
abbrev pub IsNeeded : ℕ → List Entry → List Entry → Type 0
IsNeeded max [] kept = Unit
IsNeeded max (b ∷ gone) kept = (max < total (b ∷ (gone ++ kept))) × IsNeeded max gone kept

-- The second pass took the first blobs of the list, no more than it had to.
abbrev pub Evicted : ℕ → List Entry → Pass → Pass → Type 0
Evicted max live p out =
    (gone : List Entry) × (live ≡ gone ++ out.live)
    × (out.removed ≡ p.removed ++ evictions gone)
    × (out.res.remaining_bytes ≡ total out.live)
    × (out.res.freed_bytes ≡ p.res.freed_bytes + total gone)
    × (out.res.evicted_blobs ≡ p.res.evicted_blobs + length gone)
    × (out.res.scanned_blobs ≡ p.res.scanned_blobs)
    × (out.res.expired_blobs ≡ p.res.expired_blobs)
    × (total out.live ≤ max)
    × IsNeeded max gone out.live

none_gone :
    (max : ℕ) (live : List Entry) (p : Pass)
    → p.live ≡ live
    → p.res.remaining_bytes ≡ total live
    → total live ≤ max
    → Evicted max live p p
none_gone max live p at e h =
    let same : total p.live ≡ total live = ap total at in
    (
      [],
      sym at,
      sym (append-nil p.removed),
      omega arith,
      omega arith,
      omega arith,
      refl,
      refl,
      omega arith,
      tt,
    )

one_gone :
    (max : ℕ) (b : Entry) (rest : List Entry) (p out : Pass)
    → p.res.remaining_bytes ≡ b.size + total rest
    → max < p.res.remaining_bytes
    → Evicted max rest (evicted b p) out
    → Evicted max (b ∷ rest) p out
one_gone max b rest p out e over
      (gone, split, removed, left, freed, count, scanned, expired, within, needed) =
    let same : total (gone ++ out.live) ≡ total rest = ap total (sym split) in
    (
      b ∷ gone,
      ap (◌∷◌ b) split,
      removed ∙ append_assoc p.removed (evict b) (evictions gone),
      left,
      omega arith,
      omega arith,
      scanned,
      expired,
      within,
      (omega arith, needed),
    )

pub evict_until_lem :
    (max : ℕ) (live : List Entry) (p : Pass)
    → p.live ≡ live
    → p.res.remaining_bytes ≡ total live
    → Evicted max live p (evict_until max live p)
unfolding evict_until
evict_until_lem max [] p at e = none_gone max [] p at e (omega arith)
evict_until_lem max (b ∷ rest) p at e =
    let shorter = evict_until_lem max rest (evicted b p) (ap (drop 1) at) (omega arith) in
    elim (Bool-cases (leb p.res.remaining_bytes max)) [
      | inl h ↦ let all' = none_gone max (b ∷ rest) p at e (ground arith) in rw h all'
      | inr h ↦
          let more =
            one_gone max b rest p (evict_until max rest (evicted b p)) e (ground arith) shorter in
          rw h more
    ]
