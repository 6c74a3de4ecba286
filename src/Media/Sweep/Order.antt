-- ===== src/Media/Sweep/Order.antt =====
-- internal/media/sweep.go: which blobs the second pass of the sweeper takes.
use whatsapp_mcp_docker.Base.{ℕ, ◌+◌, ◌≤◌, ◌<◌, ◌≡◌, ◌⊎◌, List, [], ◌∷◌, ◌++◌, length, All, Bytes}
use mathlib.Core.List.{Perm}
use whatsapp_mcp_docker.Media.Directory.{bytes_key}
use whatsapp_mcp_docker.Media.Sweep.{Entry, Pass}
use whatsapp_mcp_docker.Media.Sweep.Retention.{total, evictions, IsNeeded}

-- The order of the digests: the first byte that differs is smaller, or one ends before the other.
abbrev pub DigestLe : Bytes → Bytes → Type 0
DigestLe [] t = Unit
DigestLe (c ∷ s) [] = ⊥
DigestLe (c ∷ s) (b ∷ t) = (c < b) ⊎ ((c ≡ b) × DigestLe s t)

-- The first blob was used longer ago, or at the same time and its digest is not the greater one.
abbrev pub UsedBefore : Entry → Entry → Type 0
UsedBefore a b = (a.used_at < b.used_at) ⊎ ((a.used_at ≡ b.used_at) × DigestLe a.digest b.digest)

-- Each blob was used before those that follow it.
abbrev pub IsOrdered : List Entry → Type 0
IsOrdered [] = Unit
IsOrdered (a ∷ rest) = All (UsedBefore a) rest × IsOrdered rest

-- Each of the first blobs was used before each of the others.
abbrev pub AreBefore : List Entry → List Entry → Type 0
AreBefore gone kept = All (λ a. All (UsedBefore a) kept) gone

-- The pass took the blobs that were used longest ago from those of the first one, each with its sidecar
-- and only while the others had more bytes than the limit.
abbrev pub IsOldest : ℕ → Pass → Pass → Type 0
IsOldest max p out =
    (gone : List Entry) × Perm (gone ++ out.live) p.live
    × AreBefore gone out.live
    × IsOrdered gone
    × (out.removed ≡ p.removed ++ evictions gone)
    × (out.res.evicted_blobs ≡ p.res.evicted_blobs + length gone)
    × (out.res.freed_bytes ≡ p.res.freed_bytes + total gone)
    × (total out.live ≤ max)
    × IsNeeded max gone out.live
