-- ===== src/Media/Sweep.antt =====
-- internal/media/sweep.go: one pass of the sweeper over a listing of the directory. The maps of the code are
-- gone through in the order of their first insertion, where Go's order is open.
pub mod Retention
pub mod Accounting
pub mod Listing
pub mod Order
pub mod Ownership
use whatsapp_mcp_docker.Base.{
  ℕ, ◌+◌, ◌-◌, max, Bool, true, false, not, ◌&&◌, ◌||◌, Option, none, some, List, [], ◌∷◌, ◌++◌,
  ltb, leb, ◌==◌, if◌then◌else◌, length, drop, any, Bytes, bytes_eq,
}
use whatsapp_mcp_docker.Base.Sorting.{sort}
use whatsapp_mcp_docker.Cache.Table
use whatsapp_mcp_docker.Cache.Table.{Table, find, empty}
use whatsapp_mcp_docker.Media.Digests.{normalize_digest}
use whatsapp_mcp_docker.Media.Directory.{is_temp, bytes_key}
use whatsapp_mcp_docker.Media.Payloads.{Options}
use whatsapp_mcp_docker.Media.Store.{sidecar_name, dot_json}

-- fs.FileInfo
pub record Info : Type 0 where
  pub size : ℕ
  pub mod_time : ℕ

-- An entry of os.ReadDir; `info` is missing if Info fails.
pub record DirEntry : Type 0 where
  pub name : Bytes
  pub is_dir : Bool
  pub info : Option Info

pub record Entry : Type 0 where
  pub digest : Bytes
  pub name : Bytes
  pub size : ℕ
  pub stored_at : ℕ
  pub used_at : ℕ

pub record SweepResult : Type 0 where
  pub scanned_blobs : ℕ
  pub expired_blobs : ℕ
  pub evicted_blobs : ℕ
  pub freed_bytes : ℕ
  pub remaining_bytes : ℕ

-- strings.TrimSuffix(name, filepath.Ext(name))
unfoldable pub stem : Bytes → Bytes
stem [] = []
stem (c ∷ s) = let rest = stem s in if (c == b'.') && not (any (◌==◌ b'.') s) then [] else c ∷ rest

-- strings.HasSuffix
abbrev pub has_suffix : Bytes → Bytes → Bool
has_suffix suffix s =
    leb (length suffix) (length s) && bytes_eq (drop (length s - length suffix) s) suffix

-- time.Hour, in nanoseconds
abbrev hour : ℕ
hour = 3_600_000_000_000

-- What the first loop collects; `used` is missing for a time that could not be read.
pub record Scan : Type 0 where
  pub blobs : Table Bytes Entry
  pub sidecars : Table Bytes (Option ℕ)
  pub removed : List Bytes

abbrev pub is_old : ℕ → Option Info → Bool
is_old now none = false
is_old now (some i) = ltb hour (now - i.mod_time)

abbrev pub time_of : Option Info → Option ℕ
time_of none = none
time_of (some i) = some i.mod_time

abbrev pub with_blob : Bytes → Bytes → Option Info → Scan → Scan
with_blob digest name none s = s
with_blob digest name (some i) s =
    let b : Entry = record {
      digest = digest;
      name = name;
      size = i.size;
      stored_at = i.mod_time;
      used_at = i.mod_time;
    } in
    record s { blobs = Table.upsert digest b (λ _. b) s.blobs }

abbrev pub with_file : DirEntry → Option Bytes → Scan → Scan
with_file de none s = s
with_file de (some digest) s =
    if has_suffix dot_json de.name
    then record s {
      sidecars = Table.upsert digest (time_of de.info) (λ _. time_of de.info) s.sidecars;
    }
    else with_blob digest de.name de.info s

-- The body of the first loop.
unfoldable pub scan_entry : ℕ → DirEntry → Scan → Scan
unfolding stem
scan_entry now de s =
    if de.is_dir
    then s
    else if is_temp de.name
    then (if is_old now de.info then record s { removed = s.removed ++ (de.name ∷ []) } else s)
    else with_file de (normalize_digest (stem de.name)) s

unfoldable pub scan : ℕ → List DirEntry → Scan → Scan
scan now [] s = s
scan now (de ∷ rest) s = scan now rest (scan_entry now de s)

abbrev pub no_scan : Scan
no_scan = record { blobs = empty; sidecars = empty; removed = [] }

abbrev unless_blob : Bytes → Option Entry → List Bytes → List Bytes
unless_blob digest none more = sidecar_name digest ∷ more
unless_blob digest (some b) more = more

-- Orphaned sidecars
unfoldable pub orphans : Table Bytes Entry → List (Bytes × Option ℕ) → List Bytes
orphans blobs [] = []
orphans blobs ((digest, used) ∷ rest) = unless_blob digest (find digest blobs) (orphans blobs rest)

-- The counters, the blobs that are left, and the names that were removed.
pub record Pass : Type 0 where
  pub res : SweepResult
  pub live : List Entry
  pub removed : List Bytes

-- The names that `evict` removes.
abbrev pub evict : Entry → List Bytes
evict b = b.name ∷ sidecar_name b.digest ∷ []

abbrev pub orphan : Entry → Pass → Pass
orphan b p =
    let res = p.res in
    record {
      res = record res {
        scanned_blobs = res.scanned_blobs + 1;
        evicted_blobs = res.evicted_blobs + 1;
        freed_bytes = res.freed_bytes + b.size;
      };
      live = p.live;
      removed = p.removed ++ (b.name ∷ []);
    }

abbrev pub expire : Entry → Pass → Pass
expire b p =
    let res = p.res in
    record {
      res = record res {
        scanned_blobs = res.scanned_blobs + 1;
        expired_blobs = res.expired_blobs + 1;
        freed_bytes = res.freed_bytes + b.size;
      };
      live = p.live;
      removed = p.removed ++ evict b;
    }

abbrev pub keep : Entry → Pass → Pass
keep b p =
    let res = p.res in
    record {
      res = record res {
        scanned_blobs = res.scanned_blobs + 1;
        remaining_bytes = res.remaining_bytes + b.size;
      };
      live = p.live ++ (b ∷ []);
      removed = p.removed;
    }

abbrev pub used_by : Option ℕ → Entry → Entry
used_by none b = b
used_by (some t) b = record b { used_at = t }

abbrev pub is_expired : Options → ℕ → Entry → Bool
is_expired opts now b = ltb 0 opts.ttl && ltb opts.ttl (now - b.stored_at)

abbrev visited : Options → ℕ → Entry → Option (Option ℕ) → Pass → Pass
visited opts now b none p = orphan b p
visited opts now b (some used) p =
    if is_expired opts now b then expire (used_by used b) p else keep (used_by used b) p

-- The body of the loop over the blobs.
unfoldable pub visit : Options → ℕ → Table Bytes (Option ℕ) → Entry → Pass → Pass
visit opts now sidecars b p = visited opts now b (find b.digest sidecars) p

unfoldable pub visit_all : Options → ℕ → Table Bytes (Option ℕ) → List (Bytes × Entry) → Pass → Pass
visit_all opts now sidecars [] p = p
visit_all opts now sidecars ((digest, b) ∷ rest) p =
    visit_all opts now sidecars rest (visit opts now sidecars b p)

-- digest order
abbrev pub bytes_le : Bytes → Bytes → Bool
bytes_le [] t = true
bytes_le (c ∷ s) [] = false
bytes_le (c ∷ s) (b ∷ t) = ltb c b || ((c == b) && bytes_le s t)

-- The order of the eviction.
abbrev pub before : Entry → Entry → Bool
before a b = ltb a.used_at b.used_at || ((a.used_at == b.used_at) && bytes_le a.digest b.digest)

abbrev pub evicted : Entry → Pass → Pass
evicted b p =
    let res = p.res in
    record {
      res = record res {
        evicted_blobs = res.evicted_blobs + 1;
        freed_bytes = res.freed_bytes + b.size;
        remaining_bytes = res.remaining_bytes - b.size;
      };
      live = drop 1 p.live;
      removed = p.removed ++ evict b;
    }

-- The loop of the second pass.
unfoldable pub evict_until : ℕ → List Entry → Pass → Pass
evict_until max [] p = p
evict_until max (b ∷ rest) p =
    let more = evict_until max rest (evicted b p) in
    if leb p.res.remaining_bytes max then p else more

abbrev pub no_pass : List Bytes → Pass
no_pass removed = record {
  res = record {
    scanned_blobs = 0;
    expired_blobs = 0;
    evicted_blobs = 0;
    freed_bytes = 0;
    remaining_bytes = 0;
  };
  live = [];
  removed = removed;
}

-- The first pass: what is left of the listing after orphans and expired blobs.
unfoldable pub first_pass : Options → ℕ → Scan → Pass
unfolding visit_all orphans
first_pass opts now s =
    visit_all opts now s.sidecars s.blobs.rows
      (no_pass (s.removed ++ orphans s.blobs s.sidecars.rows))

abbrev pub sorted : Pass → Pass
sorted p = record p { live = sort before p.live }

-- The second pass.
unfoldable pub enforce : ℕ → Pass → Pass
unfolding evict_until
enforce max p =
    let smaller = evict_until max (sort before p.live) (sorted p) in
    if ltb 0 max && ltb max p.res.remaining_bytes then smaller else p

-- Sweep, on the listing that os.ReadDir gives
unfoldable pub sweep : Options → ℕ → List DirEntry → Pass
unfolding scan first_pass enforce
sweep opts now listing = enforce opts.max_bytes (first_pass opts now (scan now listing no_scan))
