-- ===== src/Audio.antt =====
-- internal/audio/audio.go: the probe of Ogg/Opus streams. A reader is the bytes that it holds.
pub mod Probing
pub mod Durations
pub mod Examples
use whatsapp_mcp_docker.Base.{
  ℕ, zero, suc, ◌+◌, ◌-◌, ◌*◌, ◌/◌, ◌%◌, ◌^◌, min, Bool, true, false, not, ◌||◌, Option, none, some,
  length, take, drop, Bytes, codes, bytes_eq, slice, index, little_endian, ltb, ◌==◌, if◌then◌else◌,
}
use whatsapp_mcp_docker.Base.Int.{ℤ, pos, negsuc, signed64, quotient}

-- time.Second, in nanoseconds
abbrev pub second : ℕ
second = 1_000_000_000

pub record Info : Type 0 where
  pub is_ogg_opus : Bool
  pub duration : ℤ  -- nanoseconds, an int64

abbrev pub ogg_magic : Bytes
ogg_magic = codes "OggS"

abbrev pub opus_magic : Bytes
opus_magic = codes "OpusHead"

abbrev pub ogg_header_len : ℕ
ogg_header_len = 27

abbrev pub opus_rate : ℕ
opus_rate = 48000

abbrev pub tail_scan : ℕ
tail_scan = 65536

-- The granule of a page that completes no packet: ^uint64(0).
abbrev pub no_granule : ℕ
no_granule = 2 ^ 64 - 1

-- uint32(x)
abbrev pub to_uint32 : ℤ → ℕ
to_uint32 (pos m) = m % 2 ^ 32
to_uint32 (negsuc m) = 2 ^ 32 - 1 - m % 2 ^ 32

-- The sum wraps as an int64 before it is divided.
unfoldable pub seconds : ℤ → ℕ
seconds (negsuc n) = 0
seconds (pos zero) = 0
seconds (pos (suc n)) = to_uint32 (quotient (signed64 ((suc n + second / 2) % 2 ^ 64)) second)

-- The header's pre-skip field, if the field is there.
abbrev pub pre_skip_at : Bytes → ℕ → Option ℕ
pre_skip_at head idx =
    if ltb (length head) (idx + 12)
    then none
    else some (little_endian (slice head (idx + 10) (idx + 12)))

-- The magic stands just past the page header and the segment table.
abbrev pub pre_skip_near : Bytes → Option ℕ → Option ℕ
pre_skip_near head none = none
pre_skip_near head (some idx) =
    if ltb idx ogg_header_len || ltb 128 idx then none else pre_skip_at head idx

unfoldable pub opus_head : Bytes → Option ℕ
opus_head head =
    if ltb (length head) ogg_header_len || not (bytes_eq (take 4 head) ogg_magic)
    then none
    else pre_skip_near head (index opus_magic head)

-- The granule field of the page at `i`, if a page that completes a packet starts there.
unfoldable pub page_granule : Bytes → ℕ → Option ℕ
page_granule buf i =
    if bytes_eq (slice buf i (i + 4)) ogg_magic
    then (let g = little_endian (slice buf (i + 6) (i + 14)) in
        if g == no_granule then none else some g)
    else none

-- `for i := …; i >= 0; i--`, where `n` is `i + 1`.
unfoldable pub granule_from : Bytes → ℕ → Option ℕ
granule_from buf zero = none
granule_from buf (suc i) = elim (page_granule buf i) [ some g ↦ some g | none ↦ granule_from buf i ]

unfoldable pub last_granule : Bytes → Option ℕ
last_granule buf = granule_from buf (length buf + 1 - ogg_header_len)

-- time.Duration(samples) * time.Second / opusRate, in int64 arithmetic
abbrev pub duration_of : ℕ → ℤ
duration_of samples = quotient (signed64 (samples * second % 2 ^ 64)) opus_rate

-- What the last page says of a stream whose header says `pre_skip`.
abbrev pub info_of : ℕ → Option ℕ → Info
info_of pre_skip none = record { is_ogg_opus = true; duration = pos 0 }
info_of pre_skip (some granule) = record {
  is_ogg_opus = true;
  duration = if ltb pre_skip granule then duration_of (granule - pre_skip) else pos 0;
}

abbrev pub tail_of : Bytes → Bytes
tail_of stream = drop (length stream - min tail_scan (length stream)) stream

abbrev pub probe_tail : Bytes → Option ℕ → Info
probe_tail stream none = record { is_ogg_opus = false; duration = pos 0 }
probe_tail stream (some pre_skip) = info_of pre_skip (last_granule (tail_of stream))

-- `Probe` over an in-memory reader, whose reads and seeks do not fail (`ProbeBytes`).
unfoldable pub probe : Bytes → Info
probe stream = probe_tail stream (opus_head (take 512 stream))
