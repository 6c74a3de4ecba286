-- ===== src/Audio/Durations.antt =====
-- internal/audio/audio.go: lengths of streams in seconds.
use whatsapp_mcp_docker.Base.{
  ℕ, zero, suc, ◌+◌, ◌-◌, ◌*◌, ◌/◌, ◌%◌, ◌^◌, ◌≤◌, ◌<◌, ◌≡◌, refl, ◌∙◌, true, some, arith, lt→ltb,
  take, Bytes,
}
use whatsapp_mcp_docker.Base.Int.{pos}
use whatsapp_mcp_docker.Audio.{seconds, duration_of, opus_head, last_granule, tail_of, probe}

duration_in_range :
    (n : ℕ) → n * 1_000_000_000 < 2 ^ 63 → duration_of n ≡ pos (n * 1_000_000_000 / 48000)
duration_in_range n h = ground arith

seconds-pos :
    (m : ℕ)
    → m + 500_000_000 < 2 ^ 63
    → seconds (pos m) ≡ (m + 500_000_000) / 1_000_000_000 % 2 ^ 32
unfolding seconds
seconds-pos zero h = refl
seconds-pos (suc m) h = ground arith

-- The two roundings are one, and nothing wraps.
round_once :
    (n : ℕ)
    → n ≤ 9_223_372_036
    → (n * 1_000_000_000 / 48000 + 500_000_000) / 1_000_000_000 % 2 ^ 32 ≡ (n + 24000) / 48000
round_once n h = omega arith

seconds_in_range : (n : ℕ) → n ≤ 9_223_372_036 → seconds (duration_of n) ≡ (n + 24000) / 48000
seconds_in_range n h =
    rw (duration_in_range n (omega arith)) (seconds-pos _ (omega arith) ∙ round_once n h)

duration_wrapped : (n : ℕ) → 9_223_372_037 ≤ n → n ≤ 18_446_744_073 → seconds (duration_of n) ≡ 0
unfolding seconds
duration_wrapped n lo hi = ground arith

-- For a stream whose header says pre-skip `p` and whose last page says granule `g`, past `p` by at
-- most 9223372036 samples (53 hours), the length in seconds is the number of samples after the
-- pre-skip divided by 48000, rounded to the nearest whole number.
pub probe-seconds :
    (stream : Bytes) (p g : ℕ)
    → opus_head (take 512 stream) ≡ some p
    → last_granule (tail_of stream) ≡ some g
    → p < g
    → g - p ≤ 9_223_372_036
    → ((probe stream).is_ogg_opus ≡ true)
      × (seconds (probe stream).duration ≡ (g - p + 24000) / 48000)
unfolding probe
probe-seconds stream p g head last past short =
    rw (head, last, lt→ltb p g past) (refl, seconds_in_range (g - p) short)

-- For a stream whose last page says a granule past the header's pre-skip by more samples than
-- 9223372036 and by at most 18446744073, the length wraps around to a negative one, and zero seconds are
-- reported.
pub probe-seconds_wraps :
    (stream : Bytes) (p g : ℕ)
    → opus_head (take 512 stream) ≡ some p
    → last_granule (tail_of stream) ≡ some g
    → 9_223_372_037 ≤ g - p
    → g - p ≤ 18_446_744_073
    → seconds (probe stream).duration ≡ 0
unfolding probe
probe-seconds_wraps stream p g head last long bound =
    rw (head, last, lt→ltb p g (omega arith)) (duration_wrapped (g - p) long bound)
