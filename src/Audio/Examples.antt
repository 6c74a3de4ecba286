-- ===== src/Audio/Examples.antt =====
-- The probe on small streams, where a page is its header alone.
use whatsapp_mcp_docker.Base.{
  ℕ, ◌+◌, ◌-◌, ◌/◌, ◌≡◌, refl, ◌↔◌, true, some, [], ◌∷◌, ◌++◌, arith, take, Bytes,
}
use whatsapp_mcp_docker.Base.ByteStrings.{index}
use whatsapp_mcp_docker.Audio.{
  ogg_magic, opus_magic, opus_head, page_granule, granule_from, last_granule, tail_of, probe,
  seconds,
}
use whatsapp_mcp_docker.Audio.Probing.{LastPage, last_granule_iff, last_granule-drop}
use whatsapp_mcp_docker.Audio.Durations.{probe-seconds, probe-seconds_wraps}

-- A page header with an empty segment table: its granule, low byte first, and zeros.
abbrev page : Bytes → Bytes
page granule =
    ogg_magic ++ 0 ∷ 0 ∷ granule ++ (0 ∷ 0 ∷ 0 ∷ 0 ∷ 0 ∷ 0 ∷ 0 ∷ 0 ∷ 0 ∷ 0 ∷ 0 ∷ 0 ∷ 0 ∷ [])

abbrev granule_3312 : Bytes
granule_3312 = 240 ∷ 12 ∷ 0 ∷ 0 ∷ 0 ∷ 0 ∷ 0 ∷ 0 ∷ []

-- 312 samples of pre-skip.
abbrev head : Bytes
head = page (0 ∷ 0 ∷ 0 ∷ 0 ∷ 0 ∷ 0 ∷ 0 ∷ 0 ∷ []) ++ opus_magic ++ (1 ∷ 1 ∷ 56 ∷ 1 ∷ [])

-- 3000 samples past the pre-skip.
abbrev short : Bytes
short = head ++ page granule_3312

-- 10^10 samples and 312.
abbrev long : Bytes
long = head ++ page (56 ∷ 229 ∷ 11 ∷ 84 ∷ 2 ∷ 0 ∷ 0 ∷ 0 ∷ [])

short_head : opus_head (take 512 short) ≡ some 312
unfolding opus_head index
short_head = refl

short_last : last_granule (tail_of short) ≡ some 3312
unfolding last_granule granule_from page_granule
short_last = refl

page_last : last_granule (page granule_3312) ≡ some 3312
unfolding last_granule granule_from page_granule
page_last = refl

long_head : opus_head (take 512 long) ≡ some 312
unfolding opus_head index
long_head = refl

long_last : last_granule (tail_of long) ≡ some 10_000_000_312
unfolding last_granule granule_from page_granule
long_last = refl

probe-seconds_example :
    ((probe short).is_ogg_opus ≡ true)
    × (seconds (probe short).duration ≡ (3312 - 312 + 24000) / 48000)
probe-seconds_example =
    probe-seconds short 312 3312 short_head short_last (omega arith) (omega arith)

probe-seconds_wraps_example : seconds (probe long).duration ≡ 0
probe-seconds_wraps_example =
    probe-seconds_wraps long 312 10_000_000_312 long_head long_last (omega arith) (omega arith)

last_granule_iff_example :
    (last_granule (page granule_3312) ≡ some 3312) ↔ ((i : ℕ) × LastPage (page granule_3312) 3312 i)
last_granule_iff_example = last_granule_iff (page granule_3312) 3312

last_granule-drop_example : last_granule short ≡ some 3312
last_granule-drop_example = last_granule-drop 39 short 3312 page_last
