-- ===== src/Audio/Probing.antt =====
-- internal/audio/audio.go: the backward scan of `lastGranule`.
use native.Mathlib.Decide.{dec_lt}
use whatsapp_mcp_docker.Base.{
  ℕ, zero, suc, ◌+◌, ◌-◌, ◌≤◌, ◌<◌, ◌≡◌, refl, sym, ◌∙◌, ◌↔◌, ◌^◌, inl, inr, none, some, [], ◌∷◌,
  arith, take, Bytes, length, drop, length-drop, Option-cases, Bool-cases, bytes_eq, bytes_eq_sound,
  little_endian,
}
use whatsapp_mcp_docker.Audio.{page_granule, granule_from, last_granule, ogg_header_len, ogg_magic}

granule_from_found :
    (buf : Bytes) (n : ℕ) (g : ℕ)
    → granule_from buf n ≡ some g
    → (i : ℕ) × (i < n)
      × (page_granule buf i ≡ some g)
      × ((j : ℕ) → i < j → j < n → page_granule buf j ≡ none)
unfolding granule_from
granule_from_found buf zero g h = absurd (ground arith)
granule_from_found buf (suc n) g h = elim (Option-cases (page_granule buf n)) [
  | inr (g', e) ↦ (n, omega arith, ground arith, λ j p q. absurd (omega arith))
  | inl e ↦
      let (i, lt, here, later) = granule_from_found buf n g (ground arith) in
      (
        i,
        omega arith,
        here,
        λ j p q. elim (dec_lt j n) [
          | yes r ↦ later j p r
          | no r ↦ let same : j ≡ n = omega arith in rw same e
        ],
      )
]

granule_from_last :
    (buf : Bytes) (n i g : ℕ)
    → i < n
    → page_granule buf i ≡ some g
    → ((j : ℕ) → i < j → j < n → page_granule buf j ≡ none)
    → granule_from buf n ≡ some g
unfolding granule_from
granule_from_last buf zero i g lt here later = absurd (omega arith)
granule_from_last buf (suc n) i g lt here later = elim (dec_lt i n) [
  | yes p ↦
      let e : page_granule buf n ≡ none = later n p (omega arith) in
      rw (e, granule_from) (granule_from_last buf n i g p here (λ j q r. later j q (omega arith)))
  | no p ↦ let same : i ≡ n = omega arith in let e = rw same at here in ground arith
]

-- A page that completes a packet starts at `i`, and `g` is its granule position: the capture pattern
-- stands there, and the eight bytes from the sixth on are not all ones.
abbrev pub Completes : Bytes → ℕ → ℕ → Type 0
Completes buf i g =
    (take 4 (drop i buf) ≡ b'O' ∷ b'g' ∷ b'g' ∷ b'S' ∷ [])
    × (little_endian (take 8 (drop (i + 6) buf)) ≡ g)
    × ¬ (g ≡ 2 ^ 64 - 1)

page_granule-Completes : (buf : Bytes) (i g : ℕ) → page_granule buf i ≡ some g → Completes buf i g
unfolding page_granule
page_granule-Completes buf i g h =
    let e0 : i + 4 - i ≡ 4 = omega arith in
    let e1 : i + 14 - (i + 6) ≡ 8 = omega arith in
    let h' = rw (e0, e1) at h in
    elim (Bool-cases (bytes_eq (take 4 (drop i buf)) ogg_magic)) [
      | inl e ↦
          let same = bytes_eq_sound (take 4 (drop i buf)) ogg_magic e in
          let rest = rw e at h' in (same, ground arith, ground arith)
      | inr e ↦ let rest = rw e at h' in absurd cc
    ]

Completes-page_granule : (buf : Bytes) (i g : ℕ) → Completes buf i g → page_granule buf i ≡ some g
unfolding page_granule
Completes-page_granule buf i g (magic, field, some_packet) =
    let e0 : i + 4 - i ≡ 4 = omega arith in
    let e1 : i + 14 - (i + 6) ≡ 8 = omega arith in rw (e0, e1, magic, field) (ground arith)

no_page : (buf : Bytes) (j : ℕ) → ((g : ℕ) → ¬ Completes buf j g) → page_granule buf j ≡ none
no_page buf j h = elim (Option-cases (page_granule buf j)) [
  | inl e ↦ e
  | inr (g, e) ↦ absurd (h g (page_granule-Completes buf j g e))
]

no_completion : (buf : Bytes) (j : ℕ) → page_granule buf j ≡ none → (g : ℕ) → ¬ Completes buf j g
no_completion buf j h g c = let e = Completes-page_granule buf j g c in absurd cc

-- The page at `i` completes a packet and says `g`, and no page that starts after it completes one.
abbrev pub LastPage : Bytes → ℕ → ℕ → Type 0
LastPage buf g i =
    (i + ogg_header_len ≤ length buf)
    × Completes buf i g
    × ((j : ℕ) → i < j → j + ogg_header_len ≤ length buf → (g' : ℕ) → ¬ Completes buf j g')

-- The backward scan returns `g` exactly when `g` is the granule position of the last page in the buffer
-- that completes a packet: some place, with room for a page header, has the capture pattern and a
-- granule field that is not all ones, and no later place with room for one does.
pub last_granule_iff :
    (buf : Bytes) (g : ℕ) → (last_granule buf ≡ some g) ↔ ((i : ℕ) × LastPage buf g i)
unfolding last_granule
last_granule_iff buf g = (
  (λ h.
      let (i, lt, here, later) = granule_from_found buf _ g h in
      (
        i,
        (
          omega arith,
          page_granule-Completes buf i g here,
          λ j p q. no_completion buf j (later j p (omega arith)),
        ),
      )),
  λ (i, l).
      granule_from_last buf _ i g (omega (arith, l.0)) (Completes-page_granule buf i g l.1)
        (λ j p q. no_page buf j (l.2 j p (omega arith))),
)

drop-nil : (n : ℕ) → drop {A = ℕ} n [] ≡ []
drop-nil zero = refl
drop-nil (suc n) = refl

drop-drop : (i k : ℕ) (buf : Bytes) → drop i (drop k buf) ≡ drop (k + i) buf
drop-drop i zero buf = rw (let e : zero + i ≡ i = omega arith in e)
drop-drop i (suc k) [] = rw (drop-nil i, drop-nil (suc k + i))
drop-drop i (suc k) (x ∷ buf) =
    let e : suc k + i ≡ suc (k + i) = omega arith in rw e (drop-drop i k buf)

page_granule-drop :
    (k : ℕ) (buf : Bytes) (i : ℕ) → page_granule (drop k buf) i ≡ page_granule buf (k + i)
unfolding page_granule
page_granule-drop k buf i =
    let e0 : k + i + 4 - (k + i) ≡ i + 4 - i = omega arith in
    let e1 : k + i + 14 - (k + i + 6) ≡ i + 14 - (i + 6) = omega arith in
    let e2 : k + i + 6 ≡ k + (i + 6) = omega arith in
    rw (drop-drop i k buf, drop-drop (i + 6) k buf, e0, e1, e2)

-- If the bytes from `k` on hold a page that completes a packet, the last such page there is the last
-- such page of the whole buffer: what comes before a window never changes what the scan finds.
pub last_granule-drop :
    (k : ℕ) (buf : Bytes) (g : ℕ) → last_granule (drop k buf) ≡ some g → last_granule buf ≡ some g
last_granule-drop k buf g h =
    let (i, l) = (last_granule_iff (drop k buf) g).0 h in
    (last_granule_iff buf g).1 (
      k + i,
      (
        omega (arith, length-drop k buf, l.0),
        page_granule-Completes buf (k + i) g
            (sym (page_granule-drop k buf i) ∙ Completes-page_granule (drop k buf) i g l.1),
        λ j p q.
            let e : k + (j - k) ≡ j = omega arith in
            let none' =
              no_page (drop k buf) (j - k)
                (l.2 (j - k) (omega arith) (omega (arith, length-drop k buf))) in
            no_completion buf j (rw (← e, ← page_granule-drop k buf (j - k)) none'),
      ),
    )
