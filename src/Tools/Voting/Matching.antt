-- ===== src/Tools/Voting/Matching.antt =====
-- internal/tools/polls.go: the selections that `matchPollOptions` accepts.
use whatsapp_mcp_docker.Base.{
  ℕ, zero, suc, ◌+◌, ◌≤◌, ◌<◌, String, ◌≡◌, refl, sym, ap, inl, inr, Bool, true, not, ◌&&◌, Option,
  none, some, List, [], ◌∷◌, ◌++◌, map, arith, eq_iff, ltb, leb, ◌==◌, str_eq, if◌then◌else◌,
  str_eq_refl, Bool-cases, Option-cases, length, all,
}
use mathlib.Core.List.Sublist
use mathlib.Core.List.{Sublist, nil-sublist, append_assoc}
use whatsapp_mcp_docker.Base.Texts.{trim_space, has}
use whatsapp_mcp_docker.Cache.Models.{Poll, PollOption}
use whatsapp_mcp_docker.Tools.Voting.{
  MatchResult, by_name, in_set, pick, choose, match_poll_options,
}

-- The places are distinct and on the ballot.
abbrev are_places : ℕ → List ℕ → Bool
are_places n [] = true
are_places n (i ∷ rest) = ltb i n && (not (in_set i rest) && are_places n rest)

-- How many of the places lie from `i` on.
abbrev from_on : ℕ → List ℕ → ℕ
from_on i [] = 0
from_on i (j ∷ rest) = (if leb i j then 1 else 0) + from_on i rest

by_name-le :
    (options : List PollOption) (name : String) (i : ℕ)
    → by_name options name ≡ some i
    → i < length options
unfolding by_name
by_name-le [] name i h = absurd (ground arith)
by_name-le (o ∷ rest) name i h = elim (Option-cases (by_name rest name)) [
  | inl e ↦ ground arith
  | inr (j, e) ↦ ground (arith, by_name-le rest name j e)
]

none_from : (i n : ℕ) (chosen : List ℕ) → are_places n chosen ≡ true → n ≤ i → from_on i chosen ≡ 0
none_from i n [] h le = refl
none_from i n (j ∷ rest) h le = ground (arith, none_from i n rest)

all_from : (chosen : List ℕ) → from_on 0 chosen ≡ length chosen
all_from [] = refl
all_from (j ∷ rest) = ground (arith, all_from rest)

-- A place is counted once.
from_on-in_set :
    (i n : ℕ) (chosen : List ℕ)
    → are_places n chosen ≡ true
    → from_on i chosen ≡ (if in_set i chosen then 1 else 0) + from_on (i + 1) chosen
from_on-in_set i n [] h = omega arith
from_on-in_set i n (j ∷ rest) h = ground (arith, from_on-in_set i n rest)

length-pick :
    (i n : ℕ) (chosen : List ℕ) (options : List PollOption)
    → are_places n chosen ≡ true
    → i + length options ≡ n
    → length (pick i chosen options) ≡ from_on i chosen
unfolding pick
length-pick i n chosen [] h e = ground (arith, none_from i n chosen h)
length-pick i n chosen (o ∷ rest) h e =
    ground (arith, length-pick (i + 1) n chosen rest h, from_on-in_set i n chosen h)

choose-length :
    (options : List PollOption) (chosen : List ℕ) (requested out : List String)
    → are_places (length options) chosen ≡ true
    → choose options chosen requested ≡ MatchResult.selection out
    → length out ≡ length chosen + length requested
unfolding choose
choose-length options chosen [] out h e =
    ground (arith, length-pick 0 (length options) chosen options h, all_from chosen)
choose-length options chosen (raw ∷ rest) out h e =
    elim (Option-cases (by_name options (trim_space raw))) [
      | inl d ↦ absurd (ground arith)
      | inr (i, d) ↦ elim (Bool-cases (in_set i chosen)) [
        | inl t ↦ absurd (ground arith)
        | inr t ↦
            let more : are_places (length options) (i ∷ chosen) ≡ true =
              ground (arith, by_name-le options (trim_space raw) i d) in
            omega (arith, choose-length options (i ∷ chosen) rest out more (ground arith))
      ]
    ]

abbrev name_at : ℕ → List PollOption → Option String
name_at i [] = none
name_at zero (o ∷ rest) = some o.name
name_at (suc i) (o ∷ rest) = name_at i rest

name_at-by_name :
    (options : List PollOption) (name : String) (i : ℕ)
    → by_name options name ≡ some i
    → name_at i options ≡ some name
unfolding by_name
name_at-by_name [] name i h = absurd (ground arith)
name_at-by_name (o ∷ rest) name i h = elim (Option-cases (by_name rest name)) [
  | inl e ↦ elim (Bool-cases (str_eq o.name name)) [
    | inl t ↦
        let same : i ≡ 0 = ground arith in
        let named : o.name ≡ name = (eq_iff o.name name).0 t in rw same (ap some named)
    | inr t ↦ absurd (ground arith)
  ]
  | inr (j, e) ↦ let same : i ≡ suc j = ground arith in rw same (name_at-by_name rest name j e)
]

pick-asked :
    (i : ℕ) (chosen : List ℕ) (options : List PollOption) (asked : List String)
    → ((j : ℕ) (name : String)
        → in_set (i + j) chosen ≡ true
        → name_at j options ≡ some name
        → has name asked ≡ true)
    → all (λ name. has name asked) (pick i chosen options) ≡ true
unfolding pick
pick-asked i chosen [] asked h = refl
pick-asked i chosen (o ∷ rest) asked h =
    let others =
      pick-asked (i + 1) chosen rest asked
        (λ j name m n. h (suc j) name (let e : i + suc j ≡ i + 1 + j = omega arith in rw e m) n) in
    elim (Bool-cases (in_set i chosen)) [
      | inl t ↦
          let here : has o.name asked ≡ true =
            h 0 o.name (let e : i + 0 ≡ i = omega arith in rw e t) refl in
          ground arith
      | inr t ↦ rw t others
    ]

choose-asked :
    (options : List PollOption) (chosen : List ℕ) (requested out asked : List String)
    → ((j : ℕ) (name : String)
        → in_set j chosen ≡ true
        → name_at j options ≡ some name
        → has name asked ≡ true)
    → all (λ raw. has (trim_space raw) asked) requested ≡ true
    → choose options chosen requested ≡ MatchResult.selection out
    → all (λ name. has name asked) out ≡ true
unfolding choose
choose-asked options chosen [] out asked h a e =
    let p =
      pick-asked 0 chosen options asked
        (λ j name m n. h j name (let z : 0 + j ≡ j = omega arith in rw (← z) m) n) in
    ground arith
choose-asked options chosen (raw ∷ rest) out asked h a e =
    elim (Option-cases (by_name options (trim_space raw))) [
      | inl d ↦ absurd (ground arith)
      | inr (i, d) ↦ elim (Bool-cases (in_set i chosen)) [
        | inl t ↦ absurd (ground arith)
        | inr t ↦
            choose-asked options (i ∷ chosen) rest out asked
              (λ j name m n. elim (Bool-cases (j == i)) [
                | inl s ↦
                    let same : j ≡ i = ground arith in
                    ground (arith, name_at-by_name options (trim_space raw) i d)
                | inr s ↦ h j name (ground arith) n
              ])
              (ground arith) (ground arith)
      ]
    ]

pick-Sublist :
    (i : ℕ) (chosen : List ℕ) (options : List PollOption)
    → Sublist (pick i chosen options) (map (λ o. o.name) options)
unfolding pick
pick-Sublist i chosen [] = nil-sublist []
pick-Sublist i chosen (o ∷ rest) = elim (Bool-cases (in_set i chosen)) [
  | inl t ↦ rw t (Sublist.cons-cons o.name (pick-Sublist (i + 1) chosen rest))
  | inr t ↦ rw t (Sublist.cons o.name (pick-Sublist (i + 1) chosen rest))
]

choose-Sublist :
    (options : List PollOption) (chosen : List ℕ) (requested out : List String)
    → choose options chosen requested ≡ MatchResult.selection out
    → Sublist out (map (λ o. o.name) options)
unfolding choose
choose-Sublist options chosen [] out e =
    let same : pick 0 chosen options ≡ out = ground arith in
    rw (← same) (pick-Sublist 0 chosen options)
choose-Sublist options chosen (raw ∷ rest) out e =
    elim (Option-cases (by_name options (trim_space raw))) [
      | inl d ↦ absurd (ground arith)
      | inr (i, d) ↦ elim (Bool-cases (in_set i chosen)) [
        | inl t ↦ absurd (ground arith)
        | inr t ↦ choose-Sublist options (i ∷ chosen) rest out (ground arith)
      ]
    ]

has-middle : (x : String) (ys zs : List String) → has x (ys ++ x ∷ zs) ≡ true
has-middle x [] zs = rw (str_eq_refl x) refl
has-middle x (y ∷ ys) zs = ground (arith, has-middle x ys zs)

all_asked :
    (xs ys : List String) → all (λ raw. has (trim_space raw) (ys ++ map trim_space xs)) xs ≡ true
all_asked [] ys = refl
all_asked (x ∷ xs) ys =
    let opt = trim_space x in
    let others : all (λ raw. has (trim_space raw) (ys ++ opt ∷ map trim_space xs)) xs ≡ true =
      rw (sym (append_assoc ys (opt ∷ []) (map trim_space xs))) (all_asked xs (ys ++ opt ∷ [])) in
    rw (has-middle opt ys (map trim_space xs)) others

-- A selection that is accepted has as many options as were requested, all of them requested (up to the
-- space around them), and they stand in the order of the ballot.
pub match_poll_options_lem :
    (p : Poll) (requested out : List String)
    → match_poll_options p requested ≡ MatchResult.selection out
    → (length out ≡ length requested)
      × (all (λ name. has name (map trim_space requested)) out ≡ true)
      × Sublist out (map (λ o. o.name) p.options)
unfolding match_poll_options
match_poll_options_lem p [] out h =
    let same : [] ≡ out = ground arith in rw (← same) (refl, refl, nil-sublist _)
match_poll_options_lem p (raw ∷ rest) out h = (
  omega (arith, choose-length p.options [] (raw ∷ rest) out refl h),
  choose-asked p.options [] (raw ∷ rest) out (map trim_space (raw ∷ rest))
      (λ j name m n. absurd (ground arith)) (all_asked (raw ∷ rest) []) h,
  choose-Sublist p.options [] (raw ∷ rest) out h,
)
