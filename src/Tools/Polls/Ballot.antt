-- ===== src/Tools/Polls/Ballot.antt =====
-- internal/tools/polls.go: the ballots that `normalisePollOptions` accepts.
use whatsapp_mcp_docker.Base.{
  ℕ, ◌+◌, ◌≤◌, String, ◌≡◌, refl, sym, ap, ◌∙◌, ◌↔◌, inl, inr, Bool, true, false, not, ◌&&◌, ◌||◌,
  List, [], ◌∷◌, ◌++◌, map, arith, eq_iff, ltb, str_eq, Bool-cases, length, all,
}
use mathlib.Core.List.{append-nil, append_assoc}
use whatsapp_mcp_docker.Base.Texts.{trim_space, has, distinct}
use whatsapp_mcp_docker.Cache.Store.{is_empty}
use whatsapp_mcp_docker.Tools.Polls.{
  BallotResult, normalise_from, normalise_poll_options, max_poll_options,
}

abbrev pub is_named : String → Bool
is_named s = not (is_empty s)

-- The options are named, new and distinct.
abbrev pub fresh_for : List String → List String → Bool
fresh_for out [] = true
fresh_for out (x ∷ xs) = is_named x && not (has x out) && fresh_for (out ++ x ∷ []) xs

ballot-inj : (xs ys : List String) → BallotResult.ballot xs ≡ BallotResult.ballot ys → xs ≡ ys
ballot-inj xs ys h = ground arith

-- A loop that gives a ballot gives every option, in order, and each was new when it came.
normalise_from-fresh_for :
    (i : ℕ) (out raws result : List String)
    → normalise_from i out raws ≡ BallotResult.ballot result
    → (result ≡ out ++ map trim_space raws) × (fresh_for out (map trim_space raws) ≡ true)
unfolding normalise_from
normalise_from-fresh_for i out [] result h =
    (sym (ballot-inj out result h) ∙ sym (append-nil out), refl)
normalise_from-fresh_for i out (raw ∷ rest) result h =
    let opt = trim_space raw in
    elim (Bool-cases (is_empty opt)) [
      | inl e ↦ absurd (ground arith)
      | inr e ↦ elim (Bool-cases (has opt out)) [
        | inl d ↦ absurd (ground arith)
        | inr d ↦
            let (r, f) =
              normalise_from-fresh_for (i + 1) (out ++ opt ∷ []) rest result (ground arith) in
            (r ∙ append_assoc out (opt ∷ []) (map trim_space rest), ground arith)
      ]
    ]

normalise_from-ballot :
    (i : ℕ) (out raws : List String)
    → fresh_for out (map trim_space raws) ≡ true
    → normalise_from i out raws ≡ BallotResult.ballot (out ++ map trim_space raws)
unfolding normalise_from
normalise_from-ballot i out [] h = ap BallotResult.ballot (sym (append-nil out))
normalise_from-ballot i out (raw ∷ rest) h =
    let opt = trim_space raw in
    let e : is_empty opt ≡ false = ground arith in
    let d : has opt out ≡ false = ground arith in
    rw e (
      rw d (
        normalise_from-ballot (i + 1) (out ++ opt ∷ []) rest (ground arith)
        ∙ ap BallotResult.ballot (append_assoc out (opt ∷ []) (map trim_space rest))))

has-append : (y x : String) (out : List String) → has y (out ++ x ∷ []) ≡ (has y out || str_eq x y)
has-append y x [] = ground arith
has-append y x (z ∷ out) = ground (arith, has-append y x out)

all_new :
    (out : List String) (x : String) (xs : List String)
    → all (λ y. not (has y (out ++ x ∷ []))) xs ≡ (all (λ y. not (has y out)) xs && not (has x xs))
all_new out x [] = refl
all_new out x (y ∷ xs) =
    ground (arith, all_new out x xs, has-append y x out, eq_iff x y, eq_iff y x)

fresh_for_lem :
    (out xs : List String)
    → fresh_for out xs ≡ (all is_named xs && (all (λ y. not (has y out)) xs && distinct xs))
fresh_for_lem out [] = refl
fresh_for_lem out (x ∷ xs) = ground (arith, fresh_for_lem (out ++ x ∷ []) xs, all_new out x xs)

all_unseen : (xs : List String) → all (λ y. not (has y [])) xs ≡ true
all_unseen [] = refl
all_unseen (x ∷ xs) = all_unseen xs

-- A proposed ballot is accepted exactly when it has 2 to 12 options which, once the space around them
-- is taken away, are not empty and distinct; the ballot is then these options in their order.
pub normalise_poll_options_iff :
    (raws result : List String)
    → (normalise_poll_options raws ≡ BallotResult.ballot result) ↔ (
        (result ≡ map trim_space raws)
        × (2 ≤ length raws)
        × (length raws ≤ max_poll_options)
        × (all is_named (map trim_space raws) ≡ true)
        × (distinct (map trim_space raws) ≡ true))
unfolding normalise_poll_options
normalise_poll_options_iff raws result = (
  (λ h. elim (Bool-cases (ltb (length raws) 2)) [
    | inl e ↦ absurd (ground arith)
    | inr e ↦ elim (Bool-cases (ltb max_poll_options (length raws))) [
      | inl d ↦ absurd (ground arith)
      | inr d ↦
          let (r, f) = normalise_from-fresh_for 0 [] raws result (ground arith) in
          let g = fresh_for_lem [] (map trim_space raws) in
          (r, ground arith, ground arith, ground arith, ground arith)
    ]
  ]),
  λ (r, lo, hi, named, apart).
      let e : ltb (length raws) 2 ≡ false = ground arith in
      let d : ltb max_poll_options (length raws) ≡ false = ground arith in
      let f : fresh_for [] (map trim_space raws) ≡ true =
        ground (arith, fresh_for_lem [] (map trim_space raws), all_unseen (map trim_space raws)) in
      rw e (rw d (normalise_from-ballot 0 [] raws f ∙ ap BallotResult.ballot (sym r))),
)
