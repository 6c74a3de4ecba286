-- ===== src/Tools/Polls/Tally.antt =====
-- internal/tools/polls.go: the counts of the tally.
use whatsapp_mcp_docker.Base.{
  ℕ, zero, suc, ◌+◌, ◌<◌, String, ◌≡◌, refl, ap, ◌∙◌, inl, inr, Bool, true, false, Option, none,
  some, List, [], ◌∷◌, map, arith, ◌==◌, Option-cases, length, all, length-append,
}
use whatsapp_mcp_docker.Base.Texts.{trim_space}
use whatsapp_mcp_docker.Cache.Models.{Poll, PollOption, PollVote, Db}
use whatsapp_mcp_docker.Cache.Store.{is_empty}
use whatsapp_mcp_docker.Cache.Polls.{get_poll, list_poll_votes}
use whatsapp_mcp_docker.Tools.Polls.{
  PollVoterView, PollOptionResult, PollResults, ResultsAnswer, by_hash, counted, add_vote, count_at,
  count_hashes, count_vote, count_votes, fresh_option, fresh_results, tally, get_poll_results,
}

-- The votes that the rows count, in all.
abbrev pub votes_in : List PollOptionResult → ℕ
votes_in [] = 0
votes_in (o ∷ rest) = o.votes + votes_in rest

-- The names of the rows.
abbrev pub row_names : List PollOptionResult → List String
row_names = map (λ o. o.option)

abbrev pub is_fair : PollOptionResult → Bool
is_fair o = o.votes == length o.voters

-- What a part of the count does: `n` selections more are counted, `w` voters more.
pub record Counts (r r' : PollResults) (n w : ℕ) : Type 0 where
  pub counted_all :
      votes_in r'.options + r'.unknown_option_votes
      ≡ votes_in r.options + r.unknown_option_votes + n
  pub voters_more : r'.total_voters ≡ r.total_voters + w
  pub same_names : row_names r'.options ≡ row_names r.options
  pub fair : all is_fair r.options ≡ true → all is_fair r'.options ≡ true

Counts-trans :
    (a b c : PollResults) (n m k v w u : ℕ)
    → n + m ≡ k
    → v + w ≡ u
    → Counts a b n v
    → Counts b c m w
    → Counts a c k u
Counts-trans a b c n m k v w u s t p q = record {
  counted_all = omega (arith, p.counted_all, q.counted_all);
  voters_more = omega (arith, p.voters_more, q.voters_more);
  same_names = q.same_names ∙ p.same_names;
  fair = λ h. q.fair (p.fair h);
}

by_hash-le :
    (options : List PollOption) (hash : String) (i : ℕ)
    → by_hash options hash ≡ some i
    → i < length options
unfolding by_hash
by_hash-le [] hash i h = absurd (ground arith)
by_hash-le (o ∷ rest) hash i h = elim (Option-cases (by_hash rest hash)) [
  | inl e ↦ ground arith
  | inr (j, e) ↦ ground (arith, by_hash-le rest hash j e)
]

add_vote_lem :
    (i : ℕ) (voter : PollVoterView) (os : List PollOptionResult)
    → i < length os
    → (os' : List PollOptionResult) × (add_vote i voter os ≡ some os')
      × (votes_in os' ≡ votes_in os + 1)
      × (row_names os' ≡ row_names os)
      × (all is_fair os ≡ true → all is_fair os' ≡ true)
unfolding add_vote
add_vote_lem i voter [] h = absurd (omega arith)
add_vote_lem zero voter (o ∷ rest) h = (
  counted voter o ∷ rest,
  refl,
  omega arith,
  refl,
  λ f. ground (arith, length-append o.voters (voter ∷ [])),
)
add_vote_lem (suc i) voter (o ∷ rest) h =
    let (rest', e, s, n, f) = add_vote_lem i voter rest (omega arith) in
    (o ∷ rest', rw e refl, omega (arith, s), ap (◌∷◌ o.option) n, λ g. ground (arith, f))

count_at_lem :
    (o : Option ℕ) (voter : PollVoterView) (r : PollResults)
    → ((i : ℕ) → o ≡ some i → i < length r.options)
    → (r' : PollResults) × (count_at o voter r ≡ some r') × Counts r r' 1 0
count_at_lem none voter r h = (
  record r { unknown_option_votes = r.unknown_option_votes + 1 },
  refl,
  record { counted_all = omega arith; voters_more = omega arith; same_names = refl; fair = λ f. f },
)
count_at_lem (some i) voter r h =
    let (os', e, s, n, f) = add_vote_lem i voter r.options (h i refl) in
    (
      record r { options = os' },
      rw e refl,
      record {
        counted_all = omega (arith, s);
        voters_more = omega arith;
        same_names = n;
        fair = f;
      },
    )

-- The rows are those of the ballot.
abbrev FitsBallot : List PollOption → PollResults → Type 0
FitsBallot options r = row_names r.options ≡ map (λ o. o.name) options

length-map {ℓ κ} :
    {A : Type ℓ} {B : Type κ} (f : A → B) (xs : List A) → length (map f xs) ≡ length xs
length-map f [] = refl
length-map f (x ∷ xs) = ap suc (length-map f xs)

in_rows :
    (options : List PollOption) (hash : String) (r : PollResults)
    → FitsBallot options r
    → (i : ℕ) → by_hash options hash ≡ some i
    → i < length r.options
in_rows options hash r fits i h =
    let same : length (row_names r.options) ≡ length (map (λ o. o.name) options) = ap length fits in
    omega (
      arith,
      by_hash-le options hash i h,
      same,
      length-map (λ (o : PollOptionResult). o.option) r.options,
      length-map (λ (o : PollOption). o.name) options,
    )

count_hashes_lem :
    (options : List PollOption) (voter : PollVoterView) (hashes : List String) (r : PollResults)
    → FitsBallot options r
    → (r' : PollResults) × (count_hashes options voter hashes r ≡ some r')
      × Counts r r' (length hashes) 0
unfolding count_hashes
count_hashes_lem options voter [] r fits = (
  r,
  refl,
  record { counted_all = omega arith; voters_more = omega arith; same_names = refl; fair = λ f. f },
)
count_hashes_lem options voter (hash ∷ rest) r fits =
    let (m, e, c) = count_at_lem (by_hash options hash) voter r (in_rows options hash r fits) in
    let (r', e', c') = count_hashes_lem options voter rest m (c.same_names ∙ fits) in
    (
      r',
      rw (e, count_hashes) e',
      Counts-trans r m r' 1 (length rest) _ 0 0 0 (omega arith) (omega arith) c c',
    )

abbrev pub is_cast : List String → Bool
is_cast [] = false
is_cast (hash ∷ rest) = true

abbrev pub one_if : Bool → ℕ
one_if true = 1
one_if false = 0

count_vote_lem :
    (options : List PollOption) (voter : PollVoterView) (hashes : List String) (r : PollResults)
    → FitsBallot options r
    → (r' : PollResults) × (count_vote options voter hashes r ≡ some r')
      × Counts r r' (length hashes) (one_if (is_cast hashes))
count_vote_lem options voter [] r fits = (
  r,
  refl,
  record { counted_all = omega arith; voters_more = omega arith; same_names = refl; fair = λ f. f },
)
count_vote_lem options voter (hash ∷ rest) r fits =
    let (r', e, c) =
      count_hashes_lem options voter (hash ∷ rest) (record r { total_voters = r.total_voters + 1 })
        fits in
    (
      r',
      e,
      record {
        counted_all = c.counted_all;
        voters_more = omega (arith, c.voters_more);
        same_names = c.same_names;
        fair = c.fair;
      },
    )

-- The selections of the votes, and the votes that were not withdrawn.
abbrev pub selections : List PollVote → ℕ
selections [] = 0
selections (vote ∷ rest) = length vote.selected_hashes + selections rest

abbrev pub cast_votes : List PollVote → ℕ
cast_votes [] = 0
cast_votes (vote ∷ rest) = one_if (is_cast vote.selected_hashes) + cast_votes rest

count_votes_lem :
    (voter_view : String → PollVoterView) (options : List PollOption) (votes : List PollVote)
    (r : PollResults)
    → FitsBallot options r
    → (r' : PollResults) × (count_votes voter_view options votes r ≡ some r')
      × Counts r r' (selections votes) (cast_votes votes)
unfolding count_votes
count_votes_lem voter_view options [] r fits = (
  r,
  refl,
  record { counted_all = omega arith; voters_more = omega arith; same_names = refl; fair = λ f. f },
)
count_votes_lem voter_view options (vote ∷ rest) r fits =
    let (m, e, c) =
      count_vote_lem options (voter_view vote.voter_jid) vote.selected_hashes r fits in
    let (r', e', c') = count_votes_lem voter_view options rest m (c.same_names ∙ fits) in
    (r', rw (e, count_votes) e', Counts-trans r m r' _ _ _ _ _ _ refl refl c c')

fresh_names :
    (voter_view : String → PollVoterView) (os : List PollOption)
    → row_names (map (fresh_option voter_view) os) ≡ map (λ o. o.name) os
fresh_names voter_view [] = refl
fresh_names voter_view (o ∷ os) = ap (◌∷◌ o.name) (fresh_names voter_view os)

fresh_zero :
    (voter_view : String → PollVoterView) (os : List PollOption)
    → (votes_in (map (fresh_option voter_view) os) ≡ 0)
      × (all is_fair (map (fresh_option voter_view) os) ≡ true)
fresh_zero voter_view [] = (refl, refl)
fresh_zero voter_view (o ∷ os) =
    let (zero_votes, all_fair) = fresh_zero voter_view os in (omega (arith, zero_votes), all_fair)

-- For a stored poll the tool answers with a tally, and never with a panic: one row for each option of
-- the ballot in its order, each with as many voters as votes, and all selections of the stored votes
-- counted, each once, on a row or as unknown; its voters are the votes that were not withdrawn.
pub get_poll_results_lem :
    (voter_view : String → PollVoterView) (chat_arg message_arg : String) (db : Db) (p : Poll)
    → is_empty (trim_space chat_arg) ≡ false
    → is_empty (trim_space message_arg) ≡ false
    → get_poll (trim_space chat_arg) (trim_space message_arg) db ≡ some p
    → let votes = list_poll_votes (trim_space chat_arg) (trim_space message_arg) db in
      (r : PollResults) × (get_poll_results voter_view chat_arg message_arg db
        ≡ some (ResultsAnswer.results r))
      × (row_names r.options ≡ map (λ o. o.name) p.options)
      × (votes_in r.options + r.unknown_option_votes ≡ selections votes)
      × (r.total_voters ≡ cast_votes votes)
      × (all is_fair r.options ≡ true)
unfolding get_poll_results tally
get_poll_results_lem voter_view chat_arg message_arg db p hc hm hp =
    let votes = list_poll_votes (trim_space chat_arg) (trim_space message_arg) db in
    let (zero_votes, all_fair) = fresh_zero voter_view p.options in
    let (r, e, c) =
      count_votes_lem voter_view p.options votes (fresh_results voter_view p)
        (fresh_names voter_view p.options) in
    (
      r,
      rw hc (rw hm (rw hp (rw e refl))),
      c.same_names ∙ fresh_names voter_view p.options,
      omega (arith, c.counted_all, zero_votes),
      omega (arith, c.voters_more),
      c.fair all_fair,
    )
