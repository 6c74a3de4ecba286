-- ===== src/Tools/Polls.antt =====
-- internal/tools/polls.go: the ballot of a new poll, and the tally of `get_poll_results`. How a voter is
-- shown is an argument; an index out of range, a panic of Go, is `none`.
pub mod Ballot
pub mod Tally
use whatsapp_mcp_docker.Base.{
  ℕ, zero, suc, ◌+◌, String, Bool, true, false, Option, none, some, List, [], ◌∷◌, ◌++◌, map, ltb,
  str_eq, if◌then◌else◌, length,
}
use whatsapp_mcp_docker.Base.Texts.{trim_space, has}
use whatsapp_mcp_docker.Cache.Models.{Poll, PollOption, PollVote, Db}
use whatsapp_mcp_docker.Cache.Store.{is_empty}
use whatsapp_mcp_docker.Cache.Polls.{get_poll, list_poll_votes}

abbrev pub max_poll_options : ℕ
max_poll_options = 12

-- The errors of `normalisePollOptions` with what they report, or the ballot.
pub data BallotResult : Type 0 where
  too_few too_many empty_option : ℕ → BallotResult
  twice : String → BallotResult
  ballot : List String → BallotResult

-- The loop: `out` is both the set of the options seen and the list of them.
unfoldable pub normalise_from : ℕ → List String → List String → BallotResult
normalise_from i out [] = ballot out
normalise_from i out (raw ∷ rest) =
    let opt = trim_space raw in
    let others = normalise_from (i + 1) (out ++ opt ∷ []) rest in
    if is_empty opt then empty_option (i + 1) else if has opt out then twice opt else others

unfoldable pub normalise_poll_options : List String → BallotResult
normalise_poll_options raws =
    if ltb (length raws) 2
    then too_few (length raws)
    else if ltb max_poll_options (length raws)
    then too_many (length raws)
    else normalise_from 0 [] raws

pub record PollVoterView : Type 0 where
  pub jid : String
  pub name : String

pub record PollOptionResult : Type 0 where
  pub option : String
  pub votes : ℕ
  pub voters : List PollVoterView

pub record PollResults : Type 0 where
  pub chat_jid : String
  pub message_id : String
  pub question : String
  pub selectable_count : ℕ
  pub created_by : PollVoterView
  pub is_from_me : Bool
  pub options : List PollOptionResult
  pub total_voters : ℕ
  pub unknown_option_votes : ℕ

abbrev pub or_zero : Bool → Option ℕ
or_zero true = some 0
or_zero false = none

abbrev pub later_or : Option ℕ → Bool → Option ℕ
later_or (some i) here = some (i + 1)
later_or none here = or_zero here

-- The map of a ballot's digests to their places: of two equal ones the later stands.
unfoldable pub by_hash : List PollOption → String → Option ℕ
by_hash [] hash = none
by_hash (o ∷ rest) hash = later_or (by_hash rest hash) (str_eq o.hash hash)

abbrev pub counted : PollVoterView → PollOptionResult → PollOptionResult
counted voter o = record o { votes = o.votes + 1; voters = o.voters ++ voter ∷ [] }

abbrev pub cons_option :
    PollOptionResult → Option (List PollOptionResult) → Option (List PollOptionResult)
cons_option o none = none
cons_option o (some rest) = some (o ∷ rest)

unfoldable pub add_vote : ℕ → PollVoterView → List PollOptionResult → Option (List PollOptionResult)
add_vote i voter [] = none
add_vote zero voter (o ∷ rest) = some (counted voter o ∷ rest)
add_vote (suc i) voter (o ∷ rest) = cons_option o (add_vote i voter rest)

abbrev pub with_options : PollResults → Option (List PollOptionResult) → Option PollResults
with_options r none = none
with_options r (some options) = some (record r { options = options })

abbrev pub count_at : Option ℕ → PollVoterView → PollResults → Option PollResults
count_at none voter r = some (record r { unknown_option_votes = r.unknown_option_votes + 1 })
count_at (some i) voter r = with_options r (add_vote i voter r.options)

-- The loop over one vote's selections.
unfoldable pub count_hashes :
    List PollOption → PollVoterView → List String → PollResults → Option PollResults
count_hashes options voter [] r = some r
count_hashes options voter (hash ∷ rest) r = elim (count_at (by_hash options hash) voter r) [
  | none ↦ none
  | some r' ↦ count_hashes options voter rest r'
]

-- A withdrawn vote counts nowhere.
abbrev pub count_vote :
    List PollOption → PollVoterView → List String → PollResults → Option PollResults
count_vote options voter [] r = some r
count_vote options voter (hash ∷ rest) r =
    count_hashes options voter (hash ∷ rest) (record r { total_voters = r.total_voters + 1 })

pub data ResultsAnswer : Type 0 where
  chat_jid_required message_id_required not_found : ResultsAnswer
  results : PollResults → ResultsAnswer

abbrev pub answered : Option PollResults → Option ResultsAnswer
answered none = none
answered (some r) = some (ResultsAnswer.results r)

module _ (voter_view : String → PollVoterView) where
  unfoldable pub count_votes : List PollOption → List PollVote → PollResults → Option PollResults
  count_votes options [] r = some r
  count_votes options (vote ∷ rest) r =
      elim (count_vote options (voter_view vote.voter_jid) vote.selected_hashes r) [
        | none ↦ none
        | some r' ↦ count_votes options rest r'
      ]

  abbrev pub fresh_option : PollOption → PollOptionResult
  fresh_option o = record { option = o.name; votes = 0; voters = [] }

  abbrev pub fresh_results : Poll → PollResults
  fresh_results p = record {
    chat_jid = p.chat_jid;
    message_id = p.message_id;
    question = p.question;
    selectable_count = p.selectable_count;
    created_by = voter_view p.sender_jid;
    is_from_me = p.is_from_me;
    options = map fresh_option p.options;
    total_voters = 0;
    unknown_option_votes = 0;
  }

  unfoldable pub tally : Poll → List PollVote → Option PollResults
  tally p votes = count_votes p.options votes (fresh_results p)

  abbrev pub results_of : Option Poll → List PollVote → Option ResultsAnswer
  results_of none votes = some ResultsAnswer.not_found
  results_of (some p) votes = answered (tally p votes)

  -- The handler of `get_poll_results`, once its arguments are decoded.
  unfoldable pub get_poll_results : String → String → Db → Option ResultsAnswer
  get_poll_results chat_arg message_arg db =
      let chat_jid = trim_space chat_arg in
      let message_id = trim_space message_arg in
      if is_empty chat_jid
      then some ResultsAnswer.chat_jid_required
      else if is_empty message_id
      then some ResultsAnswer.message_id_required
      else results_of (get_poll chat_jid message_id db) (list_poll_votes chat_jid message_id db)
