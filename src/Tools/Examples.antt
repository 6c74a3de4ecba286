-- ===== src/Tools/Examples.antt =====
-- The poll tools on a concrete poll.
use whatsapp_mcp_docker.Base.{
  ◌+◌, ◌≤◌, String, ◌≡◌, refl, ◌↔◌, ◌⊎◌, true, false, some, List, [], ◌∷◌, map, str_eq, length, all,
}
use whatsapp_mcp_docker.Base.Texts.{trim_space, is_space, distinct, has}
use whatsapp_mcp_docker.Base.Keys.{string_eq}
use whatsapp_mcp_docker.Base.Sorting.{sort}
use whatsapp_mcp_docker.Cache.Table.{find, upsert}
use whatsapp_mcp_docker.Cache.Models.{Poll, PollVote, Db, empty_db}
use whatsapp_mcp_docker.Cache.Polls.{upsert_poll, upsert_poll_vote, get_poll, list_poll_votes}
use whatsapp_mcp_docker.Tools.Polls.{
  BallotResult, normalise_poll_options, max_poll_options, PollVoterView, PollResults, ResultsAnswer,
  get_poll_results,
}
use mathlib.Core.List.{Sublist}
use whatsapp_mcp_docker.Tools.Voting.{
  MatchResult, match_poll_options, choose, by_name, pick, VoteWorld, BuildOutcome, SendOutcome,
  mirror_own_vote, vote_poll,
}
use whatsapp_mcp_docker.Tools.Voting.Matching.{match_poll_options_lem}
use whatsapp_mcp_docker.Tools.Voting.Casting.{
  IsRefused, IsChoice, IsUnrecorded, IsCast, vote_poll_lem, vote_poll-sent,
}
use whatsapp_mcp_docker.Tools.Polls.Ballot.{is_named, normalise_poll_options_iff}
use whatsapp_mcp_docker.Tools.Polls.Tally.{
  votes_in, row_names, is_fair, selections, cast_votes, get_poll_results_lem,
}

abbrev lunch : Poll
lunch = record {
  chat_jid = "c";
  message_id = "P1";
  question = "Lunch?";
  options = record { name = "Noon"; hash = "" } ∷ record { name = "One"; hash = "" } ∷ [];
  selectable_count = 1;
  sender_jid = "me";
  is_from_me = true;
  timestamp = 57;
}

abbrev stored : Poll
stored = record lunch {
  options = record { name = "Noon"; hash = "Noon" } ∷ record { name = "One"; hash = "One" } ∷ [];
}

abbrev vote : PollVote
vote = record {
  chat_jid = "c";
  poll_message_id = "P1";
  voter_jid = "bob";
  selected_hashes = "One" ∷ "Two" ∷ [];
  timestamp = 60_000;
}

abbrev polls : Db
polls = (upsert_poll_vote vote (upsert_poll (λ name. name) 58 lunch empty_db).1).1

abbrev view : String → PollVoterView
view jid = record { jid = jid; name = "" }

normalise_poll_options_iff_example :
    (normalise_poll_options (" Noon " ∷ "One" ∷ []) ≡ BallotResult.ballot ("Noon" ∷ "One" ∷ [])) ↔ (
      (("Noon" ∷ "One" ∷ []) ≡ map trim_space (" Noon " ∷ "One" ∷ []))
      × (2 ≤ 2)
      × (2 ≤ max_poll_options)
      × (all is_named (map trim_space (" Noon " ∷ "One" ∷ [])) ≡ true)
      × (distinct (map trim_space (" Noon " ∷ "One" ∷ [])) ≡ true))
normalise_poll_options_iff_example =
    normalise_poll_options_iff (" Noon " ∷ "One" ∷ []) ("Noon" ∷ "One" ∷ [])

trimmed_chat : trim_space " c" ≡ "c"
unfolding trim_space is_space
trimmed_chat = refl

chat_given : str_eq (trim_space " c") "" ≡ false
unfolding trim_space is_space
chat_given = refl

message_given : str_eq (trim_space "P1") "" ≡ false
unfolding trim_space is_space
message_given = refl

poll_found : get_poll (trim_space " c") (trim_space "P1") polls ≡ some stored
unfolding trim_space is_space get_poll upsert_poll upsert_poll_vote find upsert sort
poll_found = refl

get_poll_results_lem_example :
    let votes = list_poll_votes (trim_space " c") (trim_space "P1") polls in
    (r : PollResults) × (get_poll_results view " c" "P1" polls ≡ some (ResultsAnswer.results r))
    × (row_names r.options ≡ "Noon" ∷ "One" ∷ [])
    × (votes_in r.options + r.unknown_option_votes ≡ selections votes)
    × (r.total_voters ≡ cast_votes votes)
    × (all is_fair r.options ≡ true)
get_poll_results_lem_example =
    get_poll_results_lem view " c" "P1" polls stored chat_given message_given poll_found

abbrev asked : List String
asked = " One" ∷ []

abbrev taken : List String
taken = "One" ∷ []

one_matches : match_poll_options stored asked ≡ MatchResult.selection taken
unfolding match_poll_options choose by_name pick trim_space is_space
one_matches = refl

match_poll_options_lem_example :
    (length taken ≡ length asked)
    × (all (λ name. has name (map trim_space asked)) taken ≡ true)
    × Sublist taken ("Noon" ∷ "One" ∷ [])
match_poll_options_lem_example = match_poll_options_lem stored asked taken one_matches

abbrev world : VoteWorld
world = record {
  parses = λ jid. true;
  build = BuildOutcome.built;
  send = SendOutcome.sent "V1" 70_000;
  own_jid = record { user = "me"; server = "s"; text = "me"; bare = "me"; is_nothing = false };
  hash_option = λ name. name;
  now = 71_000;
}

vote_poll_lem_example :
    IsRefused polls (vote_poll world " c" "P1" asked polls)
    ⊎ ((p : Poll) × (selected : List String) × IsChoice " c" "P1" asked polls p selected
        × (IsUnrecorded world p selected polls (vote_poll world " c" "P1" asked polls)
            ⊎ IsCast world p selected polls (vote_poll world " c" "P1" asked polls)))
vote_poll_lem_example = vote_poll_lem world " c" "P1" asked polls

vote_sent : (vote_poll world " c" "P1" asked polls).sent ≡ some taken
unfolding vote_poll mirror_own_vote match_poll_options choose by_name pick trim_space is_space
    get_poll upsert_poll upsert_poll_vote find upsert sort
vote_sent = refl

vote_poll-sent_example : (p : Poll) × IsChoice " c" "P1" asked polls p taken
vote_poll-sent_example = vote_poll-sent world " c" "P1" asked polls taken vote_sent
