-- ===== src/Tools/Voting.antt =====
-- internal/tools/polls.go: the handler of `vote_poll`. What the WhatsApp library answers is an argument.
pub mod Matching
pub mod Casting
use whatsapp_mcp_docker.Base.{
  ℕ, ◌+◌, String, Bool, true, false, not, ◌&&◌, ◌||◌, Option, none, some, List, [], ◌∷◌, map, ltb,
  ◌==◌, str_eq, if◌then◌else◌, length,
}
use whatsapp_mcp_docker.Base.Texts.{trim_space}
use whatsapp_mcp_docker.Cache.Models.{Poll, PollOption, PollVote, Db}
use whatsapp_mcp_docker.Cache.Store.{StoreError, is_empty}
use whatsapp_mcp_docker.Cache.Polls.{get_poll, upsert_poll_vote}
use whatsapp_mcp_docker.Cache.Ingest.State.{Jid}
use whatsapp_mcp_docker.Tools.Polls.{later_or}

-- The errors of `matchPollOptions`, or the selection.
pub data MatchResult : Type 0 where
  not_on_ballot twice : String → MatchResult
  selection : List String → MatchResult

-- The map of a ballot's names to their places: of two equal ones the later stands.
unfoldable pub by_name : List PollOption → String → Option ℕ
by_name [] name = none
by_name (o ∷ rest) name = later_or (by_name rest name) (str_eq o.name name)

abbrev pub in_set : ℕ → List ℕ → Bool
in_set i [] = false
in_set i (j ∷ rest) = (i == j) || in_set i rest

-- The last loop: the names of the places that were chosen, in the order of the ballot.
unfoldable pub pick : ℕ → List ℕ → List PollOption → List String
pick i chosen [] = []
pick i chosen (o ∷ rest) =
    let others = pick (i + 1) chosen rest in if in_set i chosen then o.name ∷ others else others

-- The loop over what is requested, `chosen` the places so far; then the last loop.
unfoldable pub choose : List PollOption → List ℕ → List String → MatchResult
choose options chosen [] = selection (pick 0 chosen options)
choose options chosen (raw ∷ rest) = elim (by_name options (trim_space raw)) [
  | none ↦ not_on_ballot (trim_space raw)
  | some i ↦
      let others = choose options (i ∷ chosen) rest in
      if in_set i chosen then twice (trim_space raw) else others
]

unfoldable pub match_poll_options : Poll → List String → MatchResult
match_poll_options p [] = selection []
match_poll_options p (raw ∷ rest) = choose p.options [] (raw ∷ rest)

-- What BuildPollVote and SendMessage answer.
pub data BuildOutcome : Type 0 where
  built not_logged_in secret_not_found failed : BuildOutcome

pub data SendOutcome : Type 0 where
  sent : String → ℕ → SendOutcome
  not_logged_in failed : SendOutcome

-- Times are in milliseconds.
pub record VoteWorld : Type 0 where
  pub parses : String → Bool  -- types.ParseJID has no error
  pub build : BuildOutcome
  pub send : SendOutcome
  pub own_jid : Jid
  pub hash_option : String → String
  pub now : ℕ

pub data VoteAnswer : Type 0 where
  chat_jid_required message_id_required not_found too_many no_secret not_connected internal :
      VoteAnswer
  bad_options : MatchResult → VoteAnswer
  voted : String → List String → VoteAnswer

-- The answer, the selection of the vote that was sent, if one was, and the database.
pub record Outcome : Type 0 where
  pub answer : VoteAnswer
  pub sent : Option (List String)
  pub db : Db

abbrev pub refused : VoteAnswer → Db → Outcome
refused a db = record { answer = a; sent = none; db = db }

-- The poll allows more or as many selections; 0 is no limit.
abbrev pub allows : Poll → List String → Bool
allows p selected = not (ltb 0 p.selectable_count && ltb p.selectable_count (length selected))

module _ (w : VoteWorld) where
  abbrev pub own_vote : Poll → List String → ℕ → PollVote
  own_vote p selected ts = record {
    chat_jid = p.chat_jid;
    poll_message_id = p.message_id;
    voter_jid = w.own_jid.bare;
    selected_hashes = map w.hash_option selected;
    timestamp = ts;
  }

  abbrev pub no_error : Option StoreError × Db → Bool × Db
  no_error (none, db) = (true, db)
  no_error (some err, db) = (false, db)

  -- The flag says that there was no error.
  unfoldable pub mirror_own_vote : Poll → List String → ℕ → Db → Bool × Db
  mirror_own_vote p selected ts db =
      if w.own_jid.is_nothing
      then (false, db)
      else no_error (upsert_poll_vote (own_vote p selected ts) db)

  abbrev pub after_mirror : String → List String → Bool × Db → Outcome
  after_mirror id selected (true, db) = record {
    answer = voted id selected;
    sent = some selected;
    db = db;
  }
  after_mirror id selected (false, db) = record { answer = internal; sent = some selected; db = db }

  abbrev pub after_send : Poll → List String → SendOutcome → Db → Outcome
  after_send p selected (SendOutcome.sent id ts) db =
      after_mirror id selected (mirror_own_vote p selected (if ts == 0 then w.now else ts) db)
  after_send p selected SendOutcome.not_logged_in db = refused not_connected db
  after_send p selected SendOutcome.failed db = refused internal db

  abbrev pub after_build : Poll → List String → BuildOutcome → Db → Outcome
  after_build p selected BuildOutcome.built db =
      if w.parses p.chat_jid then after_send p selected w.send db else refused internal db
  after_build p selected BuildOutcome.not_logged_in db = refused not_connected db
  after_build p selected BuildOutcome.secret_not_found db = refused no_secret db
  after_build p selected BuildOutcome.failed db = refused internal db

  -- `pollMessageInfo` has no error.
  abbrev pub has_info : Poll → Bool
  has_info p = w.parses p.chat_jid && (is_empty p.sender_jid || w.parses p.sender_jid)

  abbrev pub after_match : Poll → MatchResult → Db → Outcome
  after_match p (selection selected) db =
      if not (allows p selected)
      then refused too_many db
      else if not (has_info p)
      then refused internal db
      else after_build p selected w.build db
  after_match p r db = refused (bad_options r) db

  abbrev pub after_poll : Option Poll → List String → Db → Outcome
  after_poll none options db = refused not_found db
  after_poll (some p) options db = after_match p (match_poll_options p options) db

  -- The handler, once its arguments are decoded.
  unfoldable pub vote_poll : String → String → List String → Db → Outcome
  vote_poll chat_arg message_arg options db =
      let chat_jid = trim_space chat_arg in
      let message_id = trim_space message_arg in
      if is_empty chat_jid
      then refused chat_jid_required db
      else if is_empty message_id
      then refused message_id_required db
      else after_poll (get_poll chat_jid message_id db) options db
