-- ===== src/Cache/Polls.antt =====
-- internal/cache/polls.go: the poll tables. The digest of an option's name is the WhatsApp library's, an
-- argument here.
pub mod Ballots
pub mod Votes
use whatsapp_mcp_docker.Base.{
  ℕ, ◌+◌, ◌*◌, ◌++◌, String, Bool, true, false, ◌&&◌, ◌||◌, Option, none, some, List, [], ◌∷◌, map,
  ltb, leb, ◌==◌, str_eq, if◌then◌else◌,
}
use Prim.Native.String.{compare}
use Prim.Native.Nat.{Ordering}
use whatsapp_mcp_docker.Base.Sorting.{sort}
use whatsapp_mcp_docker.Base.Keys.{Key2, Key3, key2_eq, key3_eq}
use whatsapp_mcp_docker.Cache.Table.{find, upsert}
use whatsapp_mcp_docker.Cache.Models.{Poll, PollOption, PollVote, PollRow, VoteRow, OptionRow, Db}
use whatsapp_mcp_docker.Cache.Store.{
  key_required, Write, is_empty, keep_if_empty, message_key, unix_seconds,
}

abbrev pub poll_row : ℕ → Poll → PollRow
poll_row now p = record {
  question = p.question;
  selectable_count = p.selectable_count;
  sender_jid = p.sender_jid;
  is_from_me = p.is_from_me;
  ts = p.timestamp;
  updated_at = now;
}

abbrev pub merge_poll : ℕ → Poll → PollRow → PollRow
merge_poll now p row = record (poll_row now p) {
  sender_jid = keep_if_empty p.sender_jid row.sender_jid;
}

-- An option as it is stored: its digest is filled in where the caller left it empty.
abbrev pub stored_option : (String → String) → PollOption → PollOption
stored_option hash_option o = record o {
  hash = if is_empty o.hash then hash_option o.name else o.hash;
}

-- DELETE FROM poll_options
abbrev pub without_options : Key2 → List OptionRow → List OptionRow
without_options k [] = []
without_options k (row ∷ rest) =
    let others = without_options k rest in if key2_eq.beq row.poll k then others else row ∷ others

abbrev pub option_row : Key2 → ℕ → PollOption → OptionRow
option_row k i o = record { poll = k; idx = i; name = o.name; hash = o.hash }

-- The loop of INSERT INTO poll_options, from the index on.
abbrev pub insert_options :
    (String → String) → Key2 → ℕ → List PollOption → List OptionRow → List OptionRow
insert_options hash_option k i [] rows = rows
insert_options hash_option k i (o ∷ rest) rows =
    insert_options hash_option k (i + 1) rest
      (rows ++ (option_row k i (stored_option hash_option o) ∷ []))

-- The transaction: the poll's row is written, its options are deleted, and the ballot is inserted.
unfoldable pub upsert_poll : (String → String) → ℕ → Poll → Write
upsert_poll hash_option now p db =
    let k = message_key p.chat_jid p.message_id in
    if is_empty p.chat_jid || is_empty p.message_id then (some key_required, db) else (
      none,
      record db {
        polls = upsert k (poll_row now p) (merge_poll now p) db.polls;
        poll_options = insert_options hash_option k 0 p.options (without_options k db.poll_options);
      },
    )

-- WHERE chat_jid = … AND message_id = …
abbrev pub rows_of : Key2 → List OptionRow → List OptionRow
rows_of k [] = []
rows_of k (row ∷ rest) =
    let others = rows_of k rest in if key2_eq.beq row.poll k then row ∷ others else others

abbrev pub option_of : OptionRow → PollOption
option_of row = record { name = row.name; hash = row.hash }

-- ORDER BY idx
abbrev pub idx_le : OptionRow → OptionRow → Bool
idx_le a b = leb a.idx b.idx

abbrev pub options_at : Key2 → List OptionRow → List PollOption
options_at k rows = map option_of (sort idx_le (rows_of k rows))

abbrev pub poll_of : String → String → List PollOption → Option PollRow → Option Poll
poll_of chat_jid message_id options none = none
poll_of chat_jid message_id options (some row) = some (record {
  chat_jid = chat_jid;
  message_id = message_id;
  question = row.question;
  options = options;
  selectable_count = row.selectable_count;
  sender_jid = row.sender_jid;
  is_from_me = row.is_from_me;
  timestamp = row.ts;
})

-- `none` is `sql.ErrNoRows`.
unfoldable pub get_poll : String → String → Db → Option Poll
get_poll chat_jid message_id db =
    let k = message_key chat_jid message_id in
    poll_of chat_jid message_id (options_at k db.poll_options) (find k db.polls)

abbrev pub vote_key : String → String → String → Key3
vote_key chat_jid poll_message_id voter_jid = record {
  first = chat_jid;
  second = poll_message_id;
  third = voter_jid;
}

abbrev pub vote_row : PollVote → VoteRow
vote_row v = record { selected_hashes = v.selected_hashes; ts = unix_seconds v.timestamp }

-- DO UPDATE … WHERE excluded.ts >= poll_votes.ts
abbrev pub newer_vote : PollVote → VoteRow → VoteRow
newer_vote v row = if leb row.ts (unix_seconds v.timestamp) then vote_row v else row

unfoldable pub upsert_poll_vote : PollVote → Write
upsert_poll_vote v db =
    if is_empty v.chat_jid || (is_empty v.poll_message_id || is_empty v.voter_jid)
    then (some key_required, db)
    else (
      none,
      record db {
        poll_votes =
            upsert (vote_key v.chat_jid v.poll_message_id v.voter_jid) (vote_row v) (newer_vote v)
              db.poll_votes;
      },
    )

-- The votes of one poll among the rows of the table.
unfoldable pub votes_of : String → String → List (Key3 × VoteRow) → List PollVote
votes_of chat_jid message_id [] = []
votes_of chat_jid message_id ((k, row) ∷ rest) =
    let others = votes_of chat_jid message_id rest in
    if str_eq k.first chat_jid && str_eq k.second message_id
    then record {
      chat_jid = chat_jid;
      poll_message_id = message_id;
      voter_jid = k.third;
      selected_hashes = row.selected_hashes;
      timestamp = row.ts * 1000;
    }
      ∷ others
    else others

abbrev str_le : String → String → Bool
str_le s t = elim (compare s t) [ Ordering.gt ↦ false | _ ↦ true ]

-- ORDER BY ts, voter_jid
abbrev pub vote_le : PollVote → PollVote → Bool
vote_le v w =
    if v.timestamp == w.timestamp
    then str_le v.voter_jid w.voter_jid
    else ltb v.timestamp w.timestamp

unfoldable pub list_poll_votes : String → String → Db → List PollVote
list_poll_votes chat_jid message_id db =
    sort vote_le (votes_of chat_jid message_id db.poll_votes.rows)
