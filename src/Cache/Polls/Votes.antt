-- ===== src/Cache/Polls/Votes.antt =====
-- internal/cache/polls.go: the rows of the votes.
use whatsapp_mcp_docker.Base.{◌≡◌, false, Option}
use whatsapp_mcp_docker.Base.Keys.{Key3, key3_eq}
use whatsapp_mcp_docker.Cache.Table.{find}
use whatsapp_mcp_docker.Cache.Models.{PollVote, VoteRow, Db}
use whatsapp_mcp_docker.Cache.Store.{is_empty}
use whatsapp_mcp_docker.Cache.Polls.{vote_key}

abbrev pub IsVote : PollVote → Type 0
IsVote v =
    (is_empty v.chat_jid ≡ false)
    × (is_empty v.poll_message_id ≡ false)
    × (is_empty v.voter_jid ≡ false)

abbrev pub vote_at : Key3 → Db → Option VoteRow
vote_at k db = find k db.poll_votes

abbrev pub key_of : PollVote → Key3
key_of v = vote_key v.chat_jid v.poll_message_id v.voter_jid
