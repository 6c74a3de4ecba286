-- ===== src/Cache/Ingest/History.antt =====
-- internal/cache/handler.go, `handleHistorySync`: the conversations, messages and reactions of a history sync.
use whatsapp_mcp_docker.Base.{
  ℕ, max, String, not, Option, none, some, List, [], ◌∷◌, str_eq, if◌then◌else◌,
}
use whatsapp_mcp_docker.Cache.Models.{Chat, bare_chat, Message, Reaction}
use whatsapp_mcp_docker.Cache.Store.{is_empty, upsert_chat, insert_message}
use whatsapp_mcp_docker.Cache.Envelope.{Envelope, MessageKey, Origin, build_message_row}
use whatsapp_mcp_docker.Cache.Ingest.State.{Jid, Library, Ingestor, write}
use whatsapp_mcp_docker.Cache.Ingest.Messages.{persist_reaction, persist_poll_creation, sender_time}

pub record HistoryReaction : Type 0 where
  pub key : Option MessageKey
  pub text : String
  pub sender_timestamp_ms : ℕ

pub record WebMessage : Type 0 where
  pub message_timestamp : ℕ
  pub key : Option MessageKey
  pub envelope : Option Envelope
  pub push_name : String
  pub reactions : List (Option HistoryReaction)

-- The messages are those whose wrapper and message are both set.
pub record Conversation : Type 0 where
  pub id : String
  pub messages : List WebMessage
  pub name : String
  pub display_name : String
  pub unread_count : ℕ

module _ (lib : Library) (now : ℕ) where
  abbrev pub parsed_or : String → Option Jid → String
  parsed_or part none = part
  parsed_or part (some jid) = jid.bare

  abbrev pub participant_jid : String → String
  participant_jid part = parsed_or part (lib.parse_jid part)

  -- The author of a message of the history.
  abbrev pub author_of : String → MessageKey → String
  author_of chat_jid key =
      if key.from_me
      then chat_jid
      else if is_empty key.participant
      then chat_jid
      else participant_jid key.participant

  -- The author of a reaction of the history.
  abbrev pub reactor_of : String → MessageKey → String
  reactor_of chat_jid key =
      if not (is_empty key.participant)
      then participant_jid key.participant
      else if key.from_me
      then ""
      else chat_jid

  abbrev pub history_reaction : String → String → ℕ → HistoryReaction → MessageKey → Reaction
  history_reaction chat_jid target_id fallback_ts react key = record {
    chat_jid = chat_jid;
    target_id = target_id;
    sender_jid = reactor_of chat_jid key;
    emoji = react.text;
    timestamp = sender_time react.sender_timestamp_ms fallback_ts;
    is_from_me = key.from_me;
  }

  abbrev pub ingest_keyed :
      String → String → ℕ → HistoryReaction → Option MessageKey → Ingestor → Ingestor
  ingest_keyed chat_jid target_id fallback_ts react none i = i
  ingest_keyed chat_jid target_id fallback_ts react (some key) i =
      persist_reaction (history_reaction chat_jid target_id fallback_ts react key) i

  unfoldable pub ingest_history_reactions :
      String → String → ℕ → List (Option HistoryReaction) → Ingestor → Ingestor
  ingest_history_reactions chat_jid target_id fallback_ts [] i = i
  ingest_history_reactions chat_jid target_id fallback_ts (none ∷ rest) i =
      ingest_history_reactions chat_jid target_id fallback_ts rest i
  ingest_history_reactions chat_jid target_id fallback_ts (some react ∷ rest) i =
      ingest_history_reactions chat_jid target_id fallback_ts rest
        (ingest_keyed chat_jid target_id fallback_ts react react.key i)

  abbrev pub insert_row : Option Message → Ingestor → Ingestor
  insert_row none i = i
  insert_row (some m) i = write (insert_message m) i

  abbrev pub web_origin : String → WebMessage → MessageKey → Origin
  web_origin chat_jid web key = record {
    chat_jid = chat_jid;
    sender_jid = author_of chat_jid key;
    id = key.id;
    push_name = web.push_name;
    ts = web.message_timestamp;
    is_from_me = key.from_me;
  }

  abbrev pub ingest_web :
      String → WebMessage → Option MessageKey → Option Envelope → Ingestor → Ingestor
  ingest_web chat_jid web none e i = i
  ingest_web chat_jid web (some key) none i = i
  ingest_web chat_jid web (some key) (some e) i =
      if is_empty key.id
      then i
      else let o = web_origin chat_jid web key in
        ingest_history_reactions chat_jid key.id web.message_timestamp web.reactions
          (persist_poll_creation lib now o e (insert_row (build_message_row o e) i))

  unfoldable pub ingest_messages : String → List WebMessage → Ingestor → Ingestor
  ingest_messages chat_jid [] i = i
  ingest_messages chat_jid (web ∷ rest) i =
      ingest_messages chat_jid rest (ingest_web chat_jid web web.key web.envelope i)

  -- The latest time of a conversation's messages, those with no key or content included.
  unfoldable pub latest_ts : List WebMessage → ℕ
  latest_ts [] = 0
  latest_ts (web ∷ rest) = max web.message_timestamp (latest_ts rest)

  abbrev pub conversation_chat : Jid → Conversation → Chat
  conversation_chat jid conv = record (bare_chat jid.text) {
    is_group = str_eq jid.server lib.group_server;
    last_message_ts = latest_ts conv.messages;
    name = if is_empty conv.name then conv.display_name else conv.name;
    unread_count = conv.unread_count;
  }

  abbrev pub ingest_parsed : Conversation → Option Jid → Ingestor → Ingestor
  ingest_parsed conv none i = i
  ingest_parsed conv (some jid) i =
      write (upsert_chat now (conversation_chat jid conv))
        (ingest_messages jid.text conv.messages i)

  abbrev pub ingest_conversation : Option Conversation → Ingestor → Ingestor
  ingest_conversation none i = i
  ingest_conversation (some conv) i =
      if is_empty conv.id then i else ingest_parsed conv (lib.parse_jid conv.id) i

  abbrev pub ingest_conversations : List (Option Conversation) → Ingestor → Ingestor
  ingest_conversations [] i = i
  ingest_conversations (conv ∷ rest) i = ingest_conversations rest (ingest_conversation conv i)

  -- `none` is an event with no data.
  unfoldable pub handle_history_sync : Option (List (Option Conversation)) → Ingestor → Ingestor
  handle_history_sync none i = i
  handle_history_sync (some convs) i = ingest_conversations convs i
