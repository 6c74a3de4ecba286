-- ===== src/Cache/Ingest/Live.antt =====
-- internal/cache/handler.go, `handleMessage`: the order in which a live message event is tried.
use whatsapp_mcp_docker.Base.{ℕ, String, Bool, true, false, Option, none, some, ◌==◌, if◌then◌else◌}
use whatsapp_mcp_docker.Cache.Models.{Chat, bare_chat, Message, Db}
use whatsapp_mcp_docker.Cache.Store.{
  StoreError, is_empty, upsert_chat, insert_message, mark_message_edited,
}
use whatsapp_mcp_docker.Cache.Envelope.{
  Envelope, Protocol, ReactionMessage, PollUpdate, Origin, extract_text_body, build_message_row,
}
use whatsapp_mcp_docker.Cache.Ingest.State.{Library, MessageInfo, MessageEvent, Ingestor, write}
use whatsapp_mcp_docker.Cache.Ingest.Messages.{
  record_sender_identity, handle_reaction, handle_protocol_message, persist_poll_creation,
  handle_poll_vote,
}

abbrev pub origin_of : MessageInfo → ℕ → Origin
origin_of info ts = record {
  chat_jid = info.chat.text;
  sender_jid = info.sender.bare;
  id = info.id;
  push_name = info.push_name;
  ts = ts;
  is_from_me = info.is_from_me;
}

-- The chat's row that a message upserts.
abbrev pub message_chat : MessageInfo → ℕ → Chat
message_chat info ts = record (bare_chat info.chat.text) {
  is_group = info.is_group;
  last_message_ts = ts;
}

module _ (lib : Library) (now : ℕ) where
  abbrev pub store_row : Origin → Envelope → Option Message → Ingestor → Ingestor
  store_row o e none i = i
  store_row o e (some m) i = persist_poll_creation lib now o e (write (insert_message m) i)

  -- The end of `handleMessage`: the chat, the sender, the message and its ballot.
  unfoldable pub store_message : MessageInfo → ℕ → Envelope → Ingestor → Ingestor
  store_message info ts e i =
      let o = origin_of info ts in
      store_row o e (build_message_row o e)
        (record_sender_identity lib now info (write (upsert_chat now (message_chat info ts)) i))

  -- A reaction and a vote come before a message, and end the handling.
  abbrev pub by_content :
      MessageEvent → ℕ → Envelope → Option ReactionMessage → Option PollUpdate → Ingestor → Ingestor
  by_content evt ts e (some react) vote i = handle_reaction lib now evt.info react ts i
  by_content evt ts e none (some vote) i =
      handle_poll_vote lib now evt vote (record_sender_identity lib now evt.info i)
  by_content evt ts e none none i = store_message evt.info ts e i

  -- An edit whose target is stored ends here; otherwise the event goes on as a message.
  abbrev pub after_edit : MessageEvent → ℕ → Envelope → Option StoreError × Db → Ingestor → Ingestor
  after_edit evt ts e (none, db) i = record i { db = db }
  after_edit evt ts e (some err, db) i =
      by_content evt ts e e.reaction e.poll_update (record i { db = db })

  abbrev pub by_edit : MessageEvent → ℕ → Envelope → Bool → Ingestor → Ingestor
  by_edit evt ts e true i =
      after_edit evt ts e
        (mark_message_edited evt.info.chat.text evt.info.id (extract_text_body (some e.content)) ts
          i.db)
        i
  by_edit evt ts e false i = by_content evt ts e e.reaction e.poll_update i

  abbrev pub by_protocol : String → ℕ → Option Protocol → Ingestor → Ingestor × Bool
  by_protocol chat_jid ts none i = (i, false)
  by_protocol chat_jid ts (some proto) i = handle_protocol_message chat_jid ts proto i

  abbrev pub unless_handled : MessageEvent → ℕ → Envelope → Ingestor × Bool → Ingestor
  unless_handled evt ts e (i, true) = i
  unless_handled evt ts e (i, false) = by_edit evt ts e evt.is_edit i

  abbrev pub time_of : MessageInfo → ℕ
  time_of info = if info.timestamp == 0 then now else info.timestamp

  abbrev pub message_in : MessageEvent → Option Envelope → Ingestor → Ingestor
  message_in evt none i = i
  message_in evt (some e) i =
      if is_empty evt.info.id
      then i
      else unless_handled evt (time_of evt.info) e
          (by_protocol evt.info.chat.text (time_of evt.info) e.protocol i)

  unfoldable pub handle_message : Option MessageEvent → Ingestor → Ingestor
  handle_message none i = i
  handle_message (some evt) i = message_in evt evt.envelope i
