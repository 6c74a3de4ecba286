-- ===== src/Cache/Ingest/Streams.antt =====
-- internal/cache/handler.go: the writes that a history sync, the other events and a stream of events
-- make.
use whatsapp_mcp_docker.Base.{
  ℕ, ◌+◌, String, ◌≡◌, refl, sym, Bool, not, Option, none, some, List, [], ◌∷◌, if◌then◌else◌,
}
use whatsapp_mcp_docker.Base.Keys.{Key2}
use whatsapp_mcp_docker.Cache.Models.{MessageRow, Message}
use whatsapp_mcp_docker.Cache.Store.{is_empty}
use whatsapp_mcp_docker.Cache.Envelope.{Envelope, MessageKey, build_message_row, poll_creation_row}
use whatsapp_mcp_docker.Cache.Operations.{Op, perform, Kept, message_at, perform_all-Kept}
use whatsapp_mcp_docker.Cache.Ingest.State.{Jid, Library, Ingestor}
use whatsapp_mcp_docker.Cache.Ingest.Messages.{persist_poll_creation}
use whatsapp_mcp_docker.Cache.Ingest.History.{
  HistoryReaction, WebMessage, Conversation, history_reaction, ingest_keyed,
  ingest_history_reactions, insert_row, ingest_web, ingest_messages, ingest_parsed,
  ingest_conversation, ingest_conversations, handle_history_sync, web_origin, conversation_chat,
}
use whatsapp_mcp_docker.Cache.Ingest.Chats.{
  ContactAction, handle_contact, handle_push_name, handle_business_name, handle_group_info,
  handle_joined_group, handle_newsletter_join, handle_newsletter_leave, handle_mark_chat_as_read,
  handle_pin, handle_archive, handle_star, handle_presence,
}
use whatsapp_mcp_docker.Cache.Ingest.Dispatch.{Event, handle_event}
use whatsapp_mcp_docker.Cache.Ingest.Writes.{
  Writes, none_made, andthen, one, either, persist_reaction-Writes, write_poll-Writes,
  handle_message-Writes,
}

module _ (lib : Library) (now : ℕ) where
  ingest_keyed-Writes :
      (chat_jid target_id : String) (ts : ℕ) (react : HistoryReaction) (key : Option MessageKey)
      (i : Ingestor)
      → Writes lib i (ingest_keyed lib now chat_jid target_id ts react key i)
  ingest_keyed-Writes chat_jid target_id ts react none i = none_made lib now i i refl
  ingest_keyed-Writes chat_jid target_id ts react (some key) i =
      persist_reaction-Writes lib now (history_reaction lib now chat_jid target_id ts react key) i

  ingest_history_reactions-Writes :
      (chat_jid target_id : String) (ts : ℕ) (rs : List (Option HistoryReaction)) (i : Ingestor)
      → Writes lib i (ingest_history_reactions lib now chat_jid target_id ts rs i)
  unfolding ingest_history_reactions
  ingest_history_reactions-Writes chat_jid target_id ts [] i = none_made lib now i i refl
  ingest_history_reactions-Writes chat_jid target_id ts (none ∷ rest) i =
      ingest_history_reactions-Writes chat_jid target_id ts rest i
  ingest_history_reactions-Writes chat_jid target_id ts (some react ∷ rest) i =
      andthen lib now i _ _ (ingest_keyed-Writes chat_jid target_id ts react react.key i)
        (ingest_history_reactions-Writes chat_jid target_id ts rest _)

  insert_row-Writes : (m : Option Message) (i : Ingestor) → Writes lib i (insert_row lib now m i)
  unfolding perform
  insert_row-Writes none i = none_made lib now i i refl
  insert_row-Writes (some m) i = one lib now i (Op.message m)

  ingest_web-Writes :
      (chat_jid : String) (web : WebMessage) (key : Option MessageKey) (e : Option Envelope)
      (i : Ingestor)
      → Writes lib i (ingest_web lib now chat_jid web key e i)
  unfolding persist_poll_creation
  ingest_web-Writes chat_jid web none e i = none_made lib now i i refl
  ingest_web-Writes chat_jid web (some key) none i = none_made lib now i i refl
  ingest_web-Writes chat_jid web (some key) (some e) i =
      let o = web_origin lib now chat_jid web key in
      either lib now (is_empty key.id) i _ _ (none_made lib now i i refl) (
        andthen lib now i _ _ (insert_row-Writes (build_message_row o e) i) (
          andthen lib now _ _ _ (write_poll-Writes lib now (poll_creation_row o e) _) (
            ingest_history_reactions-Writes chat_jid key.id web.message_timestamp web.reactions _)))

  ingest_messages-Writes :
      (chat_jid : String) (webs : List WebMessage) (i : Ingestor)
      → Writes lib i (ingest_messages lib now chat_jid webs i)
  unfolding ingest_messages
  ingest_messages-Writes chat_jid [] i = none_made lib now i i refl
  ingest_messages-Writes chat_jid (web ∷ rest) i =
      andthen lib now i _ _ (ingest_web-Writes chat_jid web web.key web.envelope i)
        (ingest_messages-Writes chat_jid rest _)

  ingest_parsed-Writes :
      (conv : Conversation) (jid : Option Jid) (i : Ingestor)
      → Writes lib i (ingest_parsed lib now conv jid i)
  unfolding perform
  ingest_parsed-Writes conv none i = none_made lib now i i refl
  ingest_parsed-Writes conv (some jid) i =
      andthen lib now i _ _ (ingest_messages-Writes jid.text conv.messages i)
        (one lib now _ (Op.chat (conversation_chat lib now jid conv)))

  ingest_conversation-Writes :
      (conv : Option Conversation) (i : Ingestor)
      → Writes lib i (ingest_conversation lib now conv i)
  ingest_conversation-Writes none i = none_made lib now i i refl
  ingest_conversation-Writes (some conv) i =
      either lib now (is_empty conv.id) i _ _ (none_made lib now i i refl)
        (ingest_parsed-Writes conv (lib.parse_jid conv.id) i)

  ingest_conversations-Writes :
      (convs : List (Option Conversation)) (i : Ingestor)
      → Writes lib i (ingest_conversations lib now convs i)
  ingest_conversations-Writes [] i = none_made lib now i i refl
  ingest_conversations-Writes (conv ∷ rest) i =
      andthen lib now i _ _ (ingest_conversation-Writes conv i) (ingest_conversations-Writes rest _)

  history-Writes :
      (convs : Option (List (Option Conversation))) (i : Ingestor)
      → Writes lib i (handle_history_sync lib now convs i)
  unfolding handle_history_sync
  history-Writes none i = none_made lib now i i refl
  history-Writes (some convs) i = ingest_conversations-Writes convs i

  contact-Writes :
      (jid : Jid) (action : Option ContactAction) (i : Ingestor)
      → Writes lib i (handle_contact lib now jid action i)
  unfolding handle_contact perform
  contact-Writes jid none i = none_made lib now i i refl
  contact-Writes jid (some action) i =
      let j = record i { contact = i.contact + 1 } in
      either lib now (is_empty jid.bare) i j _ (none_made lib now i j refl)
        (andthen lib now i j _ (none_made lib now i j refl) (one lib now j (Op.contact _)))

  -- A handler that makes one write or none, after it has counted the event.
  counted :
      (b : Bool) (i j : Ingestor) (op : Op)
      → i.db ≡ j.db
      → Writes lib i (if b then i else record j { db = (perform lib.hash_option now op j.db).1 })
  counted b i j op e =
      either lib now b i i _ (none_made lib now i i refl)
        (andthen lib now i j _ (none_made lib now i j e) (one lib now j op))

  seen : (i j : Ingestor) → Writes lib i j → Writes lib i (record j { last_event_ts = now })
  seen i j h = andthen lib now i j _ h (none_made lib now j _ refl)

  pub handle_event-Writes : (e : Event) (i : Ingestor) → Writes lib i (handle_event lib now e i)
  unfolding handle_event perform handle_push_name handle_business_name handle_group_info
      handle_joined_group handle_newsletter_join handle_newsletter_leave handle_mark_chat_as_read
      handle_pin handle_archive handle_star handle_presence
  handle_event-Writes (Event.message evt) i = seen i _ (handle_message-Writes lib now evt i)
  handle_event-Writes (Event.history_sync convs) i = seen i _ (history-Writes convs i)
  handle_event-Writes (Event.contact jid action) i = seen i _ (contact-Writes jid action i)
  handle_event-Writes (Event.push_name jid name) i =
      seen i _ (counted (is_empty jid.bare) i i (Op.contact _) refl)
  handle_event-Writes (Event.business_name jid name) i =
      seen i _ (counted (is_empty jid.bare) i i (Op.contact _) refl)
  handle_event-Writes (Event.group_info e) i = seen i _ (one lib now i (Op.chat _))
  handle_event-Writes (Event.joined_group e) i =
      seen i _ (counted (is_empty e.jid.user) i i (Op.chat _) refl)
  handle_event-Writes (Event.newsletter_join jid name created) i =
      seen i _ (counted (is_empty jid.user) i i (Op.chat _) refl)
  handle_event-Writes (Event.newsletter_leave jid) i =
      seen i _ (counted (is_empty jid.user) i i (Op.chat _) refl)
  handle_event-Writes (Event.mark_chat_as_read jid read) i = seen i _ (
      counted (is_empty jid.user) i (record i { mark_read = i.mark_read + 1 })
        (Op.unread jid.text _ (not read)) refl)
  handle_event-Writes (Event.pin jid pinned) i = seen i _ (
      counted (is_empty jid.user) i (record i { pin = i.pin + 1 }) (Op.pinned jid.text _ pinned)
        refl)
  handle_event-Writes (Event.archive jid archived) i = seen i _ (
      counted (is_empty jid.user) i (record i { archive = i.archive + 1 })
        (Op.archived jid.text _ archived) refl)
  handle_event-Writes (Event.star jid) i =
      seen i _ (counted (is_empty jid.user) i i (Op.chat _) refl)
  handle_event-Writes (Event.presence jid unavailable last_seen) i =
      seen i _
        (counted (is_empty jid.user) i i (Op.presence jid.bare (not unavailable) last_seen) refl)
  handle_event-Writes Event.other i = none_made lib now i i refl

-- A stream of events, each with its time.
abbrev pub handle_events : Library → List (ℕ × Event) → Ingestor → Ingestor
handle_events lib [] i = i
handle_events lib ((now, e) ∷ rest) i = handle_events lib rest (handle_event lib now e i)

handle_events-Writes :
    (lib : Library) (events : List (ℕ × Event)) (i : Ingestor)
    → Writes lib i (handle_events lib events i)
handle_events-Writes lib [] i = none_made lib 0 i i refl
handle_events-Writes lib ((now, e) ∷ rest) i =
    andthen lib now i _ _ (handle_event-Writes lib now e i) (handle_events-Writes lib rest _)

-- No stream of events, whatever is in it, removes a stored message or changes its sender, time, kind,
-- reply target, direction or media, or takes back its mark of an edit or of a deletion.
pub handle_events-Kept :
    (lib : Library) (events : List (ℕ × Event)) (i : Ingestor) (k : Key2) (a : MessageRow)
    → message_at k i.db ≡ some a
    → Kept k a (handle_events lib events i).db
handle_events-Kept lib events i k a h =
    let w = handle_events-Writes lib events i in
    rw (sym w.leads) (perform_all-Kept lib.hash_option w.ops i.db k a h)
