-- ===== src/Cache/Ingest/Effects.antt =====
-- internal/cache/handler.go: the effects of a live message, by what it holds.
use whatsapp_mcp_docker.Base.{
  ℕ, max, ◌≡◌, refl, ap, ◌∙◌, Bool, true, false, ◌||◌, Option, none, some, List, arith,
  if◌then◌else◌, str_eq_refl, Bytes,
}
use whatsapp_mcp_docker.Base.Keys.{string_eq}
use whatsapp_mcp_docker.Cache.Models.{Message, ChatRow, Contact, Reaction, Poll}
use whatsapp_mcp_docker.Cache.Store.{
  is_empty, merge_chat, upsert_chat, insert_message, upsert_reaction, delete_reaction,
}
use whatsapp_mcp_docker.Cache.Contacts.{upsert_contact, upsert_jid_alias}
use whatsapp_mcp_docker.Cache.Table.{find}
use whatsapp_mcp_docker.Cache.Store.Chats.{chat_at, chat_at-upsert_chat}
use whatsapp_mcp_docker.Cache.Polls.{upsert_poll, upsert_poll_vote}
use whatsapp_mcp_docker.Cache.Envelope.{
  Envelope, MessageKey, ReactionMessage, PollUpdate, Origin, build_message_row, poll_creation_row,
  is_set,
}
use whatsapp_mcp_docker.Cache.Ingest.State.{
  Jid, Library, MessageInfo, MessageEvent, Ingestor, write_if,
}
use whatsapp_mcp_docker.Cache.Ingest.Messages.{
  persist_reaction, record_jid_alias, record_sender_identity, handle_reaction, reaction_to,
  persist_poll_creation, write_poll, handle_poll_vote, decrypt_with, record_vote,
}
use whatsapp_mcp_docker.Cache.Ingest.Live.{
  store_row, store_message, by_content, handle_message, time_of, origin_of, message_chat,
}

-- Neither the chats nor the messages have changed.
pub record SameChats (i j : Ingestor) : Type 0 where
  pub chats : j.db.chats ≡ i.db.chats
  pub messages : j.db.messages ≡ i.db.messages

module _ (lib : Library) (now : ℕ) where
  alias_same : (a b : Jid) (i : Ingestor) → SameChats i (record_jid_alias lib now a b i)
  unfolding record_jid_alias upsert_jid_alias
  alias_same a b i = record { chats = ground arith; messages = ground arith }

  contact_same :
      (b : Bool) (c : Contact) (i : Ingestor) → SameChats i (write_if b (upsert_contact now c) i)
  unfolding upsert_contact
  contact_same true c i = record { chats = ground arith; messages = ground arith }
  contact_same false c i = record { chats = refl; messages = refl }

  same_then : (i j k : Ingestor) → SameChats i j → SameChats j k → SameChats i k
  same_then i j k p q = record { chats = q.chats ∙ p.chats; messages = q.messages ∙ p.messages }

  either_same :
      (b : Bool) (i j k : Ingestor)
      → SameChats i j
      → SameChats i k
      → SameChats i (if b then j else k)
  either_same true i j k p q = p
  either_same false i j k p q = q

  identity_same :
      (info : MessageInfo) (i : Ingestor) → SameChats i (record_sender_identity lib now info i)
  unfolding record_sender_identity
  identity_same info i =
      same_then i _ _ (contact_same _ _ i) (alias_same info.sender info.sender_alt _)

  persist_reaction_same : (r : Reaction) (i : Ingestor) → SameChats i (persist_reaction r i)
  unfolding persist_reaction upsert_reaction delete_reaction
  persist_reaction_same r i = record { chats = ground arith; messages = ground arith }

  reaction_same :
      (info : MessageInfo) (react : ReactionMessage) (ts : ℕ) (key : Option MessageKey)
      (i : Ingestor)
      → SameChats i (reaction_to lib now info react ts key i)
  reaction_same info react ts none i = record { chats = refl; messages = refl }
  reaction_same info react ts (some key) i =
      either_same (is_empty key.id) i _ _ (record { chats = refl; messages = refl })
        (same_then i _ _ (contact_same _ _ i)
          (same_then _ _ _ (alias_same info.sender info.sender_alt _) (persist_reaction_same _ _)))

  vote_same :
      (info : MessageInfo) (vote : PollUpdate) (o : Option (List Bytes)) (i : Ingestor)
      → SameChats i (record_vote lib now info vote o i)
  unfolding upsert_poll_vote
  vote_same info vote none i = record { chats = refl; messages = refl }
  vote_same info vote (some selected) i = record { chats = ground arith; messages = ground arith }

  decrypt_same :
      (d : Option (MessageEvent → Option (List Bytes))) (evt : MessageEvent) (vote : PollUpdate)
      (i : Ingestor)
      → SameChats i (decrypt_with lib now d evt vote i)
  decrypt_same none evt vote i = record { chats = refl; messages = refl }
  decrypt_same (some decrypt) evt vote i = vote_same evt.info vote (decrypt evt) i

  poll_vote_same :
      (evt : MessageEvent) (vote : PollUpdate) (i : Ingestor)
      → SameChats i (handle_poll_vote lib now evt vote i)
  unfolding handle_poll_vote
  poll_vote_same evt vote i =
      either_same (is_empty vote.poll_id) i _ _ (record { chats = refl; messages = refl })
        (decrypt_same i.poll_decrypter evt vote i)

  poll_same : (p : Option Poll) (i : Ingestor) → SameChats i (write_poll lib now p i)
  unfolding upsert_poll
  poll_same none i = record { chats = refl; messages = refl }
  poll_same (some p) i = record { chats = ground arith; messages = ground arith }

  store_row_chats :
      (o : Origin) (e : Envelope) (m : Option Message) (i : Ingestor)
      → (store_row lib now o e m i).db.chats ≡ i.db.chats
  unfolding persist_poll_creation insert_message
  store_row_chats o e none i = refl
  store_row_chats o e (some m) i = (poll_same (poll_creation_row o e) _).chats ∙ ground arith

  store_message_chats :
      (info : MessageInfo) (ts : ℕ) (e : Envelope) (i : Ingestor)
      → (store_message lib now info ts e i).db.chats
        ≡ (upsert_chat now (message_chat info ts) i.db).1.chats
  unfolding store_message
  store_message_chats info ts e i =
      store_row_chats (origin_of info ts) e (build_message_row (origin_of info ts) e) _
      ∙ (identity_same info _).chats

  -- What neither edits nor revokes a message is handled by its content.
  handle_content :
      (evt : MessageEvent) (e : Envelope) (i : Ingestor)
      → evt.envelope ≡ some e
      → is_empty evt.info.id ≡ false
      → e.protocol ≡ none
      → evt.is_edit ≡ false
      → handle_message lib now (some evt) i
        ≡ by_content lib now evt (time_of lib now evt.info) e e.reaction e.poll_update i
  unfolding handle_message
  handle_content evt e i h n p d = rw h (rw n (rw p (rw d refl)))

  by_content_same :
      (evt : MessageEvent) (ts : ℕ) (e : Envelope) (r : Option ReactionMessage)
      (v : Option PollUpdate) (i : Ingestor)
      → (is_set r || is_set v) ≡ true
      → SameChats i (by_content lib now evt ts e r v i)
  unfolding handle_reaction
  by_content_same evt ts e (some react) v i h = reaction_same evt.info react ts react.key i
  by_content_same evt ts e none (some vote) i h =
      same_then i _ _ (identity_same evt.info i) (poll_vote_same evt vote _)
  by_content_same evt ts e none none i h = cc

  by_content_plain :
      (evt : MessageEvent) (ts : ℕ) (e : Envelope) (r : Option ReactionMessage)
      (v : Option PollUpdate) (i : Ingestor)
      → (is_set r || is_set v) ≡ false
      → by_content lib now evt ts e r v i ≡ store_message lib now evt.info ts e i
  by_content_plain evt ts e none none i h = refl
  by_content_plain evt ts e (some react) v i h = cc
  by_content_plain evt ts e none (some vote) i h = cc

-- A reaction and a poll's vote, if not sent as an edit or a revoke, change neither the chats nor the
-- messages.
pub reaction_or_vote_keeps_messages :
    (lib : Library) (now : ℕ) (evt : MessageEvent) (e : Envelope) (i : Ingestor)
    → evt.envelope ≡ some e
    → is_empty evt.info.id ≡ false
    → e.protocol ≡ none
    → evt.is_edit ≡ false
    → (is_set e.reaction || is_set e.poll_update) ≡ true
    → SameChats i (handle_message lib now (some evt) i)
reaction_or_vote_keeps_messages lib now evt e i h n p d r =
    rw (handle_content lib now evt e i h n p d)
      (by_content_same lib now evt (time_of lib now evt.info) e e.reaction e.poll_update i r)

-- A live message that is neither an edit, a revoke, a reaction nor a vote takes back what was set of its
-- chat: the chat is no longer pinned, archived or muted and has nothing unread, whatever the stored row
-- said. Its last message time is the later of the row's and the message's.
pub message_resets_chat :
    (lib : Library) (now : ℕ) (evt : MessageEvent) (e : Envelope) (i : Ingestor) (row : ChatRow)
    → evt.envelope ≡ some e
    → is_empty evt.info.id ≡ false
    → e.protocol ≡ none
    → evt.is_edit ≡ false
    → (is_set e.reaction || is_set e.poll_update) ≡ false
    → is_empty evt.info.chat.text ≡ false
    → chat_at evt.info.chat.text i.db ≡ some row
    → (row' : ChatRow) × (chat_at evt.info.chat.text (handle_message lib now (some evt) i).db
        ≡ some row')
      × (row'.pinned ≡ false)
      × (row'.archived ≡ false)
      × (row'.muted_until ≡ 0)
      × (row'.unread_count ≡ 0)
      × (row'.last_message_ts ≡ max row.last_message_ts (time_of lib now evt.info))
message_resets_chat lib now evt e i row h n p d r c s =
    let ts = time_of lib now evt.info in
    let m = message_chat evt.info ts in
    let at = chat_at-upsert_chat now m i.db evt.info.chat.text c in
    (
      merge_chat now m row,
      rw (handle_content lib now evt e i h n p d) (
          rw (by_content_plain lib now evt ts e e.reaction e.poll_update i r) (
            ap (find evt.info.chat.text) (store_message_chats lib now evt.info ts e i)
            ∙ at
            ∙ rw (str_eq_refl evt.info.chat.text) (rw s refl))),
      refl,
      refl,
      refl,
      refl,
      refl,
    )
