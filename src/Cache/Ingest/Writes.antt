-- ===== src/Cache/Ingest/Writes.antt =====
-- internal/cache/handler.go: the writes that the handlers of live messages make.
use whatsapp_mcp_docker.Base.{
  ℕ, String, ◌≡◌, refl, ap, ◌∙◌, inl, inr, Bool, true, false, Option, none, some, List, [], ◌∷◌,
  ◌++◌, if◌then◌else◌, Bool-cases, Bytes,
}
use whatsapp_mcp_docker.Cache.Models.{Message, Poll, Reaction, Db}
use whatsapp_mcp_docker.Cache.Store.{StoreError, is_empty, mark_message_edited}
use whatsapp_mcp_docker.Cache.Envelope.{
  Envelope, MessageKey, Protocol, ProtocolType, ReactionMessage, PollUpdate, Origin,
  poll_creation_row, extract_text_body,
}
use whatsapp_mcp_docker.Cache.Operations.{Op, perform, perform_all}
use whatsapp_mcp_docker.Cache.Ingest.State.{
  Jid, Library, MessageInfo, MessageEvent, Ingestor, write, write_if,
}
use whatsapp_mcp_docker.Cache.Ingest.Messages.{
  persist_reaction, record_jid_alias, record_sender_identity, handle_reaction, reaction_to,
  handle_protocol_message, protocol_to, protocol_at, persist_poll_creation, write_poll,
  handle_poll_vote, decrypt_with, record_vote,
}
use whatsapp_mcp_docker.Cache.Ingest.Live.{
  store_row, store_message, by_content, after_edit, by_edit, by_protocol, unless_handled,
  message_in, handle_message,
}

-- A sequence of the cache's writes that leads from the one ingestor's database to the other's.
pub record Writes (lib : Library) (i j : Ingestor) : Type 0 where
  pub ops : List (ℕ × Op)
  pub leads : perform_all lib.hash_option ops i.db ≡ j.db

perform_all-append :
    (hash_option : String → String) (xs ys : List (ℕ × Op)) (db : Db)
    → perform_all hash_option (xs ++ ys) db
      ≡ perform_all hash_option ys (perform_all hash_option xs db)
perform_all-append hash_option [] ys db = refl
perform_all-append hash_option ((now, op) ∷ xs) ys db = perform_all-append hash_option xs ys _

module _ (lib : Library) (now : ℕ) where
  pub none_made : (i j : Ingestor) → i.db ≡ j.db → Writes lib i j
  none_made i j e = record { ops = []; leads = e }

  pub andthen : (i j k : Ingestor) → Writes lib i j → Writes lib j k → Writes lib i k
  andthen i j k p q = record {
    ops = p.ops ++ q.ops;
    leads =
        perform_all-append lib.hash_option p.ops q.ops i.db
        ∙ ap (perform_all lib.hash_option q.ops) p.leads
        ∙ q.leads;
  }

  pub one : (i : Ingestor) (op : Op) → Writes lib i (write (perform lib.hash_option now op) i)
  one i op = record { ops = (now, op) ∷ []; leads = refl }

  pub either :
      (b : Bool) (i j k : Ingestor)
      → Writes lib i j
      → Writes lib i k
      → Writes lib i (if b then j else k)
  either true i j k p q = p
  either false i j k p q = q

  one_if :
      (b : Bool) (i : Ingestor) (op : Op)
      → Writes lib i (write_if b (perform lib.hash_option now op) i)
  one_if true i op = one i op
  one_if false i op = none_made i i refl

  pub persist_reaction-Writes : (r : Reaction) (i : Ingestor) → Writes lib i (persist_reaction r i)
  unfolding persist_reaction perform
  persist_reaction-Writes r i =
      either _ i _ _ (none_made i i refl)
        (either _ i _ _ (one i (Op.no_reaction r.chat_jid r.target_id _)) (one i (Op.reaction r)))

  record_jid_alias-Writes :
      (a b : Jid) (i : Ingestor) → Writes lib i (record_jid_alias lib now a b i)
  unfolding record_jid_alias perform
  record_jid_alias-Writes a b i = either _ i _ _ (none_made i i refl) (
      either _ i _ _ (one i (Op.jid_alias a.bare b.bare))
        (either _ i _ _ (one i (Op.jid_alias b.bare a.bare)) (none_made i i refl)))

  identity-Writes :
      (info : MessageInfo) (i : Ingestor) → Writes lib i (record_sender_identity lib now info i)
  unfolding record_sender_identity perform
  identity-Writes info i =
      andthen i _ _ (one_if _ i (Op.contact _))
        (record_jid_alias-Writes info.sender info.sender_alt _)

  reaction_to-Writes :
      (info : MessageInfo) (react : ReactionMessage) (ts : ℕ) (key : Option MessageKey)
      (i : Ingestor)
      → Writes lib i (reaction_to lib now info react ts key i)
  unfolding perform
  reaction_to-Writes info react ts none i = none_made i i refl
  reaction_to-Writes info react ts (some key) i = either _ i _ _ (none_made i i refl) (
      andthen i _ _ (one_if _ i (Op.contact _)) (
        andthen _ _ _ (record_jid_alias-Writes info.sender info.sender_alt _)
          (persist_reaction-Writes _ _)))

  protocol_at-Writes :
      (chat_jid : String) (ts : ℕ) (proto : Protocol) (t : ProtocolType) (key : MessageKey)
      (i : Ingestor)
      → Writes lib i (protocol_at chat_jid ts proto t key i).0
  unfolding perform
  protocol_at-Writes chat_jid ts proto ProtocolType.revoke key i = one i (Op.deleted _ key.id ts)
  protocol_at-Writes chat_jid ts proto ProtocolType.message_edit key i =
      one i (Op.edited _ key.id _ ts)
  protocol_at-Writes chat_jid ts proto ProtocolType.other key i = none_made i i refl

  protocol_to-Writes :
      (chat_jid : String) (ts : ℕ) (proto : Protocol) (key : Option MessageKey) (i : Ingestor)
      → Writes lib i (protocol_to chat_jid ts proto key i).0
  protocol_to-Writes chat_jid ts proto none i = none_made i i refl
  protocol_to-Writes chat_jid ts proto (some key) i = elim (Bool-cases (is_empty key.id)) [
    | inl e ↦ rw e (none_made i i refl)
    | inr e ↦ rw e (protocol_at-Writes chat_jid ts proto proto.protocol_type key i)
  ]

  by_protocol-Writes :
      (chat_jid : String) (ts : ℕ) (proto : Option Protocol) (i : Ingestor)
      → Writes lib i (by_protocol lib now chat_jid ts proto i).0
  unfolding handle_protocol_message
  by_protocol-Writes chat_jid ts none i = none_made i i refl
  by_protocol-Writes chat_jid ts (some proto) i = protocol_to-Writes chat_jid ts proto proto.key i

  pub write_poll-Writes : (p : Option Poll) (i : Ingestor) → Writes lib i (write_poll lib now p i)
  unfolding perform
  write_poll-Writes none i = none_made i i refl
  write_poll-Writes (some p) i = one i (Op.poll p)

  record_vote-Writes :
      (info : MessageInfo) (vote : PollUpdate) (o : Option (List Bytes)) (i : Ingestor)
      → Writes lib i (record_vote lib now info vote o i)
  unfolding perform
  record_vote-Writes info vote none i = none_made i i refl
  record_vote-Writes info vote (some selected) i = one i (Op.vote _)

  decrypt_with-Writes :
      (d : Option (MessageEvent → Option (List Bytes))) (evt : MessageEvent) (vote : PollUpdate)
      (i : Ingestor)
      → Writes lib i (decrypt_with lib now d evt vote i)
  decrypt_with-Writes none evt vote i = none_made i i refl
  decrypt_with-Writes (some decrypt) evt vote i = record_vote-Writes evt.info vote (decrypt evt) i

  store_row-Writes :
      (o : Origin) (e : Envelope) (m : Option Message) (i : Ingestor)
      → Writes lib i (store_row lib now o e m i)
  unfolding persist_poll_creation perform
  store_row-Writes o e none i = none_made i i refl
  store_row-Writes o e (some m) i =
      andthen i _ _ (one i (Op.message m)) (write_poll-Writes (poll_creation_row o e) _)

  store_message-Writes :
      (info : MessageInfo) (ts : ℕ) (e : Envelope) (i : Ingestor)
      → Writes lib i (store_message lib now info ts e i)
  unfolding store_message perform
  store_message-Writes info ts e i =
      andthen i _ _ (one i (Op.chat _))
        (andthen _ _ _ (identity-Writes info _) (store_row-Writes _ e _ _))

  by_content-Writes :
      (evt : MessageEvent) (ts : ℕ) (e : Envelope) (r : Option ReactionMessage)
      (v : Option PollUpdate) (i : Ingestor)
      → Writes lib i (by_content lib now evt ts e r v i)
  unfolding handle_reaction handle_poll_vote
  by_content-Writes evt ts e (some react) v i = reaction_to-Writes evt.info react ts react.key i
  by_content-Writes evt ts e none (some vote) i = andthen i _ _ (identity-Writes evt.info i) (
      either (is_empty vote.poll_id) _ _ _ (none_made _ _ refl) (
        decrypt_with-Writes (record_sender_identity lib now evt.info i).poll_decrypter evt vote
          (record_sender_identity lib now evt.info i)))
  by_content-Writes evt ts e none none i = store_message-Writes evt.info ts e i

  -- The edit itself is one write, whose error decides what follows.
  after_edit-Writes :
      (evt : MessageEvent) (ts : ℕ) (e : Envelope) (r : Option StoreError × Db) (i : Ingestor)
      → Writes lib i (record i { db = r.1 })
      → Writes lib i (after_edit lib now evt ts e r i)
  after_edit-Writes evt ts e (none, db) i h = h
  after_edit-Writes evt ts e (some err, db) i h =
      andthen i (record i { db = db }) _ h (by_content-Writes evt ts e e.reaction e.poll_update _)

  by_edit-Writes :
      (evt : MessageEvent) (ts : ℕ) (e : Envelope) (b : Bool) (i : Ingestor)
      → Writes lib i (by_edit lib now evt ts e b i)
  unfolding perform
  by_edit-Writes evt ts e true i =
      after_edit-Writes evt ts e
        (mark_message_edited evt.info.chat.text evt.info.id (extract_text_body (some e.content)) ts
          i.db)
        i (one i (Op.edited _ evt.info.id _ ts))
  by_edit-Writes evt ts e false i = by_content-Writes evt ts e e.reaction e.poll_update i

  unless_handled-Writes :
      (evt : MessageEvent) (ts : ℕ) (e : Envelope) (r : Ingestor × Bool) (i : Ingestor)
      → Writes lib i r.0
      → Writes lib i (unless_handled lib now evt ts e r)
  unless_handled-Writes evt ts e (j, true) i h = h
  unless_handled-Writes evt ts e (j, false) i h =
      andthen i j _ h (by_edit-Writes evt ts e evt.is_edit j)

  message_in-Writes :
      (evt : MessageEvent) (o : Option Envelope) (i : Ingestor)
      → Writes lib i (message_in lib now evt o i)
  message_in-Writes evt none i = none_made i i refl
  message_in-Writes evt (some e) i =
      either _ i _ _ (none_made i i refl)
        (unless_handled-Writes evt _ e _ i (by_protocol-Writes _ _ e.protocol i))

  pub handle_message-Writes :
      (o : Option MessageEvent) (i : Ingestor) → Writes lib i (handle_message lib now o i)
  unfolding handle_message
  handle_message-Writes none i = none_made i i refl
  handle_message-Writes (some evt) i = message_in-Writes evt evt.envelope i
