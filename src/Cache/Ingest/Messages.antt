-- ===== src/Cache/Ingest/Messages.antt =====
-- internal/cache/handler.go: live messages: edits and revokes, reactions, poll votes, and messages proper.
use whatsapp_mcp_docker.Base.{
  ℕ, zero, suc, ◌*◌, ◌/◌, ◌%◌, String, Bool, true, false, not, ◌&&◌, ◌||◌, Option, none, some, List,
  [], ◌∷◌, map, ◌==◌, str_eq, if◌then◌else◌, Bytes,
}
use Prim.Native.Char.{Char}
use whatsapp_mcp_docker.Cache.Models.{Contact, bare_contact, Poll, Reaction}
use whatsapp_mcp_docker.Cache.Store.{
  is_empty, mark_message_edited, mark_message_deleted, upsert_reaction, delete_reaction,
  reaction_sender_key,
}
use whatsapp_mcp_docker.Cache.Contacts.{upsert_contact, upsert_jid_alias}
use whatsapp_mcp_docker.Cache.Polls.{upsert_poll, upsert_poll_vote}
use whatsapp_mcp_docker.Cache.Envelope.{
  Envelope, MessageKey, Protocol, ProtocolType, ReactionMessage, PollUpdate, Origin,
  extract_text_body, poll_creation_row,
}
use whatsapp_mcp_docker.Cache.Ingest.State.{
  Jid, Library, MessageInfo, MessageEvent, Ingestor, write, write_if,
}

-- time.UnixMilli(ms) where the sender gave a time, else the time of the message, which is in seconds;
-- in milliseconds
abbrev pub sender_time : ℕ → ℕ → ℕ
sender_time ms fallback = if ms == 0 then fallback * 1000 else ms

unfoldable pub persist_reaction : Reaction → Ingestor → Ingestor
persist_reaction r i =
    if is_empty r.chat_jid || is_empty r.target_id
    then i
    else if is_empty r.emoji
    then write
        (delete_reaction r.chat_jid r.target_id (reaction_sender_key r.sender_jid r.is_from_me)) i
    else write (upsert_reaction r) i

abbrev pub name_or_empty : Option String → String
name_or_empty none = ""
name_or_empty (some s) = s

abbrev pub sender_contact : MessageInfo → Contact
sender_contact info = record (bare_contact info.sender.bare) {
  push_name = info.push_name;
  business_name = name_or_empty info.verified_name;
}

-- The chat that a protocol or reaction key names, or the event's own.
abbrev pub target_chat : MessageKey → String → String
target_chat key chat_jid = if is_empty key.remote_jid then chat_jid else key.remote_jid

abbrev pub reaction_of : MessageInfo → ReactionMessage → MessageKey → ℕ → Reaction
reaction_of info react key fallback_ts = record {
  chat_jid = target_chat key info.chat.text;
  target_id = key.id;
  sender_jid = info.sender.bare;
  emoji = react.text;
  timestamp = sender_time react.sender_timestamp_ms fallback_ts;
  is_from_me = info.is_from_me;
}

abbrev pub protocol_at :
    String → ℕ → Protocol → ProtocolType → MessageKey → Ingestor → Ingestor × Bool
protocol_at chat_jid ts proto ProtocolType.revoke key i =
    (write (mark_message_deleted (target_chat key chat_jid) key.id ts) i, true)
protocol_at chat_jid ts proto ProtocolType.message_edit key i = (
  write
      (mark_message_edited (target_chat key chat_jid) key.id
        (extract_text_body proto.edited_message) ts)
      i,
  true,
)
protocol_at chat_jid ts proto ProtocolType.other key i = (i, false)

abbrev pub protocol_to : String → ℕ → Protocol → Option MessageKey → Ingestor → Ingestor × Bool
protocol_to chat_jid ts proto none i = (i, false)
protocol_to chat_jid ts proto (some key) i =
    if is_empty key.id then (i, false) else protocol_at chat_jid ts proto proto.protocol_type key i

-- The flag says whether the envelope was fully handled.
unfoldable pub handle_protocol_message : String → ℕ → Protocol → Ingestor → Ingestor × Bool
handle_protocol_message chat_jid ts proto i = protocol_to chat_jid ts proto proto.key i

-- A hexadecimal digit, and hex.EncodeToString.
abbrev pub nth_char : String → ℕ → Char
nth_char String.[] n = "0"
nth_char (String.◌∷◌ c s) zero = c
nth_char (String.◌∷◌ c s) (suc n) = nth_char s n

unfoldable pub hex_encode : Bytes → String
hex_encode [] = ""
hex_encode (b ∷ rest) =
    String.◌∷◌ (nth_char "0123456789abcdef" (b / 16))
      (String.◌∷◌ (nth_char "0123456789abcdef" (b % 16)) (hex_encode rest))

abbrev pub nonzero_or : ℕ → ℕ → ℕ
nonzero_or default t = if t == 0 then default else t

module _ (lib : Library) (now : ℕ) where
  -- The pair is stored only when one address is a phone's and the other a privacy one.
  unfoldable pub record_jid_alias : Jid → Jid → Ingestor → Ingestor
  record_jid_alias a b i =
      if a.is_nothing || b.is_nothing
      then i
      else if str_eq a.server lib.hidden_user_server && str_eq b.server lib.default_user_server
      then write (upsert_jid_alias now a.bare b.bare) i
      else if str_eq a.server lib.default_user_server && str_eq b.server lib.hidden_user_server
      then write (upsert_jid_alias now b.bare a.bare) i
      else i

  unfoldable pub record_sender_identity : MessageInfo → Ingestor → Ingestor
  record_sender_identity info i = record_jid_alias info.sender info.sender_alt (
      write_if (not (is_empty info.sender.bare) && not info.is_from_me)
        (upsert_contact now (sender_contact info)) i)

  abbrev pub reaction_to :
      MessageInfo → ReactionMessage → ℕ → Option MessageKey → Ingestor → Ingestor
  reaction_to info react fallback_ts none i = i
  reaction_to info react fallback_ts (some key) i =
      if is_empty key.id
      then i
      else persist_reaction (reaction_of info react key fallback_ts) (
          record_jid_alias info.sender info.sender_alt (
            write_if (not (is_empty info.sender.bare) && not info.is_from_me)
              (upsert_contact now
                (record (bare_contact info.sender.bare) { push_name = info.push_name }))
              i))

  unfoldable pub handle_reaction : MessageInfo → ReactionMessage → ℕ → Ingestor → Ingestor
  handle_reaction info react fallback_ts i = reaction_to info react fallback_ts react.key i

  abbrev pub write_poll : Option Poll → Ingestor → Ingestor
  write_poll none i = i
  write_poll (some p) i = write (upsert_poll lib.hash_option now p) i

  unfoldable pub persist_poll_creation : Origin → Envelope → Ingestor → Ingestor
  persist_poll_creation o e i = write_poll (poll_creation_row o e) i

  abbrev pub record_vote : MessageInfo → PollUpdate → Option (List Bytes) → Ingestor → Ingestor
  record_vote info vote none i = i
  record_vote info vote (some selected) i =
      write
        (upsert_poll_vote (record {
          chat_jid = info.chat.text;
          poll_message_id = vote.poll_id;
          voter_jid = info.sender.bare;
          selected_hashes = map hex_encode selected;
          timestamp = nonzero_or (now * 1000) (sender_time vote.sender_timestamp_ms info.timestamp);
        }))
        i

  abbrev pub decrypt_with :
      Option (MessageEvent → Option (List Bytes)) → MessageEvent → PollUpdate → Ingestor → Ingestor
  decrypt_with none evt vote i = i
  decrypt_with (some decrypt) evt vote i = record_vote evt.info vote (decrypt evt) i

  unfoldable pub handle_poll_vote : MessageEvent → PollUpdate → Ingestor → Ingestor
  handle_poll_vote evt vote i =
      if is_empty vote.poll_id then i else decrypt_with i.poll_decrypter evt vote i
