-- ===== src/Cache/Envelope.antt =====
-- internal/cache/handler.go: the row that a message envelope is stored as. An envelope is what the code
-- reads of the WhatsApp library's message, with `none` for a part that is not set.
use whatsapp_mcp_docker.Base.{
  ℕ, String, Bool, true, false, not, ◌&&◌, ◌||◌, Option, none, some, List, [], ◌∷◌, map,
  if◌then◌else◌, Bytes,
}
use whatsapp_mcp_docker.Cache.Models.{Message, MessageKind, Media, Poll}
use whatsapp_mcp_docker.Cache.Store.{is_empty}

pub record MessageKey : Type 0 where
  pub id : String
  pub remote_jid : String
  pub participant : String
  pub from_me : Bool

-- An attachment; `stanza` is the id that its context info replies to.
pub record Attachment : Type 0 where
  pub mime : String
  pub filename : String
  pub url : String
  pub direct_path : String
  pub key : Bytes
  pub sha256 : Bytes
  pub enc_sha256 : Bytes
  pub length : ℕ
  pub caption : String
  pub stanza : Option String

pub record ExtendedText : Type 0 where
  pub text : String
  pub stanza : Option String

pub record PollCreation : Type 0 where
  pub name : String
  pub selectable_options_count : ℕ
  pub options : List String

-- The parts of a message that carry its content; `polls` are the direct poll fields in the order
-- in which they are tried.
pub record Content : Type 0 where
  pub conversation : String
  pub extended_text : Option ExtendedText
  pub image : Option Attachment
  pub video : Option Attachment
  pub audio : Option Attachment
  pub document : Option Attachment
  pub sticker : Option Attachment
  pub polls : List (Option PollCreation)

pub data ProtocolType : Type 0 where
  revoke message_edit other : ProtocolType

pub record Protocol : Type 0 where
  pub key : Option MessageKey
  pub protocol_type : ProtocolType
  pub edited_message : Option Content

pub record ReactionMessage : Type 0 where
  pub key : Option MessageKey
  pub text : String
  pub sender_timestamp_ms : ℕ

pub record PollUpdate : Type 0 where
  pub poll_id : String
  pub sender_timestamp_ms : ℕ

-- `wrapped_poll` is the message inside of PollCreationMessageV4.
pub record Envelope : Type 0 where
  pub content : Content
  pub open content use *
  pub wrapped_poll : Option Content
  pub protocol : Option Protocol
  pub reaction : Option ReactionMessage
  pub poll_update : Option PollUpdate

abbrev pub text_of : Option ExtendedText → String
text_of none = ""
text_of (some e) = e.text

unfoldable pub extract_text_body : Option Content → String
extract_text_body none = ""
extract_text_body (some c) =
    if is_empty c.conversation then text_of c.extended_text else c.conversation

abbrev pub first_poll : List (Option PollCreation) → Option PollCreation
first_poll [] = none
first_poll (some p ∷ rest) = some p
first_poll (none ∷ rest) = first_poll rest

abbrev pub direct_poll_creation : Option Content → Option PollCreation
direct_poll_creation none = none
direct_poll_creation (some c) = first_poll c.polls

abbrev pub or_else {ℓ} : {A : Type ℓ} → Option A → Option A → Option A
or_else (some a) b = some a
or_else none b = b

unfoldable pub extract_poll_creation : Envelope → Option PollCreation
extract_poll_creation e =
    or_else (direct_poll_creation (some e.content)) (direct_poll_creation e.wrapped_poll)

abbrev pub media_of : Attachment → Media
media_of a = record {
  mime = a.mime;
  filename = "";
  url = a.url;
  direct_path = a.direct_path;
  key = a.key;
  sha256 = a.sha256;
  enc_sha256 = a.enc_sha256;
  length = a.length;
}

-- What `extractEnvelope` returns: the kind, the media and the text to promote into the body.
pub record Extracted : Type 0 where
  pub kind : MessageKind
  pub media : Option Media
  pub caption : String

abbrev pub bare_kind : MessageKind → Extracted
bare_kind k = record { kind = k; media = none; caption = "" }

abbrev pub is_set {ℓ} : {A : Type ℓ} → Option A → Bool
is_set none = false
is_set (some a) = true

-- The chain of tests, from the last to the first.
abbrev pub extract_sticker : Option Attachment → Extracted
extract_sticker none = bare_kind MessageKind.other
extract_sticker (some a) = record {
  kind = MessageKind.sticker;
  media = some (media_of a);
  caption = "";
}

abbrev pub extract_poll : Option PollCreation → Extracted → Extracted
extract_poll none next = next
extract_poll (some p) next = record { kind = MessageKind.poll; media = none; caption = p.name }

abbrev pub extract_document : Option Attachment → Extracted → Extracted
extract_document none next = next
extract_document (some a) next = record {
  kind = MessageKind.document;
  media = some (record (media_of a) { filename = a.filename });
  caption = a.caption;
}

abbrev pub extract_audio : Option Attachment → Extracted → Extracted
extract_audio none next = next
extract_audio (some a) next = record {
  kind = MessageKind.audio;
  media = some (media_of a);
  caption = "";
}

abbrev pub extract_captioned : MessageKind → Option Attachment → Extracted → Extracted
extract_captioned k none next = next
extract_captioned k (some a) next = record {
  kind = k;
  media = some (media_of a);
  caption = a.caption;
}

unfoldable pub extract_envelope : Envelope → Extracted
extract_envelope e =
    if not (is_empty e.conversation) || is_set e.extended_text
    then bare_kind MessageKind.text
    else extract_captioned MessageKind.image e.image (
        extract_captioned MessageKind.video e.video (
          extract_audio e.audio (
            extract_document e.document
              (extract_poll (extract_poll_creation e) (extract_sticker e.sticker)))))

abbrev pub stanza_of : Option Attachment → Option String
stanza_of none = none
stanza_of (some a) = a.stanza

abbrev pub text_stanza : Option ExtendedText → Option String
text_stanza none = none
text_stanza (some t) = t.stanza

abbrev pub or_empty : Option String → String
or_empty none = ""
or_empty (some s) = s

-- The first part that has a context info names the message that is replied to.
unfoldable pub extract_reply_to : Envelope → String
extract_reply_to e = or_empty (
    or_else (text_stanza e.extended_text) (
      or_else (stanza_of e.image)
        (or_else (stanza_of e.video) (or_else (stanza_of e.audio) (stanza_of e.document)))))

abbrev pub is_other : MessageKind → Bool
is_other MessageKind.other = true
is_other _ = false

abbrev pub row_body : String → Extracted → String
row_body body x = if not (is_empty x.caption) && is_empty body then x.caption else body

-- What identifies a message: the arguments of `buildMessageRow` beside the envelope.
pub record Origin : Type 0 where
  pub chat_jid : String
  pub sender_jid : String
  pub id : String
  pub push_name : String
  pub ts : ℕ
  pub is_from_me : Bool

unfoldable pub build_message_row : Origin → Envelope → Option Message
build_message_row o e =
    let x = extract_envelope e in
    let body = row_body (extract_text_body (some e.content)) x in
    if is_other x.kind && (is_empty body && not (is_set x.media))
    then none
    else some (record {
      id = o.id;
      chat_jid = o.chat_jid;
      sender_jid = o.sender_jid;
      sender_push_name = o.push_name;
      timestamp = o.ts;
      kind = x.kind;
      body = body;
      reply_to_id = extract_reply_to e;
      is_from_me = o.is_from_me;
      media = x.media;
    })

abbrev pub poll_of : Origin → PollCreation → Poll
poll_of o p = record {
  chat_jid = o.chat_jid;
  message_id = o.id;
  question = p.name;
  options = map (λ name. record { name = name; hash = "" }) p.options;
  selectable_count = p.selectable_options_count;
  sender_jid = o.sender_jid;
  is_from_me = o.is_from_me;
  timestamp = o.ts;
}

abbrev pub ballot_of : Origin → Option PollCreation → Option Poll
ballot_of o none = none
ballot_of o (some p) = some (poll_of o p)

-- The row that `persistPollCreation` writes, if the envelope carries a poll.
unfoldable pub poll_creation_row : Origin → Envelope → Option Poll
poll_creation_row o e = ballot_of o (extract_poll_creation e)
