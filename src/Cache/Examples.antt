-- ===== src/Cache/Examples.antt =====
-- The cache and its ingestor on concrete rows and events.
use whatsapp_mcp_docker.Base.{
  ℕ, max, String, ◌≡◌, refl, true, false, none, some, List, [], ◌∷◌, str_eq, if◌then◌else◌,
}
use whatsapp_mcp_docker.Base.Keys.{string_eq}
use whatsapp_mcp_docker.Cache.Table.{find, upsert}
use whatsapp_mcp_docker.Cache.Models.{
  ChatType, Chat, bare_chat, ChatRow, Message, MessageRow, MessageKind, Reaction, Poll, PollVote,
  Db, empty_db,
}
use whatsapp_mcp_docker.Cache.Store.{
  is_empty, is_unset, chat_row, upsert_chat, set_chat_pinned, set_chat_archived, set_chat_unread,
  insert_message, message_key, message_row, upsert_reaction, delete_reaction, reaction_row,
  reaction_sender_key,
}
use whatsapp_mcp_docker.Cache.Store.Chats.{
  chat_at, upsert_chats, ts_of, latest, upsert_chats-latest, upsert_chat_keeps, set_chat_flags,
}
use whatsapp_mcp_docker.Cache.Store.Reactions.{reaction_at, stored_key, delete_reaction_lem}
use whatsapp_mcp_docker.Cache.Polls.{upsert_poll, get_poll}
use whatsapp_mcp_docker.Cache.Polls.Ballots.{stored_poll, get_poll-upsert_poll}
use whatsapp_mcp_docker.Cache.Operations.{Op, perform_all, Kept, message_at, perform_all-Kept}
use whatsapp_mcp_docker.Cache.Envelope.{Envelope, Content}
use whatsapp_mcp_docker.Cache.Ingest.State.{Jid, Library, MessageInfo, MessageEvent, Ingestor}
use whatsapp_mcp_docker.Cache.Ingest.Live.{handle_message}
use whatsapp_mcp_docker.Cache.Ingest.Dispatch.{Event}
use whatsapp_mcp_docker.Cache.Ingest.Streams.{handle_events, handle_events-Kept}
use whatsapp_mcp_docker.Cache.Ingest.Effects.{
  SameChats, reaction_or_vote_keeps_messages, message_resets_chat,
}

abbrev alice : String
alice = "alice@s.whatsapp.net"

abbrev chat : Chat
chat = record (bare_chat alice) {
  name = "Alice";
  last_message_ts = 50;
  unread_count = 3;
  pinned = true;
}

abbrev stored_chat : ChatRow
stored_chat = chat_row 60 chat

abbrev text_message : Message
text_message = record {
  id = "M1";
  chat_jid = alice;
  sender_jid = alice;
  sender_push_name = "Al";
  timestamp = 50;
  kind = MessageKind.text;
  body = "hello";
  reply_to_id = "";
  is_from_me = false;
  media = none;
}

abbrev db : Db
db = (insert_message text_message (upsert_chat 60 chat empty_db).1).1

abbrev older_chat : Chat
older_chat = record (bare_chat alice) { last_message_ts = 40 }

chat_stored : chat_at alice db ≡ some stored_chat
unfolding upsert_chat insert_message find upsert
chat_stored = refl

abbrev text_row : MessageRow
text_row = message_row text_message

message_stored : message_at (message_key alice "M1") db ≡ some text_row
unfolding upsert_chat insert_message find upsert
message_stored = refl

upsert_chat_keeps_example :
    (row : ChatRow) × (chat_at alice (upsert_chat 70 older_chat db).1 ≡ some row)
    × (row.last_message_ts ≡ max 50 40)
    × (row.name ≡ (if is_empty "" then "Alice" else ""))
    × (row.chat_type ≡ (if is_unset ChatType.unset then stored_chat.chat_type else ChatType.unset))
    × ((j : String)
        → chat_at j (upsert_chat 70 older_chat db).1
          ≡ (if str_eq alice j then some row else chat_at j db))
upsert_chat_keeps_example = upsert_chat_keeps 70 older_chat db stored_chat refl chat_stored

abbrev chat_stream : List (ℕ × Chat)
chat_stream = (70, older_chat) ∷ (71, record older_chat { last_message_ts = 90 }) ∷ []

upsert_chats-latest_example :
    ts_of (chat_at alice (upsert_chats chat_stream db))
    ≡ max (ts_of (chat_at alice db)) (latest alice chat_stream)
upsert_chats-latest_example = upsert_chats-latest chat_stream db alice refl

set_chat_flags_example :
    (chat_at alice (set_chat_pinned 80 alice false true db).1
      ≡ some (record stored_chat { pinned = true; updated_at = 80 }))
    × (chat_at alice (set_chat_archived 80 alice false true db).1
        ≡ some (record stored_chat { archived = true; updated_at = 80 }))
    × (chat_at alice (set_chat_unread 80 alice false true db).1
        ≡ some (record stored_chat { unread_count = 1; updated_at = 80 }))
set_chat_flags_example = set_chat_flags 80 alice false true db stored_chat refl chat_stored

abbrev thumb : Reaction
thumb = record {
  chat_jid = alice;
  target_id = "M1";
  sender_jid = alice;
  emoji = "+";
  timestamp = 55_900;
  is_from_me = false;
}

abbrev heart : Reaction
heart = record thumb { emoji = "<3"; timestamp = 56_100 }

-- Within one second the reaction that arrives last stands, though it was sent first.
late_arrival :
    reaction_at
      (stored_key thumb)
      (upsert_reaction
        (record thumb { emoji = "-"; timestamp = 55_100 })
        (upsert_reaction thumb empty_db).1).1
    ≡ some (record { emoji = "-"; ts = 55; is_from_me = false })
unfolding upsert_reaction find upsert reaction_sender_key
late_arrival = refl

no_reactions : reaction_at (stored_key thumb) empty_db ≡ none
unfolding find
no_reactions = refl

delete_reaction_lem_example :
    let stored = (upsert_reaction thumb empty_db).1 in
    let sender = reaction_sender_key thumb.sender_jid thumb.is_from_me in
    let removed = (delete_reaction thumb.chat_jid thumb.target_id sender stored).1 in
    (reaction_at (stored_key thumb) stored ≡ some (reaction_row thumb))
    × (reaction_at (stored_key thumb) removed ≡ reaction_at (stored_key thumb) empty_db)
    × (reaction_at
          (stored_key thumb)
          (delete_reaction thumb.chat_jid thumb.target_id sender removed).1
        ≡ reaction_at (stored_key thumb) empty_db)
delete_reaction_lem_example =
    delete_reaction_lem thumb empty_db (stored_key thumb) (refl, refl, refl) no_reactions

abbrev lunch : Poll
lunch = record {
  chat_jid = alice;
  message_id = "P1";
  question = "Lunch?";
  options = record { name = "Noon"; hash = "" } ∷ record { name = "One"; hash = "" } ∷ [];
  selectable_count = 1;
  sender_jid = alice;
  is_from_me = false;
  timestamp = 57;
}

abbrev digest : String → String
digest name = name

get_poll-upsert_poll_example :
    get_poll alice "P1" (upsert_poll digest 60 lunch db).1
    ≡ some (stored_poll digest lunch (get_poll alice "P1" db))
get_poll-upsert_poll_example = get_poll-upsert_poll digest 60 lunch db refl refl

abbrev noon : PollVote
noon = record {
  chat_jid = alice;
  poll_message_id = "P1";
  voter_jid = alice;
  selected_hashes = "Noon" ∷ [];
  timestamp = 55_900;
}

abbrev withdrawn : PollVote
withdrawn = record noon { selected_hashes = []; timestamp = 56_100 }

abbrev ops : List (ℕ × Op)
ops =
    (70, Op.edited alice "M1" "bye" 70)
    ∷ (71, Op.message text_message)
    ∷ (72, Op.deleted alice "M1" 72)
    ∷ []

perform_all-Kept_example : Kept (message_key alice "M1") text_row (perform_all digest ops db)
perform_all-Kept_example =
    perform_all-Kept digest ops db (message_key alice "M1") text_row message_stored

abbrev alice_jid : Jid
alice_jid = record {
  user = "alice";
  server = "s.whatsapp.net";
  text = alice;
  bare = alice;
  is_nothing = false;
}

abbrev nobody : Jid
nobody = record { user = ""; server = ""; text = ""; bare = ""; is_nothing = true }

abbrev library : Library
library = record {
  group_server = "g.us";
  default_user_server = "s.whatsapp.net";
  hidden_user_server = "lid";
  parse_jid = λ s. if is_empty s then none else some (record alice_jid { text = s; bare = s });
  hash_option = digest;
}

abbrev content : Content
content = record {
  conversation = "again";
  extended_text = none;
  image = none;
  video = none;
  audio = none;
  document = none;
  sticker = none;
  polls = [];
}

abbrev text_envelope : Envelope
text_envelope = record {
  content = content;
  wrapped_poll = none;
  protocol = none;
  reaction = none;
  poll_update = none;
}

abbrev info : MessageInfo
info = record {
  id = "M2";
  chat = alice_jid;
  sender = alice_jid;
  sender_alt = nobody;
  push_name = "Al";
  verified_name = none;
  timestamp = 90;
  is_from_me = false;
  is_group = false;
}

abbrev text_event : MessageEvent
text_event = record { info = info; envelope = some text_envelope; is_edit = false }

abbrev ingestor : Ingestor
ingestor = record {
  db = db;
  last_event_ts = 0;
  mark_read = 0;
  pin = 0;
  archive = 0;
  contact = 0;
  poll_decrypter = none;
}

handle_events-Kept_example :
    Kept
      (message_key alice "M1")
      text_row
      (handle_events library
        ((91, Event.message (some text_event)) ∷ (92, Event.pin alice_jid true) ∷ [])
        ingestor).db
handle_events-Kept_example =
    handle_events-Kept library
      ((91, Event.message (some text_event)) ∷ (92, Event.pin alice_jid true) ∷ []) ingestor
      (message_key alice "M1") text_row message_stored

message_resets_chat_example :
    (row : ChatRow) × (chat_at alice (handle_message library 91 (some text_event) ingestor).db
      ≡ some row)
    × (row.pinned ≡ false)
    × (row.archived ≡ false)
    × (row.muted_until ≡ 0)
    × (row.unread_count ≡ 0)
    × (row.last_message_ts ≡ max 50 90)
message_resets_chat_example =
    message_resets_chat library 91 text_event text_envelope ingestor stored_chat refl refl refl refl
      refl refl chat_stored

abbrev thumb_envelope : Envelope
thumb_envelope = record text_envelope {
  reaction = some (record {
    key = some (record { id = "M1"; remote_jid = alice; participant = ""; from_me = false });
    text = "+";
    sender_timestamp_ms = 95000;
  });
}

abbrev thumb_event : MessageEvent
thumb_event = record text_event { envelope = some thumb_envelope }

reaction_or_vote_keeps_messages_example :
    SameChats ingestor (handle_message library 96 (some thumb_event) ingestor)
reaction_or_vote_keeps_messages_example =
    reaction_or_vote_keeps_messages library 96 thumb_event thumb_envelope ingestor refl refl refl
      refl refl
