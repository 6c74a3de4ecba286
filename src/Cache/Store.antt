-- ===== src/Cache/Store.antt =====
-- internal/cache/upsert.go: the cache's writes. Each returns the error that it reports, if any, and the
-- database; an error leaves the database as it was. Failures of the database engine are not modelled.
pub mod Chats
pub mod Reactions
use whatsapp_mcp_docker.Base.{
  ℕ, ◌/◌, max, String, Bool, true, false, ◌||◌, Option, none, some, leb, str_eq, if◌then◌else◌,
}
use whatsapp_mcp_docker.Base.Keys.{Key2, Key3, string_eq, key2_eq, key3_eq}
use whatsapp_mcp_docker.Cache.Table.{find, upsert, modify, delete}
use whatsapp_mcp_docker.Cache.Models.{
  ChatType, Chat, MessageKind, Media, no_media, Message, Reaction, ChatRow, MessageRow, ReactionRow,
  Db, derive_chat_type,
}

pub data StoreError : Type 0 where
  key_required emoji_required no_rows : StoreError

abbrev pub Write : Type 0
Write = Db → Option StoreError × Db

abbrev pub is_empty : String → Bool
is_empty s = str_eq s ""

-- CASE WHEN excluded.x != '' THEN excluded.x ELSE stored.x END
abbrev pub keep_if_empty : String → String → String
keep_if_empty incoming stored = if is_empty incoming then stored else incoming

abbrev pub is_unset : ChatType → Bool
is_unset ChatType.unset = true
is_unset _ = false

-- The type of a fresh row.
abbrev pub effective_type : Chat → ChatType
effective_type c = if is_unset c.chat_type then derive_chat_type c.jid c.is_group else c.chat_type

abbrev pub chat_row : ℕ → Chat → ChatRow
chat_row now c = record {
  name = c.name;
  is_group = c.is_group;
  chat_type = effective_type c;
  last_message_ts = c.last_message_ts;
  unread_count = c.unread_count;
  archived = c.archived;
  pinned = c.pinned;
  muted_until = c.muted_until;
  updated_at = now;
}

-- ON CONFLICT(jid) DO UPDATE of `UpsertChat`
abbrev pub merge_chat : ℕ → Chat → ChatRow → ChatRow
merge_chat now c row = record {
  name = keep_if_empty c.name row.name;
  is_group = c.is_group;
  chat_type = if is_unset c.chat_type then row.chat_type else c.chat_type;
  last_message_ts = max row.last_message_ts c.last_message_ts;
  unread_count = c.unread_count;
  archived = c.archived;
  pinned = c.pinned;
  muted_until = c.muted_until;
  updated_at = now;
}

unfoldable pub upsert_chat : ℕ → Chat → Write
upsert_chat now c db =
    if is_empty c.jid
    then (some key_required, db)
    else (none, record db { chats = upsert c.jid (chat_row now c) (merge_chat now c) db.chats })

-- The row that the setters of one flag insert when there is none.
abbrev pub flag_row : ℕ → String → Bool → ChatRow
flag_row now jid is_group = record {
  name = "";
  is_group = is_group;
  chat_type = derive_chat_type jid is_group;
  last_message_ts = 0;
  unread_count = 0;
  archived = false;
  pinned = false;
  muted_until = 0;
  updated_at = now;
}

unfoldable pub set_chat_pinned : ℕ → String → Bool → Bool → Write
set_chat_pinned now jid is_group pinned db = if is_empty jid then (some key_required, db) else (
  none,
  record db {
    chats =
        upsert jid (record (flag_row now jid is_group) { pinned = pinned })
          (λ row. record row { pinned = pinned; updated_at = now }) db.chats;
  },
)

unfoldable pub set_chat_archived : ℕ → String → Bool → Bool → Write
set_chat_archived now jid is_group archived db = if is_empty jid then (some key_required, db) else (
  none,
  record db {
    chats =
        upsert jid (record (flag_row now jid is_group) { archived = archived })
          (λ row. record row { archived = archived; updated_at = now }) db.chats;
  },
)

unfoldable pub set_chat_unread : ℕ → String → Bool → Bool → Write
set_chat_unread now jid is_group unread db =
    let count : ℕ = if unread then 1 else 0 in
    if is_empty jid then (some key_required, db) else (
      none,
      record db {
        chats =
            upsert jid (record (flag_row now jid is_group) { unread_count = count })
              (λ row. record row { unread_count = count; updated_at = now }) db.chats;
      },
    )

abbrev pub stored_kind : MessageKind → MessageKind
stored_kind MessageKind.unset = MessageKind.text
stored_kind k = k

abbrev pub media_or_none : Option Media → Media
media_or_none none = no_media
media_or_none (some m) = m

abbrev pub message_row : Message → MessageRow
message_row m = record {
  sender_jid = m.sender_jid;
  sender_push_name = m.sender_push_name;
  ts = m.timestamp;
  kind = stored_kind m.kind;
  body = m.body;
  reply_to_id = m.reply_to_id;
  is_from_me = m.is_from_me;
  edited = false;
  edited_at = 0;
  deleted = false;
  deleted_at = 0;
  media = media_or_none m.media;
}

abbrev pub message_key : String → String → Key2
message_key chat_jid id = record { first = chat_jid; second = id }

-- ON CONFLICT(chat_jid, id) DO NOTHING
unfoldable pub insert_message : Message → Write
insert_message m db = if is_empty m.chat_jid || is_empty m.id then (some key_required, db) else (
  none,
  record db {
    messages = upsert (message_key m.chat_jid m.id) (message_row m) (λ row. row) db.messages;
  },
)

-- `sql.ErrNoRows` when the update found no row.
abbrev pub no_rows_if_absent {ℓ} : {A : Type ℓ} → Option A → Option StoreError
no_rows_if_absent none = some no_rows
no_rows_if_absent (some a) = none

unfoldable pub mark_message_edited : String → String → String → ℕ → Write
mark_message_edited chat_jid id new_body edited_at db =
    let k = message_key chat_jid id in
    (
      no_rows_if_absent (find k db.messages),
      record db {
        messages =
            modify k (λ row. record row { body = new_body; edited = true; edited_at = edited_at })
              db.messages;
      },
    )

unfoldable pub mark_message_deleted : String → String → ℕ → Write
mark_message_deleted chat_jid id deleted_at db =
    let k = message_key chat_jid id in
    (
      no_rows_if_absent (find k db.messages),
      record db {
        messages =
            modify k (λ row. record row { body = ""; deleted = true; deleted_at = deleted_at })
              db.messages;
      },
    )

unfoldable pub reaction_sender_key : String → Bool → String
reaction_sender_key sender_jid is_from_me = if is_from_me then "" else sender_jid

abbrev pub reaction_key : String → String → String → Key3
reaction_key chat_jid target_id sender = record {
  first = chat_jid;
  second = target_id;
  third = sender;
}

-- unixSeconds
abbrev pub unix_seconds : ℕ → ℕ
unix_seconds ms = ms / 1000

abbrev pub reaction_row : Reaction → ReactionRow
reaction_row r = record {
  emoji = r.emoji;
  ts = unix_seconds r.timestamp;
  is_from_me = r.is_from_me;
}

-- DO UPDATE … WHERE excluded.ts >= reactions.ts
abbrev pub newer_reaction : Reaction → ReactionRow → ReactionRow
newer_reaction r row = if leb row.ts (unix_seconds r.timestamp) then reaction_row r else row

unfoldable pub upsert_reaction : Reaction → Write
upsert_reaction r db =
    if is_empty r.chat_jid || is_empty r.target_id
    then (some key_required, db)
    else if is_empty r.emoji
    then (some emoji_required, db)
    else (
      none,
      record db {
        reactions =
            upsert
              (reaction_key r.chat_jid r.target_id (reaction_sender_key r.sender_jid r.is_from_me))
              (reaction_row r) (newer_reaction r) db.reactions;
      },
    )

unfoldable pub delete_reaction : String → String → String → Write
delete_reaction chat_jid target_id sender_jid db =
    if is_empty chat_jid || is_empty target_id then (some key_required, db) else (
      none,
      record db { reactions = delete (reaction_key chat_jid target_id sender_jid) db.reactions },
    )
