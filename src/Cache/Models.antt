-- ===== src/Cache/Models.antt =====
-- internal/cache/models.go and polls.go: the rows of the cache. A time is in unix seconds, 0 for Go's zero time.
use whatsapp_mcp_docker.Base.{
  ℕ, String, Bool, false, Option, List, [], if◌then◌else◌, Bytes, codes, has_prefix,
}
use mathlib.Core.List.{reverse}
use whatsapp_mcp_docker.Base.Keys.{Key2, Key3}
use whatsapp_mcp_docker.Cache.Table.{Table, empty}

-- `unset` is the empty string: the caller does not know.
pub data ChatType : Type 0 where
  unset direct group newsletter community : ChatType

pub record Chat : Type 0 where
  pub jid : String
  pub name : String
  pub is_group : Bool
  pub chat_type : ChatType
  pub last_message_ts : ℕ
  pub unread_count : ℕ
  pub archived : Bool
  pub pinned : Bool
  pub muted_until : ℕ

-- The chat that Go's zero value is, with its JID.
abbrev pub bare_chat : String → Chat
bare_chat jid = record {
  jid = jid;
  name = "";
  is_group = false;
  chat_type = ChatType.unset;
  last_message_ts = 0;
  unread_count = 0;
  archived = false;
  pinned = false;
  muted_until = 0;
}

-- strings.HasSuffix
abbrev has_suffix : Bytes → Bytes → Bool
has_suffix suffix s = has_prefix (reverse suffix) (reverse s)

unfoldable pub derive_chat_type : String → Bool → ChatType
derive_chat_type jid is_group =
    if has_suffix (codes "@newsletter") (codes jid)
    then ChatType.newsletter
    else if is_group
    then ChatType.group
    else ChatType.direct

pub record Contact : Type 0 where
  pub jid : String
  pub push_name : String
  pub business_name : String
  pub first_name : String
  pub full_name : String

abbrev pub bare_contact : String → Contact
bare_contact jid = record {
  jid = jid;
  push_name = "";
  business_name = "";
  first_name = "";
  full_name = "";
}

pub record Nickname : Type 0 where
  pub jid : String
  pub nickname : String
  pub note : String

-- `unset` is the empty kind, which is stored as text.
pub data MessageKind : Type 0 where
  unset text image video audio document sticker poll other : MessageKind

pub record Media : Type 0 where
  pub mime : String
  pub filename : String
  pub url : String
  pub direct_path : String
  pub key : Bytes
  pub sha256 : Bytes
  pub enc_sha256 : Bytes
  pub length : ℕ

abbrev pub no_media : Media
no_media = record {
  mime = "";
  filename = "";
  url = "";
  direct_path = "";
  key = [];
  sha256 = [];
  enc_sha256 = [];
  length = 0;
}

pub record Message : Type 0 where
  pub id : String
  pub chat_jid : String
  pub sender_jid : String
  pub sender_push_name : String
  pub timestamp : ℕ
  pub kind : MessageKind
  pub body : String
  pub reply_to_id : String
  pub is_from_me : Bool
  pub media : Option Media

-- The time is in milliseconds, 0 for none; the rows have seconds.
pub record Reaction : Type 0 where
  pub chat_jid : String
  pub target_id : String
  pub sender_jid : String
  pub emoji : String
  pub timestamp : ℕ
  pub is_from_me : Bool

pub record PollOption : Type 0 where
  pub name : String
  pub hash : String

pub record Poll : Type 0 where
  pub chat_jid : String
  pub message_id : String
  pub question : String
  pub options : List PollOption
  pub selectable_count : ℕ
  pub sender_jid : String
  pub is_from_me : Bool
  pub timestamp : ℕ

-- The time is in milliseconds, 0 for none; the rows have seconds.
pub record PollVote : Type 0 where
  pub chat_jid : String
  pub poll_message_id : String
  pub voter_jid : String
  pub selected_hashes : List String
  pub timestamp : ℕ

-- The rows of the database's tables, without their keys.
pub record ChatRow : Type 0 where
  pub name : String
  pub is_group : Bool
  pub chat_type : ChatType
  pub last_message_ts : ℕ
  pub unread_count : ℕ
  pub archived : Bool
  pub pinned : Bool
  pub muted_until : ℕ
  pub updated_at : ℕ

pub record ContactRow : Type 0 where
  pub push_name : String
  pub business_name : String
  pub first_name : String
  pub full_name : String
  pub updated_at : ℕ
  pub presence_online : Bool
  pub presence_last_seen_ts : ℕ
  pub presence_updated_at : ℕ

pub record NicknameRow : Type 0 where
  pub nickname : String
  pub note : String
  pub updated_at : ℕ

pub record MessageRow : Type 0 where
  pub sender_jid : String
  pub sender_push_name : String
  pub ts : ℕ
  pub kind : MessageKind
  pub body : String
  pub reply_to_id : String
  pub is_from_me : Bool
  pub edited : Bool
  pub edited_at : ℕ
  pub deleted : Bool
  pub deleted_at : ℕ
  pub media : Media

pub record ReactionRow : Type 0 where
  pub emoji : String
  pub ts : ℕ
  pub is_from_me : Bool

pub record PollRow : Type 0 where
  pub question : String
  pub selectable_count : ℕ
  pub sender_jid : String
  pub is_from_me : Bool
  pub ts : ℕ
  pub updated_at : ℕ

pub record VoteRow : Type 0 where
  pub selected_hashes : List String
  pub ts : ℕ

-- A row of `poll_options`, whose key is the poll and the index.
pub record OptionRow : Type 0 where
  pub poll : Key2
  pub idx : ℕ
  pub name : String
  pub hash : String

-- The database. The indexes of a poll's options never clash, so its rows are a plain list.
pub record Db : Type 0 where
  pub chats : Table String ChatRow
  pub contacts : Table String ContactRow
  pub nicknames : Table String NicknameRow
  pub jid_aliases : Table Key2 ℕ
  pub messages : Table Key2 MessageRow
  pub reactions : Table Key3 ReactionRow
  pub polls : Table Key2 PollRow
  pub poll_options : List OptionRow
  pub poll_votes : Table Key3 VoteRow

abbrev pub empty_db : Db
empty_db = record {
  chats = empty;
  contacts = empty;
  nicknames = empty;
  jid_aliases = empty;
  messages = empty;
  reactions = empty;
  polls = empty;
  poll_options = [];
  poll_votes = empty;
}
