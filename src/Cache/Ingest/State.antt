-- ===== src/Cache/Ingest/State.antt =====
-- internal/cache/handler.go: the ingestor's state and the events that it reads. A JID stands for what the library's methods answer
-- of it. Errors of the cache's writes are logged by the code and change nothing, so a handler here drops
-- them, but where the code branches on one.
use whatsapp_mcp_docker.Base.{ℕ, String, Bool, true, false, Option, List, Bytes}
use whatsapp_mcp_docker.Cache.Models.{Db}
use whatsapp_mcp_docker.Cache.Store.{Write}
use whatsapp_mcp_docker.Cache.Envelope.{Envelope}

pub record Jid : Type 0 where
  pub user : String
  pub server : String
  pub text : String  -- String()
  pub bare : String  -- ToNonAD().String()
  pub is_nothing : Bool  -- IsEmpty()

-- What the code uses of the library: the servers of JIDs, their parser, and a poll option's digest.
pub record Library : Type 0 where
  pub group_server : String
  pub default_user_server : String
  pub hidden_user_server : String
  pub parse_jid : String → Option Jid
  pub hash_option : String → String

pub record MessageInfo : Type 0 where
  pub id : String
  pub chat : Jid
  pub sender : Jid
  pub sender_alt : Jid
  pub push_name : String
  pub verified_name : Option String
  pub timestamp : ℕ
  pub is_from_me : Bool
  pub is_group : Bool

pub record MessageEvent : Type 0 where
  pub info : MessageInfo
  pub envelope : Option Envelope
  pub is_edit : Bool

pub record Ingestor : Type 0 where
  pub db : Db
  pub last_event_ts : ℕ
  pub mark_read : ℕ
  pub pin : ℕ
  pub archive : ℕ
  pub contact : ℕ
  pub poll_decrypter : Option (MessageEvent → Option (List Bytes))

-- A write whose error is only logged.
abbrev pub write : Write → Ingestor → Ingestor
write w i = record i { db = (w i.db).1 }

-- i.store.Xxx(…) only under a condition
abbrev pub write_if : Bool → Write → Ingestor → Ingestor
write_if true w i = write w i
write_if false w i = i
