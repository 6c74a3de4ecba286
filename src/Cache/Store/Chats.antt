-- ===== src/Cache/Store/Chats.antt =====
-- internal/cache/upsert.go: the rows of the chats.
use whatsapp_mcp_docker.Base.{
  ℕ, max, String, ◌≡◌, refl, ◌∙◌, inl, inr, Bool, true, false, Option, none, some, List, [], ◌∷◌,
  arith, eq_iff, str_eq, if◌then◌else◌, str_eq_refl, Bool-cases,
}
use whatsapp_mcp_docker.Base.Keys.{string_eq}
use whatsapp_mcp_docker.Cache.Table.{find, find-upsert, merged}
use whatsapp_mcp_docker.Cache.Models.{Chat, ChatRow, Db}
use whatsapp_mcp_docker.Cache.Store.{
  is_empty, is_unset, chat_row, merge_chat, upsert_chat, set_chat_pinned, set_chat_archived,
  set_chat_unread,
}

abbrev pub chat_at : String → Db → Option ChatRow
chat_at jid db = find jid db.chats

pub chat_at-upsert_chat :
    (now : ℕ) (c : Chat) (db : Db) (j : String)
    → is_empty c.jid ≡ false
    → chat_at j (upsert_chat now c db).1 ≡ (
        if str_eq c.jid j
        then some (merged (chat_row now c) (merge_chat now c) (chat_at c.jid db))
        else chat_at j db)
unfolding upsert_chat
chat_at-upsert_chat now c db j h = rw h (find-upsert c.jid j _ _ db.chats)

-- An upsert of a stored chat keeps the row: its last message time is the later of the two, a name or
-- a type that is known is not replaced by an empty one, and no other chat's row changes.
pub upsert_chat_keeps :
    (now : ℕ) (c : Chat) (db : Db) (row : ChatRow)
    → is_empty c.jid ≡ false
    → chat_at c.jid db ≡ some row
    → (row' : ChatRow) × (chat_at c.jid (upsert_chat now c db).1 ≡ some row')
      × (row'.last_message_ts ≡ max row.last_message_ts c.last_message_ts)
      × (row'.name ≡ (if is_empty c.name then row.name else c.name))
      × (row'.chat_type ≡ (if is_unset c.chat_type then row.chat_type else c.chat_type))
      × ((j : String)
          → chat_at j (upsert_chat now c db).1
            ≡ (if str_eq c.jid j then some row' else chat_at j db))
upsert_chat_keeps now c db row h e = (
  merge_chat now c row,
  ground (arith, chat_at-upsert_chat now c db c.jid h, eq_iff c.jid c.jid),
  refl,
  refl,
  refl,
  λ j. chat_at-upsert_chat now c db j h ∙ rw e refl,
)

-- The chats of a stream of upserts, each with the time of its write.
abbrev pub upsert_chats : List (ℕ × Chat) → Db → Db
upsert_chats [] db = db
upsert_chats ((now, c) ∷ rest) db = upsert_chats rest (upsert_chat now c db).1

abbrev pub ts_of : Option ChatRow → ℕ
ts_of none = 0
ts_of (some row) = row.last_message_ts

-- The latest time that a stream gives for a chat.
abbrev pub latest : String → List (ℕ × Chat) → ℕ
latest jid [] = 0
latest jid ((now, c) ∷ rest) =
    max (if str_eq c.jid jid then c.last_message_ts else 0) (latest jid rest)

upsert_chat_empty :
    (now : ℕ) (c : Chat) (db : Db) → is_empty c.jid ≡ true → (upsert_chat now c db).1 ≡ db
unfolding upsert_chat
upsert_chat_empty now c db h = rw h

ts_of-upsert_chat :
    (now : ℕ) (c : Chat) (db : Db) (jid : String)
    → is_empty jid ≡ false
    → ts_of (chat_at jid (upsert_chat now c db).1)
      ≡ max (ts_of (chat_at jid db)) (if str_eq c.jid jid then c.last_message_ts else 0)
ts_of-upsert_chat now c db jid h = elim (Bool-cases (is_empty c.jid)) [
  | inl e ↦ ground (arith, upsert_chat_empty now c db e, eq_iff c.jid jid)
  | inr e ↦ ground (arith, chat_at-upsert_chat now c db jid e, eq_iff c.jid jid)
]

-- After any stream of upserts the last message time of a chat is the latest time among what was stored
-- and what the stream gives for it, in whatever order the upserts came.
pub upsert_chats-latest :
    (cs : List (ℕ × Chat)) (db : Db) (jid : String)
    → is_empty jid ≡ false
    → ts_of (chat_at jid (upsert_chats cs db)) ≡ max (ts_of (chat_at jid db)) (latest jid cs)
upsert_chats-latest [] db jid h = omega arith
upsert_chats-latest ((now, c) ∷ rest) db jid h = omega (
  arith,
  upsert_chats-latest rest (upsert_chat now c db).1 jid h,
  ts_of-upsert_chat now c db jid h,
)

-- Pinning, archiving and marking a stored chat as unread each change that column and the time of the
-- update, and nothing else of the row.
pub set_chat_flags :
    (now : ℕ) (jid : String) (is_group flag : Bool) (db : Db) (row : ChatRow)
    → is_empty jid ≡ false
    → chat_at jid db ≡ some row
    → (chat_at jid (set_chat_pinned now jid is_group flag db).1
        ≡ some (record row { pinned = flag; updated_at = now }))
      × (chat_at jid (set_chat_archived now jid is_group flag db).1
          ≡ some (record row { archived = flag; updated_at = now }))
      × (chat_at jid (set_chat_unread now jid is_group flag db).1
          ≡ some (record row { unread_count = if flag then 1 else 0; updated_at = now }))
unfolding set_chat_pinned set_chat_archived set_chat_unread
set_chat_flags now jid is_group flag db row h e = rw h (
  find-upsert jid jid _ _ db.chats ∙ rw (str_eq_refl jid) (rw e refl),
  find-upsert jid jid _ _ db.chats ∙ rw (str_eq_refl jid) (rw e refl),
  find-upsert jid jid _ _ db.chats ∙ rw (str_eq_refl jid) (rw e refl),
)
