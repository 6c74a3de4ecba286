-- ===== src/Cache/Operations.antt =====
-- internal/cache/upsert.go and polls.go: the writes of the cache as one type, and sequences of them.
use whatsapp_mcp_docker.Base.{
  ℕ, String, ◌≡◌, refl, ap, ◌∙◌, inl, inr, Bool, true, false, ◌||◌, Option, some, List, [], ◌∷◌,
  arith, Bool-cases,
}
use whatsapp_mcp_docker.Base.Keys.{Key2, key2_eq}
use whatsapp_mcp_docker.Cache.Table.{find, find-upsert_keep, find-modify_either}
use whatsapp_mcp_docker.Cache.Models.{
  Chat, Contact, Nickname, Message, MessageRow, Reaction, Poll, PollVote, Db,
}
use whatsapp_mcp_docker.Cache.Store.{
  Write, is_empty, message_key, upsert_chat, set_chat_pinned, set_chat_archived, set_chat_unread,
  insert_message, mark_message_edited, mark_message_deleted, upsert_reaction, delete_reaction,
}
use whatsapp_mcp_docker.Cache.Contacts.{
  upsert_contact, upsert_jid_alias, upsert_nickname, delete_nickname, upsert_presence,
}
use whatsapp_mcp_docker.Cache.Polls.{upsert_poll, upsert_poll_vote}

pub data Op : Type 0 where
  chat : Chat → Op
  pinned archived unread : String → Bool → Bool → Op
  contact : Contact → Op
  jid_alias : String → String → Op
  nickname : Nickname → Op
  no_nickname : String → Op
  message : Message → Op
  edited : String → String → String → ℕ → Op
  deleted : String → String → ℕ → Op
  reaction : Reaction → Op
  no_reaction : String → String → String → Op
  presence : String → Bool → ℕ → Op
  poll : Poll → Op
  vote : PollVote → Op

unfoldable pub perform : (String → String) → ℕ → Op → Write
perform hash_option now (chat c) = upsert_chat now c
perform hash_option now (pinned jid g b) = set_chat_pinned now jid g b
perform hash_option now (archived jid g b) = set_chat_archived now jid g b
perform hash_option now (unread jid g b) = set_chat_unread now jid g b
perform hash_option now (contact c) = upsert_contact now c
perform hash_option now (jid_alias lid pn) = upsert_jid_alias now lid pn
perform hash_option now (nickname n) = upsert_nickname now n
perform hash_option now (no_nickname jid) = delete_nickname jid
perform hash_option now (message m) = insert_message m
perform hash_option now (edited chat_jid id body at) = mark_message_edited chat_jid id body at
perform hash_option now (deleted chat_jid id at) = mark_message_deleted chat_jid id at
perform hash_option now (reaction r) = upsert_reaction r
perform hash_option now (no_reaction chat_jid target sender) =
    delete_reaction chat_jid target sender
perform hash_option now (presence jid online seen) = upsert_presence now jid online seen
perform hash_option now (poll p) = upsert_poll hash_option now p
perform hash_option now (vote v) = upsert_poll_vote v

-- A sequence of writes, each with its time; errors do not stop it.
abbrev pub perform_all : (String → String) → List (ℕ × Op) → Db → Db
perform_all hash_option [] db = db
perform_all hash_option ((now, op) ∷ rest) db =
    perform_all hash_option rest (perform hash_option now op db).1

-- What stays of a stored message: all but its body and the marks of an edit and of a deletion. The
-- marks are never taken back.
abbrev pub SameMessage : MessageRow → MessageRow → Type 0
SameMessage a b =
    (b.sender_jid ≡ a.sender_jid)
    × (b.sender_push_name ≡ a.sender_push_name)
    × (b.ts ≡ a.ts)
    × (b.kind ≡ a.kind)
    × (b.reply_to_id ≡ a.reply_to_id)
    × (b.is_from_me ≡ a.is_from_me)
    × (b.media ≡ a.media)
    × (b.edited ≡ (a.edited || b.edited))
    × (b.deleted ≡ (a.deleted || b.deleted))

abbrev pub message_at : Key2 → Db → Option MessageRow
message_at k db = find k db.messages

-- The message `a` under `k` is still there.
abbrev pub Kept : Key2 → MessageRow → Db → Type 0
Kept k a db = (b : MessageRow) × (message_at k db ≡ some b) × SameMessage a b

or_self : (b : Bool) → b ≡ (b || b)
or_self b = ground arith

or_true : (b : Bool) → true ≡ (b || true)
or_true b = ground arith

or_trans : (a b c : Bool) → b ≡ (a || b) → c ≡ (b || c) → c ≡ (a || c)
or_trans a b c p q = ground arith

same_self : (a : MessageRow) → SameMessage a a
same_self a = (refl, refl, refl, refl, refl, refl, refl, or_self a.edited, or_self a.deleted)

SameMessage-trans : (a b c : MessageRow) → SameMessage a b → SameMessage b c → SameMessage a c
SameMessage-trans a b c p q = (
  q.0 ∙ p.0,
  q.1 ∙ p.1,
  q.2 ∙ p.2,
  q.3 ∙ p.3,
  q.4 ∙ p.4,
  q.5 ∙ p.5,
  q.6 ∙ p.6,
  or_trans a.edited b.edited c.edited p.7 q.7,
  or_trans a.deleted b.deleted c.deleted p.8 q.8,
)

Kept-insert :
    (m : Message) (db : Db) (k : Key2) (a : MessageRow)
    → message_at k db ≡ some a
    → Kept k a (insert_message m db).1
unfolding insert_message
Kept-insert m db k a h = elim (Bool-cases (is_empty m.chat_jid || is_empty m.id)) [
  | inl e ↦ rw e (a, h, same_self a)
  | inr e ↦ rw e (a, find-upsert_keep (message_key m.chat_jid m.id) k _ db.messages h, same_self a)
]

Kept-edited :
    (chat_jid id body : String) (at : ℕ) (db : Db) (k : Key2) (a : MessageRow)
    → message_at k db ≡ some a
    → Kept k a (mark_message_edited chat_jid id body at db).1
unfolding mark_message_edited
Kept-edited chat_jid id body at db k a h =
    let f : MessageRow → MessageRow =
      λ row. record row { body = body; edited = true; edited_at = at } in
    elim (find-modify_either (message_key chat_jid id) k f db.messages h) [
      | inl e ↦ (a, e, same_self a)
      | inr e ↦
          (f a, e, (refl, refl, refl, refl, refl, refl, refl, or_true a.edited, or_self a.deleted))
    ]

Kept-deleted :
    (chat_jid id : String) (at : ℕ) (db : Db) (k : Key2) (a : MessageRow)
    → message_at k db ≡ some a
    → Kept k a (mark_message_deleted chat_jid id at db).1
unfolding mark_message_deleted
Kept-deleted chat_jid id at db k a h =
    let f : MessageRow → MessageRow =
      λ row. record row { body = ""; deleted = true; deleted_at = at } in
    elim (find-modify_either (message_key chat_jid id) k f db.messages h) [
      | inl e ↦ (a, e, same_self a)
      | inr e ↦
          (f a, e, (refl, refl, refl, refl, refl, refl, refl, or_self a.edited, or_true a.deleted))
    ]

-- A write to another table.
elsewhere :
    (k : Key2) (a : MessageRow) (db db' : Db)
    → db'.messages ≡ db.messages
    → message_at k db ≡ some a
    → Kept k a db'
elsewhere k a db db' same h = (a, ap (find k) same ∙ h, same_self a)

abbrev is_message_op : Op → Bool
is_message_op (message m) = true
is_message_op (edited chat_jid id body at) = true
is_message_op (deleted chat_jid id at) = true
is_message_op _ = false

messages_untouched :
    (hash_option : String → String) (now : ℕ) (op : Op) (db : Db)
    → is_message_op op ≡ false
    → (perform hash_option now op db).1.messages ≡ db.messages
unfolding perform upsert_chat set_chat_pinned set_chat_archived set_chat_unread upsert_contact
    upsert_jid_alias upsert_nickname delete_nickname upsert_reaction delete_reaction upsert_presence
    upsert_poll upsert_poll_vote
messages_untouched hash_option now (message m) db h = cc
messages_untouched hash_option now _ db h = ground arith

perform-Kept :
    (hash_option : String → String) (now : ℕ) (op : Op) (db : Db) (k : Key2) (a : MessageRow)
    → message_at k db ≡ some a
    → Kept k a (perform hash_option now op db).1
unfolding perform
perform-Kept hash_option now (message m) db k a h = Kept-insert m db k a h
perform-Kept hash_option now (edited chat_jid id body at) db k a h =
    Kept-edited chat_jid id body at db k a h
perform-Kept hash_option now (deleted chat_jid id at) db k a h =
    Kept-deleted chat_jid id at db k a h
perform-Kept hash_option now op db k a h =
    elsewhere k a db (perform hash_option now op db).1
      (messages_untouched hash_option now op db refl) h

-- No sequence of the cache's writes removes a stored message or changes its sender, time, kind, reply
-- target, direction or media, and none takes back its mark of an edit or of a deletion: only the body
-- and the times of those marks can change.
pub perform_all-Kept :
    (hash_option : String → String) (ops : List (ℕ × Op)) (db : Db) (k : Key2) (a : MessageRow)
    → message_at k db ≡ some a
    → Kept k a (perform_all hash_option ops db)
perform_all-Kept hash_option [] db k a h = (a, h, same_self a)
perform_all-Kept hash_option ((now, op) ∷ rest) db k a h =
    let (b, hb, ab) = perform-Kept hash_option now op db k a h in
    let (c, hc, bc) = perform_all-Kept hash_option rest _ k b hb in
    (c, hc, SameMessage-trans a b c ab bc)
