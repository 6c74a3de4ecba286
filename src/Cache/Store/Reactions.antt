-- ===== src/Cache/Store/Reactions.antt =====
-- internal/cache/upsert.go: the rows of the reactions.
use whatsapp_mcp_docker.Base.{◌≡◌, refl, ◌∙◌, false, Option, none, some}
use whatsapp_mcp_docker.Base.Keys.{Key3, key3_eq}
use whatsapp_mcp_docker.Cache.Table.{
  find, upsert, find-delete-upsert, find-delete_idem, find-upsert_self,
}
use whatsapp_mcp_docker.Cache.Models.{Reaction, ReactionRow, Db}
use whatsapp_mcp_docker.Cache.Store.{
  is_empty, reaction_key, reaction_row, newer_reaction, reaction_sender_key, upsert_reaction,
  delete_reaction,
}

-- The key under which a reaction is stored.
abbrev pub stored_key : Reaction → Key3
stored_key r = reaction_key r.chat_jid r.target_id (reaction_sender_key r.sender_jid r.is_from_me)

-- The reaction has what a write asks for.
abbrev pub IsStorable : Reaction → Type 0
IsStorable r =
    (is_empty r.chat_jid ≡ false) × (is_empty r.target_id ≡ false) × (is_empty r.emoji ≡ false)

abbrev pub reaction_at : Key3 → Db → Option ReactionRow
reaction_at k db = find k db.reactions

upsert_reaction_lem :
    (r : Reaction) (db : Db)
    → IsStorable r
    → (upsert_reaction r db).1 ≡ record db {
      reactions = upsert (stored_key r) (reaction_row r) (newer_reaction r) db.reactions;
    }
unfolding upsert_reaction
upsert_reaction_lem r db h = rw (h.0, h.1, h.2)

-- A stored reaction is shown until its removal, and a removal, at the key of the reaction, leaves none
-- there and touches no other; a second removal changes nothing.
pub delete_reaction_lem :
    (r : Reaction) (db : Db) (k : Key3)
    → IsStorable r
    → reaction_at (stored_key r) db ≡ none
    → let stored = (upsert_reaction r db).1 in
      let sender = reaction_sender_key r.sender_jid r.is_from_me in
      let removed = (delete_reaction r.chat_jid r.target_id sender stored).1 in
      (reaction_at (stored_key r) stored ≡ some (reaction_row r))
      × (reaction_at k removed ≡ reaction_at k db)
      × (reaction_at k (delete_reaction r.chat_jid r.target_id sender removed).1 ≡ reaction_at k db)
unfolding delete_reaction
delete_reaction_lem r db k h n =
    let fresh =
      find-delete-upsert (stored_key r) k (reaction_row r) (newer_reaction r) db.reactions n in
    rw (upsert_reaction_lem r db h, h.0, h.1)
      (
        find-upsert_self (stored_key r) _ _ db.reactions ∙ rw n refl,
        fresh,
        find-delete_idem (stored_key r) k _ ∙ fresh,
      )
