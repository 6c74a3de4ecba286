-- ===== src/Cache/Ingest/Chats.antt =====
-- internal/cache/handler.go: the handlers of contact, group, newsletter, app-state and presence events.
use whatsapp_mcp_docker.Base.{
  ℕ, ◌+◌, String, Bool, true, not, Option, none, some, str_eq, if◌then◌else◌,
}
use whatsapp_mcp_docker.Cache.Models.{ChatType, bare_chat, bare_contact}
use whatsapp_mcp_docker.Cache.Store.{
  is_empty, upsert_chat, set_chat_pinned, set_chat_archived, set_chat_unread,
}
use whatsapp_mcp_docker.Cache.Contacts.{upsert_contact, upsert_presence}
use whatsapp_mcp_docker.Cache.Ingest.State.{Jid, Library, Ingestor, write}

-- `action` is the full and the first name of a contact's action, if it has one.
pub record ContactAction : Type 0 where
  pub full_name : String
  pub first_name : String

pub record GroupEvent : Type 0 where
  pub jid : Jid
  pub name : String  -- empty where the event has none
  pub timestamp : ℕ
  pub is_parent : Bool

module _ (lib : Library) (now : ℕ) where
  unfoldable pub handle_contact : Jid → Option ContactAction → Ingestor → Ingestor
  handle_contact jid none i = i
  handle_contact jid (some action) i =
      let j = record i { contact = i.contact + 1 } in
      if is_empty jid.bare
      then j
      else write
          (upsert_contact now (record (bare_contact jid.bare) {
            full_name = action.full_name;
            first_name = action.first_name;
          }))
          j

  unfoldable pub handle_push_name : Jid → String → Ingestor → Ingestor
  handle_push_name jid name i =
      if is_empty jid.bare
      then i
      else write (upsert_contact now (record (bare_contact jid.bare) { push_name = name })) i

  unfoldable pub handle_business_name : Jid → String → Ingestor → Ingestor
  handle_business_name jid name i =
      if is_empty jid.bare
      then i
      else write (upsert_contact now (record (bare_contact jid.bare) { business_name = name })) i

  unfoldable pub handle_group_info : GroupEvent → Ingestor → Ingestor
  handle_group_info e i =
      write
        (upsert_chat now (record (bare_chat e.jid.text) {
          is_group = true;
          name = e.name;
          last_message_ts = e.timestamp;
        }))
        i

  unfoldable pub handle_joined_group : GroupEvent → Ingestor → Ingestor
  handle_joined_group e i =
      if is_empty e.jid.user
      then i
      else write
          (upsert_chat now (record (bare_chat e.jid.text) {
            is_group = true;
            chat_type = if e.is_parent then ChatType.community else ChatType.group;
            name = e.name;
            last_message_ts = e.timestamp;
          }))
          i

  unfoldable pub handle_newsletter_join : Jid → String → ℕ → Ingestor → Ingestor
  handle_newsletter_join jid name created i =
      if is_empty jid.user
      then i
      else write
          (upsert_chat now (record (bare_chat jid.text) {
            chat_type = ChatType.newsletter;
            name = name;
            last_message_ts = created;
          }))
          i

  unfoldable pub handle_newsletter_leave : Jid → Ingestor → Ingestor
  handle_newsletter_leave jid i =
      if is_empty jid.user
      then i
      else write (upsert_chat now (record (bare_chat jid.text) { chat_type = ChatType.newsletter }))
          i

  abbrev pub is_group_jid : Jid → Bool
  is_group_jid jid = str_eq jid.server lib.group_server

  -- In the next three the flag is that of the event's action, and false where it has none.
  unfoldable pub handle_mark_chat_as_read : Jid → Bool → Ingestor → Ingestor
  handle_mark_chat_as_read jid read i =
      if is_empty jid.user
      then i
      else write (set_chat_unread now jid.text (is_group_jid jid) (not read))
          (record i { mark_read = i.mark_read + 1 })

  unfoldable pub handle_pin : Jid → Bool → Ingestor → Ingestor
  handle_pin jid pinned i =
      if is_empty jid.user
      then i
      else write (set_chat_pinned now jid.text (is_group_jid jid) pinned)
          (record i { pin = i.pin + 1 })

  unfoldable pub handle_archive : Jid → Bool → Ingestor → Ingestor
  handle_archive jid archived i =
      if is_empty jid.user
      then i
      else write (set_chat_archived now jid.text (is_group_jid jid) archived)
          (record i { archive = i.archive + 1 })

  unfoldable pub handle_star : Jid → Ingestor → Ingestor
  handle_star jid i =
      if is_empty jid.user
      then i
      else write (upsert_chat now (record (bare_chat jid.text) { is_group = is_group_jid jid })) i

  unfoldable pub handle_presence : Jid → Bool → ℕ → Ingestor → Ingestor
  handle_presence jid unavailable last_seen i =
      if is_empty jid.user
      then i
      else write (upsert_presence now jid.bare (not unavailable) last_seen) i
