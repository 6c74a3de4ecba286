-- ===== src/Cache/Ingest/Dispatch.antt =====
-- internal/cache/handler.go, `HandleEvent`. The pointers that the library passes are taken to be set, but where the payload can
-- be missing; an event of another type is `other`.
use whatsapp_mcp_docker.Base.{ℕ, String, Bool, Option, List}
use whatsapp_mcp_docker.Cache.Ingest.State.{Jid, Library, MessageEvent, Ingestor}
use whatsapp_mcp_docker.Cache.Ingest.Live.{handle_message}
use whatsapp_mcp_docker.Cache.Ingest.History.{Conversation, handle_history_sync}
use whatsapp_mcp_docker.Cache.Ingest.Chats.{
  ContactAction, GroupEvent, handle_contact, handle_push_name, handle_business_name,
  handle_group_info, handle_joined_group, handle_newsletter_join, handle_newsletter_leave,
  handle_mark_chat_as_read, handle_pin, handle_archive, handle_star, handle_presence,
}

pub data Event : Type 0 where
  message : Option MessageEvent → Event
  history_sync : Option (List (Option Conversation)) → Event
  contact : Jid → Option ContactAction → Event
  push_name business_name : Jid → String → Event
  group_info joined_group : GroupEvent → Event
  newsletter_join : Jid → String → ℕ → Event
  newsletter_leave star : Jid → Event
  mark_chat_as_read pin archive : Jid → Bool → Event
  presence : Jid → Bool → ℕ → Event
  other : Event

abbrev pub seen_at : ℕ → Ingestor → Ingestor
seen_at now i = record i { last_event_ts = now }

unfoldable pub handle_event : Library → ℕ → Event → Ingestor → Ingestor
handle_event lib now (message evt) i = seen_at now (handle_message lib now evt i)
handle_event lib now (history_sync convs) i = seen_at now (handle_history_sync lib now convs i)
handle_event lib now (contact jid action) i = seen_at now (handle_contact lib now jid action i)
handle_event lib now (push_name jid name) i = seen_at now (handle_push_name lib now jid name i)
handle_event lib now (business_name jid name) i =
    seen_at now (handle_business_name lib now jid name i)
handle_event lib now (group_info e) i = seen_at now (handle_group_info lib now e i)
handle_event lib now (joined_group e) i = seen_at now (handle_joined_group lib now e i)
handle_event lib now (newsletter_join jid name created) i =
    seen_at now (handle_newsletter_join lib now jid name created i)
handle_event lib now (newsletter_leave jid) i = seen_at now (handle_newsletter_leave lib now jid i)
handle_event lib now (mark_chat_as_read jid read) i =
    seen_at now (handle_mark_chat_as_read lib now jid read i)
handle_event lib now (pin jid pinned) i = seen_at now (handle_pin lib now jid pinned i)
handle_event lib now (archive jid archived) i = seen_at now (handle_archive lib now jid archived i)
handle_event lib now (star jid) i = seen_at now (handle_star lib now jid i)
handle_event lib now (presence jid unavailable last_seen) i =
    seen_at now (handle_presence lib now jid unavailable last_seen i)
handle_event lib now other i = i
