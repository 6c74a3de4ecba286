-- ===== src/Wa/Events.antt =====
-- internal/wa/events.go: lifecycle states and events, and the raw events that the dispatcher reads.
use whatsapp_mcp_docker.Base.{ℕ, String}

pub data State : Type 0 where
  not_paired connecting connected disconnected logged_out stream_replaced : State

pub data EventType : Type 0 where
  connected disconnected logged_out stream_replaced temporary_ban connection_failure : EventType

-- Only the fields that belong to the type are set; the others are zero.
pub record Event : Type 0 where
  pub event_type : EventType
  pub timestamp : ℕ
  pub ban_expire : ℕ
  pub ban_code : ℕ
  pub failure_reason : ℕ
  pub failure_message : String

-- The events of the WhatsApp library that `handle` tells apart, and all others.
pub data RawEvent : Type 0 where
  connected disconnected stream_replaced : RawEvent
  logged_out : ℕ → RawEvent
  temporary_ban : ℕ → ℕ → RawEvent
  connect_failure : ℕ → String → RawEvent
  other : RawEvent

abbrev pub plain : EventType → ℕ → Event
plain t now = record {
  event_type = t;
  timestamp = now;
  ban_expire = 0;
  ban_code = 0;
  failure_reason = 0;
  failure_message = "";
}
