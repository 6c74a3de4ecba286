-- ===== src/Wa/Client.antt =====
-- internal/wa/dispatcher.go and client.go: the client's state, its subscribers' channels and the
-- handler of raw events. Channels stand on a heap, since a subscriber, the list of subscribers and
-- the copy that `fanout` sends to share them; a send on a closed channel panics, which is `none`.
-- Calls of the WhatsApp library are recorded in the order they are made.
pub mod Invariant
pub mod Delivery
pub mod Lifecycle
pub mod Interleaving
use whatsapp_mcp_docker.Base.{
  ℕ, ◌+◌, String, Bool, true, false, not, Option, none, some, List, [], ◌∷◌, ◌++◌, leb, ◌==◌,
  if◌then◌else◌, length,
}
use whatsapp_mcp_docker.Wa.Events.{State, EventType, Event, RawEvent, plain}

pub record Channel : Type 0 where
  pub queue : List Event
  pub closed : Bool
  pub once : Bool  -- the variable of the function that `Subscribe` returns

pub data Call : Type 0 where
  dial hang_up log_out remove_handler : Call

pub record Client : Type 0 where
  pub state : State
  pub subs : List ℕ
  pub channels : ℕ → Channel
  pub next : ℕ  -- the first address of the heap that is free
  pub last_event : Option Event
  pub stop_reconnect : Bool
  pub device_id : Option String
  pub calls : List Call

abbrev pub capacity : ℕ
capacity = 16

abbrev pub update : (ℕ → Channel) → ℕ → Channel → ℕ → Channel
update f i c j = if i == j then c else f j

-- make(chan Event, 16)
abbrev pub fresh : Channel
fresh = record { queue = []; closed = false; once = false }

unfoldable pub subscribe : Client → Client × ℕ
subscribe c = (
  record c {
    subs = c.subs ++ c.next ∷ [];
    channels = update c.channels c.next fresh;
    next = c.next + 1;
  },
  c.next,
)

-- The loop that takes a subscriber out of the list and breaks.
unfoldable pub remove_first : ℕ → List ℕ → List ℕ
remove_first s [] = []
remove_first s (x ∷ xs) = if x == s then xs else x ∷ remove_first s xs

abbrev pub close_channel : Channel → Channel
close_channel ch = if ch.closed then ch else record ch { closed = true }

-- The function that `Subscribe` returns.
unfoldable pub unsubscribe : ℕ → Client → Client
unsubscribe s c = if (c.channels s).once then c else record c {
  subs = remove_first s c.subs;
  channels = update c.channels s (close_channel (record (c.channels s) { once = true }));
}

-- A send in a `select` with a `default`.
unfoldable pub send : (ℕ → Channel) → ℕ → Event → Option (ℕ → Channel)
send f s evt =
    if (f s).closed
    then none
    else if leb capacity (length (f s).queue)
    then some f
    else some (update f s (record (f s) { queue = (f s).queue ++ evt ∷ [] }))

-- The loop of `fanout` over its copy of the subscribers.
unfoldable pub send_all : (ℕ → Channel) → List ℕ → Event → Option (ℕ → Channel)
send_all f [] evt = some f
send_all f (s ∷ rest) evt = elim (send f s evt) [ none ↦ none | some f' ↦ send_all f' rest evt ]

abbrev pub with_channels : Client → Option (ℕ → Channel) → Option Client
with_channels c none = none
with_channels c (some f) = some (record c { channels = f })

abbrev pub receive_from : List Event → ℕ → Client → Client × Option Event
receive_from [] s c = (c, none)
receive_from (evt ∷ rest) s c =
    (record c { channels = update c.channels s (record (c.channels s) { queue = rest }) }, some evt)

-- A consumer's receive from its channel.
unfoldable pub receive : ℕ → Client → Client × Option Event
receive s c = receive_from (c.channels s).queue s c

-- The part of `fanout` under the lock: the event is recorded and the subscribers are copied.
abbrev pub fanout_snapshot : Event → Client → Client × List ℕ
fanout_snapshot evt c = (record c { last_event = some evt }, c.subs)

-- The part after the lock is released.
unfoldable pub fanout_deliver : Event → List ℕ → Client → Option Client
fanout_deliver evt subs c = with_channels c (send_all c.channels subs evt)

unfoldable pub fanout : Event → Client → Option Client
fanout evt c = let (c', subs) = fanout_snapshot evt c in fanout_deliver evt subs c'

abbrev pub is_terminal : State → Bool
is_terminal State.logged_out = true
is_terminal State.stream_replaced = true
is_terminal _ = false

abbrev pub after_disconnect : State → State
after_disconnect State.logged_out = State.logged_out
after_disconnect State.stream_replaced = State.stream_replaced
after_disconnect _ = State.disconnected

-- c.currentWM().Disconnect() with reconnecting suppressed
abbrev pub suppress : Client → Client
suppress c = record c { stop_reconnect = true; calls = c.calls ++ Call.hang_up ∷ [] }

unfoldable pub handle : ℕ → RawEvent → Client → Option Client
handle now RawEvent.connected c =
    fanout (plain EventType.connected now) (record c { state = State.connected })
handle now RawEvent.disconnected c =
    fanout (plain EventType.disconnected now) (record c { state = after_disconnect c.state })
handle now (RawEvent.logged_out reason) c =
    fanout (record (plain EventType.logged_out now) { failure_reason = reason })
      (record (suppress c) { state = State.logged_out })
handle now RawEvent.stream_replaced c =
    fanout (plain EventType.stream_replaced now)
      (record (suppress c) { state = State.stream_replaced })
handle now (RawEvent.temporary_ban expire reason) c =
    fanout (record (plain EventType.temporary_ban now) { ban_expire = expire; ban_code = reason }) c
handle now (RawEvent.connect_failure reason message) c =
    fanout
      (record (plain EventType.connection_failure now) {
        failure_reason = reason;
        failure_message = message;
      })
      c
handle now RawEvent.other c = some c

-- The loop of `dispatch` until it is told to quit, over the raw events with their times.
unfoldable pub dispatch : List (ℕ × RawEvent) → Client → Option Client
dispatch [] c = some c
dispatch ((now, raw) ∷ rest) c = elim (handle now raw c) [
  | none ↦ none
  | some c' ↦ dispatch rest c'
]

unfoldable pub close_channels : List ℕ → (ℕ → Channel) → ℕ → Channel
close_channels [] f = f
close_channels (s ∷ rest) f = close_channels rest (update f s (close_channel (f s)))

-- What `dispatch` does when it is told to quit.
unfoldable pub close_all_subs : Client → Client
close_all_subs c = record c { channels = close_channels c.subs c.channels; subs = [] }

-- The state that `Open` leaves, before the first event: `deferred` is `DeferConnect`.
unfoldable pub opened : Option String → Bool → Client
opened none deferred = record {
  state = State.not_paired;
  subs = [];
  channels = λ _. record { queue = []; closed = true; once = true };
  next = 0;
  last_event = none;
  stop_reconnect = false;
  device_id = none;
  calls = [];
}
opened (some id) deferred = record {
  state = if deferred then State.disconnected else State.connecting;
  subs = [];
  channels = λ _. record { queue = []; closed = true; once = true };
  next = 0;
  last_event = none;
  stop_reconnect = false;
  device_id = some id;
  calls = if deferred then [] else Call.dial ∷ [];
}

pub data ConnectResult : Type 0 where
  err_not_paired already_connected dialled : ConnectResult

abbrev pub connect_device : Option String → Bool → Client → Client × ConnectResult
connect_device none is_connected c = (c, err_not_paired)
connect_device (some id) true c = (c, already_connected)
connect_device (some id) false c = (
  record c { stop_reconnect = false; state = State.connecting; calls = c.calls ++ Call.dial ∷ [] },
  dialled,
)

-- `Connect`; what the dial itself returns is passed on and changes nothing here.
unfoldable pub connect : Bool → Client → Client × ConnectResult
connect is_connected c = connect_device c.device_id is_connected c

unfoldable pub disconnect : Client → Client
disconnect c = suppress c

-- The hook that the WhatsApp library asks before it reconnects.
unfoldable pub auto_reconnect_hook : Client → Bool
auto_reconnect_hook c = not c.stop_reconnect
