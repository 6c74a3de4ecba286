-- ===== src/Wa/Client/Lifecycle.antt =====
-- internal/wa/dispatcher.go: runs of the dispatcher, the lifecycle state and the subscribers' queues.
use whatsapp_mcp_docker.Base.{
  ℕ, ◌≤◌, ◌≡◌, refl, sym, ◌∙◌, inl, inr, Bool, true, false, not, Option, none, some, List, [], ◌∷◌,
  ◌++◌, arith, leb, Bool-cases, length, take, all, take_full, take_of_length-le,
}
use mathlib.Core.List.{append-nil, append_assoc}
use whatsapp_mcp_docker.Wa.Events.{State, EventType, Event, RawEvent, plain}
use whatsapp_mcp_docker.Wa.Client.{
  Channel, Client, capacity, is_terminal, after_disconnect, suppress, handle, dispatch,
  auto_reconnect_hook,
}
use whatsapp_mcp_docker.Wa.Client.Delivery.{member, deliver}
use whatsapp_mcp_docker.Wa.Client.Invariant.{Inv, fanout_lem, delivered, delivered-Inv}

-- The lifecycle event that a raw event is turned into, if it is one.
abbrev pub event_of : ℕ → RawEvent → Option Event
event_of now RawEvent.connected = some (plain EventType.connected now)
event_of now RawEvent.disconnected = some (plain EventType.disconnected now)
event_of now (RawEvent.logged_out reason) =
    some (record (plain EventType.logged_out now) { failure_reason = reason })
event_of now RawEvent.stream_replaced = some (plain EventType.stream_replaced now)
event_of now (RawEvent.temporary_ban expire reason) =
    some (record (plain EventType.temporary_ban now) { ban_expire = expire; ban_code = reason })
event_of now (RawEvent.connect_failure reason message) =
    some (record (plain EventType.connection_failure now) {
      failure_reason = reason;
      failure_message = message;
    })
event_of now RawEvent.other = none

-- What a raw event does to the client itself.
abbrev pub effect : RawEvent → Client → Client
effect RawEvent.connected c = record c { state = State.connected }
effect RawEvent.disconnected c = record c { state = after_disconnect c.state }
effect (RawEvent.logged_out reason) c = record (suppress c) { state = State.logged_out }
effect RawEvent.stream_replaced c = record (suppress c) { state = State.stream_replaced }
effect _ c = c

abbrev publish : Option Event → Client → Client
publish none c = c
publish (some evt) c = delivered evt c

abbrev pub handled : ℕ → RawEvent → Client → Client
handled now raw c = publish (event_of now raw) (effect raw c)

effect-Inv : (raw : RawEvent) (c : Client) → Inv c → Inv (effect raw c)
effect-Inv RawEvent.connected c i = record {
  distinct = i.distinct;
  open_iff = i.open_iff;
  allocated = i.allocated;
  unused = i.unused;
  bounded = i.bounded;
}
effect-Inv RawEvent.disconnected c i = record {
  distinct = i.distinct;
  open_iff = i.open_iff;
  allocated = i.allocated;
  unused = i.unused;
  bounded = i.bounded;
}
effect-Inv (RawEvent.logged_out reason) c i = record {
  distinct = i.distinct;
  open_iff = i.open_iff;
  allocated = i.allocated;
  unused = i.unused;
  bounded = i.bounded;
}
effect-Inv RawEvent.stream_replaced c i = record {
  distinct = i.distinct;
  open_iff = i.open_iff;
  allocated = i.allocated;
  unused = i.unused;
  bounded = i.bounded;
}
effect-Inv _ c i = i

pub handle_lem :
    (now : ℕ) (raw : RawEvent) (c : Client) → Inv c → handle now raw c ≡ some (handled now raw c)
unfolding handle
handle_lem now RawEvent.connected c i = fanout_lem _ _ (effect-Inv RawEvent.connected c i)
handle_lem now RawEvent.disconnected c i = fanout_lem _ _ (effect-Inv RawEvent.disconnected c i)
handle_lem now (RawEvent.logged_out reason) c i =
    fanout_lem _ _ (effect-Inv (RawEvent.logged_out reason) c i)
handle_lem now RawEvent.stream_replaced c i =
    fanout_lem _ _ (effect-Inv RawEvent.stream_replaced c i)
handle_lem now (RawEvent.temporary_ban expire reason) c i = fanout_lem _ _ i
handle_lem now (RawEvent.connect_failure reason message) c i = fanout_lem _ _ i
handle_lem now RawEvent.other c i = refl

publish-Inv : (o : Option Event) (c : Client) → Inv c → Inv (publish o c)
publish-Inv none c i = i
publish-Inv (some evt) c i = delivered-Inv evt c i

-- The client after a run of raw events.
abbrev pub dispatched : List (ℕ × RawEvent) → Client → Client
dispatched [] c = c
dispatched ((now, raw) ∷ rest) c = dispatched rest (handled now raw c)

-- The dispatcher runs through every list of raw events with no panic, to the client that results when
-- each event in turn changes the lifecycle state and is then appended to every registered channel.
pub dispatch_lem :
    (evts : List (ℕ × RawEvent)) (c : Client) → Inv c → dispatch evts c ≡ some (dispatched evts c)
unfolding dispatch
dispatch_lem [] c i = refl
dispatch_lem ((now, raw) ∷ rest) c i =
    rw (handle_lem now raw c i, dispatch)
      (dispatch_lem rest _ (publish-Inv (event_of now raw) _ (effect-Inv raw c i)))

-- The client was told that its session is over: reconnecting is suppressed.
abbrev pub SessionOver : Client → Type 0
SessionOver c = (is_terminal c.state ≡ true) × (auto_reconnect_hook c ≡ false)

abbrev pub is_connected : RawEvent → Bool
is_connected RawEvent.connected = true
is_connected _ = false

abbrev pub no_connect : List (ℕ × RawEvent) → Bool
no_connect = all (λ e. not (is_connected e.1))

publish-SessionOver : (o : Option Event) (c : Client) → SessionOver c → SessionOver (publish o c)
unfolding auto_reconnect_hook
publish-SessionOver none c t = t
publish-SessionOver (some evt) c t = t

effect-SessionOver :
    (raw : RawEvent) (c : Client)
    → is_connected raw ≡ false
    → SessionOver c
    → SessionOver (effect raw c)
unfolding auto_reconnect_hook
effect-SessionOver raw c n t = ground arith

dispatched-SessionOver :
    (evts : List (ℕ × RawEvent)) (c : Client)
    → no_connect evts ≡ true
    → SessionOver c
    → SessionOver (dispatched evts c)
dispatched-SessionOver [] c n t = t
dispatched-SessionOver ((now, raw) ∷ rest) c n t =
    dispatched-SessionOver rest _ (ground arith)
      (publish-SessionOver (event_of now raw) _ (effect-SessionOver raw c (ground arith) t))

-- Once the session was logged out or replaced by another stream, the lifecycle state stays logged out
-- or replaced and the client does not reconnect by itself, whatever raw events are dispatched then,
-- as long as none of them says that the socket is connected.
pub dispatch-SessionOver :
    (evts : List (ℕ × RawEvent)) (c : Client)
    → Inv c
    → SessionOver c
    → no_connect evts ≡ true
    → (c' : Client) × (dispatch evts c ≡ some c') × SessionOver c'
dispatch-SessionOver evts c i t n =
    (dispatched evts c, dispatch_lem evts c i, dispatched-SessionOver evts c n t)

abbrev cons_event : Option Event → List Event → List Event
cons_event none rest = rest
cons_event (some evt) rest = evt ∷ rest

-- The lifecycle events of a run, in order.
abbrev pub events_of : List (ℕ × RawEvent) → List Event
events_of [] = []
events_of ((now, raw) ∷ rest) = cons_event (event_of now raw) (events_of rest)

deliver_queue :
    (evt : Event) (ch : Channel) (rest : List Event)
    → length ch.queue ≤ capacity
    → take capacity ((deliver evt ch).queue ++ rest) ≡ take capacity (ch.queue ++ evt ∷ rest)
deliver_queue evt ch rest h = elim (Bool-cases (leb capacity (length ch.queue))) [
  | inl e ↦
      let full : length ch.queue ≡ capacity = ground arith in
      rw e (
        take_full capacity ch.queue rest full ∙ sym (take_full capacity ch.queue (evt ∷ rest) full))
  | inr e ↦ rw e (rw (append_assoc ch.queue (evt ∷ []) rest))
]

publish_queue :
    (o : Option Event) (c : Client) (s : ℕ) (rest : List Event)
    → Inv c
    → member s c.subs ≡ true
    → take capacity (((publish o c).channels s).queue ++ rest)
      ≡ take capacity ((c.channels s).queue ++ cons_event o rest)
publish_queue none c s rest i m = refl
publish_queue (some evt) c s rest i m = rw m (deliver_queue evt (c.channels s) rest (i.bounded s))

publish-subs : (o : Option Event) (c : Client) → (publish o c).subs ≡ c.subs
publish-subs none c = refl
publish-subs (some evt) c = refl

effect_keeps :
    (raw : RawEvent) (c : Client)
    → ((effect raw c).subs ≡ c.subs) × ((effect raw c).channels ≡ c.channels)
effect_keeps RawEvent.connected c = (refl, refl)
effect_keeps _ c = (refl, refl)

dispatched_queue :
    (evts : List (ℕ × RawEvent)) (c : Client) (s : ℕ)
    → Inv c
    → member s c.subs ≡ true
    → ((dispatched evts c).channels s).queue
      ≡ take capacity ((c.channels s).queue ++ events_of evts)
dispatched_queue [] c s i m =
    rw (append-nil (c.channels s).queue) (sym (take_of_length-le _ (i.bounded s)))
dispatched_queue ((now, raw) ∷ rest) c s i m =
    let j = effect-Inv raw c i in
    let (same_subs, same_channels) = effect_keeps raw c in
    let m' : member s (effect raw c).subs ≡ true = rw same_subs m in
    dispatched_queue rest (handled now raw c) s (publish-Inv (event_of now raw) _ j)
      (rw (publish-subs (event_of now raw) (effect raw c)) m')
    ∙ publish_queue (event_of now raw) (effect raw c) s (events_of rest) j m'
    ∙ rw same_channels refl

-- While a registered subscriber receives nothing, its channel holds the first 16 of the events that it
-- held at the start and the lifecycle events of the run, in their order: a slow subscriber loses the
-- newest events, and no order is changed.
pub dispatch_queue :
    (evts : List (ℕ × RawEvent)) (c : Client) (s : ℕ)
    → Inv c
    → member s c.subs ≡ true
    → (c' : Client) × (dispatch evts c ≡ some c')
      × ((c'.channels s).queue ≡ take capacity ((c.channels s).queue ++ events_of evts))
dispatch_queue evts c s i m =
    (dispatched evts c, dispatch_lem evts c i, dispatched_queue evts c s i m)
