-- ===== src/Wa/Examples.antt =====
-- The client and its pairing on concrete runs.
use whatsapp_mcp_docker.Base.{
  ◌⊎◌, ℕ, ◌+◌, ◌%◌, ◌^◌, ◌≤◌, ◌≡◌, refl, ◌≢◌, ◌↔◌, true, false, none, some, List, [], ◌∷◌, ◌++◌,
  map, arith, length, take,
}
use whatsapp_mcp_docker.Wa.Events.{State, EventType, RawEvent, plain}
use whatsapp_mcp_docker.Wa.Client.{
  Client, opened, subscribe, unsubscribe, connect, handle, dispatch, capacity, fanout_deliver,
  auto_reconnect_hook,
}
use whatsapp_mcp_docker.Wa.Client.Invariant.{Inv, opened-Inv, subscribe-Inv, connect-Inv}
use whatsapp_mcp_docker.Wa.Client.Delivery.{member}
use whatsapp_mcp_docker.Wa.Client.Lifecycle.{
  handled, handle_lem, SessionOver, events_of, dispatch-SessionOver, dispatch_queue,
}
use whatsapp_mcp_docker.Wa.Client.Interleaving.{
  Step, Reach, reachable_safe, fanout-unsubscribe_panics,
}
use whatsapp_mcp_docker.Wa.Pairing.{
  QrItem, Input, new_session, publish, flow, Admin, start_pairing, started, unpair, UnpairWorld,
  unpaired, FlowExit, is_terminal, to_pair_event,
}
use whatsapp_mcp_docker.Wa.Pairing.Flow.{sent, flow_until_terminal}
use whatsapp_mcp_docker.Wa.Pairing.Operations.{
  IsIdle, IsFresh, start_pairing_iff, unpair-start_pairing,
}
use whatsapp_mcp_docker.Wa.Pairing.Waiting.{
  Thread, Waiter, Runs, entered, IsStuck, test, Produce, pair_wait_next-IsStuck,
  pair_wait_next_wakes,
}

-- A paired client with one subscriber.
abbrev watched : Client
watched = (subscribe (opened (some "device") true)).0

watched-Inv : Inv watched
watched-Inv = subscribe-Inv (opened (some "device") true) (opened-Inv (some "device") true)

watched-member : member 0 watched.subs ≡ true
unfolding opened subscribe
watched-member = refl

abbrev online : Client
online = handled 7 RawEvent.connected (connect false watched).0

online-Reach : Reach (opened (some "device") true) online
online-Reach =
    Reach.next (Reach.next (Reach.next Reach.here (Step.subscribing _)) (Step.connecting false _)) (
      Step.handling 7 RawEvent.connected
        (handle_lem 7 RawEvent.connected _ (connect-Inv false watched watched-Inv)))

reachable_safe_example :
    ((c : Client) × (handle 8 RawEvent.disconnected online ≡ some c))
    × ((s : ℕ) → length (online.channels s).queue ≤ capacity)
reachable_safe_example = reachable_safe (some "device") true online-Reach 8 RawEvent.disconnected

-- The subscriber's client after the phone has logged it out.
abbrev over : Client
over = record watched { state = State.logged_out; stop_reconnect = true }

over-Inv : Inv over
over-Inv = record {
  distinct = watched-Inv.distinct;
  open_iff = watched-Inv.open_iff;
  allocated = watched-Inv.allocated;
  unused = watched-Inv.unused;
  bounded = watched-Inv.bounded;
}

abbrev late_events : List (ℕ × RawEvent)
late_events =
    (9, RawEvent.disconnected)
    ∷ (10, RawEvent.stream_replaced)
    ∷ (11, RawEvent.temporary_ban 60 101)
    ∷ []

over-SessionOver : SessionOver over
unfolding auto_reconnect_hook
over-SessionOver = (refl, refl)

dispatch-SessionOver_example : (c : Client) × (dispatch late_events over ≡ some c) × SessionOver c
dispatch-SessionOver_example = dispatch-SessionOver late_events over over-Inv over-SessionOver refl

dispatch_queue_example :
    (c : Client) × (dispatch late_events watched ≡ some c)
    × ((c.channels 0).queue ≡ take capacity ((watched.channels 0).queue ++ events_of late_events))
dispatch_queue_example = dispatch_queue late_events watched 0 watched-Inv watched-member

fanout-unsubscribe_panics_example :
    fanout_deliver
      (plain EventType.connected 7)
      watched.subs
      (unsubscribe 0 (record watched { last_event = some (plain EventType.connected 7) }))
    ≡ none
fanout-unsubscribe_panics_example =
    fanout-unsubscribe_panics (plain EventType.connected 7) 0 watched watched-Inv watched-member

abbrev code_item : QrItem
code_item = record { event = "code"; payload = "2@abc"; timeout_ms = 60000; failure = none }

abbrev success_item : QrItem
success_item = record { event = "success"; payload = ""; timeout_ms = 0; failure = none }

flow_until_terminal_example :
    let convert = to_pair_event "code" "error" in
    let end =
      flow convert
        (sent (code_item ∷ code_item ∷ []) (Input.item success_item true ∷ Input.ended ∷ []))
        new_session in
    (end.obs_latest ≡ convert success_item)
    × (is_terminal end.obs_latest.event_type ≡ true)
    × (end.out ≡ new_session.out ++ map convert ((code_item ∷ code_item ∷ []) ++ success_item ∷ []))
    × (end.obs_seq ≡ (new_session.obs_seq + 2 + 1) % 2 ^ 64)
    × (end.obs_done ≡ true)
flow_until_terminal_example =
    flow_until_terminal "code" "error" (code_item ∷ code_item ∷ []) success_item (Input.ended ∷ [])
      new_session (ground arith) (ground arith) (omega arith)

abbrev admin : Admin
admin = record {
  client = online;
  pairing = some new_session;
  pair_device_name = "bridge";
  os_name = "";
}

-- The first flow has ended.
abbrev idle_admin : Admin
idle_admin = record admin {
  client = opened none true;
  pairing = some (record new_session { obs_done = true });
}

start_pairing_iff_example :
    let (b, result) = start_pairing "" true true idle_admin in
    ((result ≡ started) ↔ (
      IsIdle idle_admin.pairing
      × (idle_admin.client.device_id ≡ none)
      × (true ≡ true)
      × (true ≡ true)))
    × (((result ≡ started) × IsFresh b.pairing)
        ⊎ (¬ (result ≡ started) × (b.pairing ≡ idle_admin.pairing)))
start_pairing_iff_example = start_pairing_iff "" true true idle_admin

abbrev world : UnpairWorld
world = record {
  exit = FlowExit.exited;
  logged_in = true;
  removed = true;
  reopened = some none;
  now = 20;
}

abbrev old_admin : Admin
old_admin = record admin { client = watched }

unpair-start_pairing_example :
    (b : Admin) × (unpair world old_admin ≡ some (b, unpaired))
    × (b.client.state ≡ State.not_paired)
    × (b.client.last_event ≡ some (plain EventType.disconnected 20))
    × (b.pairing ≡ none)
    × Inv b.client
    × ((start_pairing "bridge" true true b).1 ≡ started)
unpair-start_pairing_example =
    unpair-start_pairing world old_admin "bridge" watched-Inv refl refl refl

pair_wait_next-IsStuck_example : (t : Thread) × Runs (entered new_session) t × IsStuck t
pair_wait_next-IsStuck_example = pair_wait_next-IsStuck new_session refl

abbrev parked_thread : Thread
parked_thread = record (entered new_session) { waiter = Waiter.parked }

abbrev woken_thread : Thread
woken_thread = record parked_thread {
  session = publish (to_pair_event "code" "error" code_item) new_session;
  waiter = Waiter.testing;
}

not_waiting : Waiter.parked ≢ Waiter.waiting
not_waiting h = cc

pair_wait_next_wakes_example :
    (woken_thread.waiter ≡ Waiter.testing)
    × (test woken_thread ≡ Waiter.returned woken_thread.session.obs_latest parked_thread.expired)
pair_wait_next_wakes_example =
    pair_wait_next_wakes parked_thread woken_thread refl refl (omega arith)
      (Produce.publishing (to_pair_event "code" "error" code_item) not_waiting)
