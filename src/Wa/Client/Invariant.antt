-- ===== src/Wa/Client/Invariant.antt =====
-- internal/wa/dispatcher.go: the invariant of the client and its channels.
use whatsapp_mcp_docker.Base.{
  ℕ, ◌≤◌, ◌<◌, String, ◌≡◌, refl, inl, inr, Bool, true, false, not, ◌||◌, Option, none, some, List,
  [], ◌∷◌, arith, Bool-cases, length, length-append,
}
use whatsapp_mcp_docker.Wa.Events.{State, Event, RawEvent}
use whatsapp_mcp_docker.Wa.Client.{
  Channel, Client, capacity, update, subscribe, unsubscribe, close_channel, fanout, fanout_deliver,
  handle, dispatch, close_channels, close_all_subs, opened, connect, disconnect, receive,
  receive_from, connect_device,
}
use whatsapp_mcp_docker.Wa.Client.Delivery.{
  member, Distinct, deliver, deliver_all, member-append, member-remove_first, Distinct-append,
  Distinct-remove_first, send_all_lem,
}

pub record Inv (c : Client) : Type 0 where
  pub distinct : Distinct c.subs
  pub open_iff : (s : ℕ) → (c.channels s).closed ≡ not (member s c.subs)
  pub allocated : (s : ℕ) → member s c.subs ≡ true → s < c.next
  pub unused : (s : ℕ) → member s c.subs ≡ true → (c.channels s).once ≡ false
  pub bounded : (s : ℕ) → length (c.channels s).queue ≤ capacity

-- The client after an event was fanned out to every subscriber.
abbrev pub delivered : Event → Client → Client
delivered evt c = record c { last_event = some evt; channels = deliver_all evt c.subs c.channels }

-- With the invariant a fan-out that nothing interrupts does not panic: it records the event, and each
-- registered channel with room gets it at its end.
pub fanout_lem : (evt : Event) (c : Client) → Inv c → fanout evt c ≡ some (delivered evt c)
unfolding fanout fanout_deliver
fanout_lem evt c i =
    rw (send_all_lem c.channels c.subs evt i.distinct (λ s m. ground (arith, i.open_iff s)))

deliver_bounded :
    (evt : Event) (ch : Channel)
    → length ch.queue ≤ capacity
    → length (deliver evt ch).queue ≤ capacity
deliver_bounded evt ch h = ground (arith, length-append ch.queue (evt ∷ []))

pub delivered-Inv : (evt : Event) (c : Client) → Inv c → Inv (delivered evt c)
delivered-Inv evt c i = record {
  distinct = i.distinct;
  open_iff = λ s. ground (arith, i.open_iff s);
  allocated = i.allocated;
  unused = λ s m. ground (arith, i.unused s);
  bounded = λ s. ground (arith, i.bounded s, deliver_bounded evt (c.channels s));
}

fanout-Inv : (evt : Event) (c : Client) → Inv c → (c' : Client) × (fanout evt c ≡ some c') × Inv c'
fanout-Inv evt c i = (delivered evt c, fanout_lem evt c i, delivered-Inv evt c i)

with_state : (c : Client) (s : State) → Inv c → Inv (record c { state = s })
with_state c s i = record {
  distinct = i.distinct;
  open_iff = i.open_iff;
  allocated = i.allocated;
  unused = i.unused;
  bounded = i.bounded;
}

-- Every raw event is handled with no panic, and the invariant holds afterwards.
pub handle-Inv :
    (now : ℕ) (raw : RawEvent) (c : Client)
    → Inv c
    → (c' : Client) × (handle now raw c ≡ some c') × Inv c'
unfolding handle
handle-Inv now RawEvent.connected c i = fanout-Inv _ _ (with_state c _ i)
handle-Inv now RawEvent.disconnected c i = fanout-Inv _ _ (with_state c _ i)
handle-Inv now (RawEvent.logged_out reason) c i = fanout-Inv _ _ (record {
  distinct = i.distinct;
  open_iff = i.open_iff;
  allocated = i.allocated;
  unused = i.unused;
  bounded = i.bounded;
})
handle-Inv now RawEvent.stream_replaced c i = fanout-Inv _ _ (record {
  distinct = i.distinct;
  open_iff = i.open_iff;
  allocated = i.allocated;
  unused = i.unused;
  bounded = i.bounded;
})
handle-Inv now (RawEvent.temporary_ban expire reason) c i = fanout-Inv _ _ i
handle-Inv now (RawEvent.connect_failure reason message) c i = fanout-Inv _ _ i
handle-Inv now RawEvent.other c i = (c, refl, i)

-- Every sequence of raw events is dispatched to its end with no panic.
pub dispatch-Inv :
    (evts : List (ℕ × RawEvent)) (c : Client)
    → Inv c
    → (c' : Client) × (dispatch evts c ≡ some c') × Inv c'
unfolding dispatch
dispatch-Inv [] c i = (c, refl, i)
dispatch-Inv ((now, raw) ∷ rest) c i =
    let (c', e, i') = handle-Inv now raw c i in rw (e, dispatch) (dispatch-Inv rest c' i')

pub subscribe-Inv : (c : Client) → Inv c → Inv (subscribe c).0
unfolding subscribe
subscribe-Inv c i = record {
  distinct = Distinct-append c.next c.subs i.distinct (ground (arith, i.allocated c.next));
  open_iff = λ s. ground (arith, i.open_iff s, member-append s c.next c.subs);
  allocated = λ s m. ground (arith, i.allocated s, member-append s c.next c.subs);
  unused = λ s m. ground (arith, i.unused s, member-append s c.next c.subs);
  bounded = λ s. ground (arith, i.bounded s);
}

pub unsubscribe-Inv : (s : ℕ) (c : Client) → Inv c → Inv (unsubscribe s c)
unfolding unsubscribe
unsubscribe-Inv s c i = elim (Bool-cases (c.channels s).once) [
  | inl e ↦ rw e i
  | inr e ↦ rw e (record {
    distinct = Distinct-remove_first s c.subs i.distinct;
    open_iff = λ j. ground (arith, i.open_iff j, member-remove_first j s c.subs i.distinct);
    allocated = λ j m. ground (arith, i.allocated j, member-remove_first j s c.subs i.distinct);
    unused = λ j m. ground (arith, i.unused j, member-remove_first j s c.subs i.distinct);
    bounded = λ j. ground (arith, i.bounded j, i.bounded s);
  })
]

receive_from-Inv :
    (q : List Event) (s : ℕ) (c : Client) → length q ≤ capacity → Inv c → Inv (receive_from q s c).0
receive_from-Inv [] s c h i = i
receive_from-Inv (x ∷ r) s c h i = record {
  distinct = i.distinct;
  open_iff = λ j. ground (arith, i.open_iff j);
  allocated = i.allocated;
  unused = λ j m. ground (arith, i.unused j);
  bounded = λ j. ground (arith, i.bounded j);
}

pub receive-Inv : (s : ℕ) (c : Client) → Inv c → Inv (receive s c).0
unfolding receive
receive-Inv s c i = receive_from-Inv (c.channels s).queue s c (i.bounded s) i

close_channels_lem :
    (subs : List ℕ) (f : ℕ → Channel) (s : ℕ)
    → ((close_channels subs f s).closed ≡ ((f s).closed || member s subs))
      × ((close_channels subs f s).queue ≡ (f s).queue)
unfolding close_channels
close_channels_lem [] f s = (ground arith, refl)
close_channels_lem (x ∷ rest) f s =
    let (p, q) = close_channels_lem rest (update f x (close_channel (f x))) s in
    (ground arith, ground arith)

pub close_all_subs-Inv : (c : Client) → Inv c → Inv (close_all_subs c)
unfolding close_all_subs
close_all_subs-Inv c i = record {
  distinct = tt;
  open_iff = λ s. ground (arith, i.open_iff s, close_channels_lem c.subs c.channels s);
  allocated = λ s m. absurd (ground arith);
  unused = λ s m. absurd (ground arith);
  bounded = λ s. ground (arith, i.bounded s, close_channels_lem c.subs c.channels s);
}

pub opened-Inv : (id : Option String) (deferred : Bool) → Inv (opened id deferred)
unfolding opened
opened-Inv none deferred = record {
  distinct = tt;
  open_iff = λ s. refl;
  allocated = λ s m. absurd (ground arith);
  unused = λ s m. absurd (ground arith);
  bounded = λ s. omega arith;
}
opened-Inv (some id) deferred = record {
  distinct = tt;
  open_iff = λ s. refl;
  allocated = λ s m. absurd (ground arith);
  unused = λ s m. absurd (ground arith);
  bounded = λ s. omega arith;
}

connect_device-Inv :
    (id : Option String) (b : Bool) (c : Client) → Inv c → Inv (connect_device id b c).0
connect_device-Inv none b c i = i
connect_device-Inv (some id) true c i = i
connect_device-Inv (some id) false c i = record {
  distinct = i.distinct;
  open_iff = i.open_iff;
  allocated = i.allocated;
  unused = i.unused;
  bounded = i.bounded;
}

pub connect-Inv : (b : Bool) (c : Client) → Inv c → Inv (connect b c).0
unfolding connect
connect-Inv b c i = connect_device-Inv c.device_id b c i

pub disconnect-Inv : (c : Client) → Inv c → Inv (disconnect c)
unfolding disconnect
disconnect-Inv c i = record {
  distinct = i.distinct;
  open_iff = i.open_iff;
  allocated = i.allocated;
  unused = i.unused;
  bounded = i.bounded;
}
