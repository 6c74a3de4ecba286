-- ===== src/Wa/Client/Interleaving.antt =====
-- internal/wa/dispatcher.go: interleavings of the dispatcher, its subscribers and the administrator, and
-- of an unsubscribe with the two halves of a fan-out.
use whatsapp_mcp_docker.Base.{
  ℕ, ◌≤◌, String, ◌≡◌, inl, inr, Bool, true, false, Option, none, some, List, [], ◌∷◌, arith,
  Option-cases, length,
}
use whatsapp_mcp_docker.Wa.Events.{Event, RawEvent}
use whatsapp_mcp_docker.Wa.Client.{
  Channel, Client, capacity, subscribe, unsubscribe, send, send_all, fanout_snapshot,
  fanout_deliver, handle, close_all_subs, opened, connect, disconnect, receive,
}
use whatsapp_mcp_docker.Wa.Client.Delivery.{member}
use whatsapp_mcp_docker.Wa.Client.Invariant.{
  Inv, handle-Inv, subscribe-Inv, unsubscribe-Inv, receive-Inv, close_all_subs-Inv, opened-Inv,
  connect-Inv, disconnect-Inv,
}

-- One operation of the dispatcher, of a subscriber or of an administrator, run to its end.
pub data Step : Client → Client → Type 0 where
  subscribing : (c : Client) → Step c (subscribe c).0
  unsubscribing : (s : ℕ) (c : Client) → Step c (unsubscribe s c)
  receiving : (s : ℕ) (c : Client) → Step c (receive s c).0
  handling : (now : ℕ) (raw : RawEvent) {c c' : Client} → handle now raw c ≡ some c' → Step c c'
  connecting : (is_connected : Bool) (c : Client) → Step c (connect is_connected c).0
  disconnecting : (c : Client) → Step c (disconnect c)
  closing : (c : Client) → Step c (close_all_subs c)

pub data Reach (c : Client) : Client → Type 0 where
  here : Reach c c
  next : {d e : Client} → Reach c d → Step d e → Reach c e

handled-Inv :
    (now : ℕ) (raw : RawEvent) {c c' : Client} → handle now raw c ≡ some c' → Inv c → Inv c'
handled-Inv now raw {c = c} {c' = c'} h i =
    let (d, e, j) = handle-Inv now raw c i in let same : d ≡ c' = ground arith in rw same at j

Step-Inv : {c c' : Client} → Step c c' → Inv c → Inv c'
Step-Inv (subscribing c) i = subscribe-Inv c i
Step-Inv (unsubscribing s c) i = unsubscribe-Inv s c i
Step-Inv (receiving s c) i = receive-Inv s c i
Step-Inv (handling now raw h) i = handled-Inv now raw h i
Step-Inv (connecting b c) i = connect-Inv b c i
Step-Inv (disconnecting c) i = disconnect-Inv c i
Step-Inv (closing c) i = close_all_subs-Inv c i

pub Reach-Inv : {c c' : Client} → Inv c → Reach c c' → Inv c'
Reach-Inv i here = i
Reach-Inv i (next r s) = Step-Inv s (Reach-Inv i r)

-- In every state that whole operations reach from a freshly opened client, in any order, the next raw
-- event is handled with no send on a closed channel, and no channel holds more than 16 events.
pub reachable_safe :
    (id : Option String) (deferred : Bool) {c : Client}
    → Reach (opened id deferred) c
    → (now : ℕ) (raw : RawEvent)
    → ((c' : Client) × (handle now raw c ≡ some c'))
      × ((s : ℕ) → length (c.channels s).queue ≤ capacity)
reachable_safe id deferred {c = c} r now raw =
    let i = Reach-Inv (opened-Inv id deferred) r in
    let (c', e, j) = handle-Inv now raw c i in ((c', e), i.bounded)

send_all_closed :
    (f : ℕ → Channel) (subs : List ℕ) (s : ℕ) (evt : Event)
    → member s subs ≡ true
    → (f s).closed ≡ true
    → send_all f subs evt ≡ none
unfolding send_all send
send_all_closed f [] s evt m h = absurd (ground arith)
send_all_closed f (x ∷ rest) s evt m h = elim (Option-cases (send f x evt)) [
  | inl e ↦ rw (e, send_all)
  | inr (f', e) ↦ rw (e, send_all) (send_all_closed f' rest s evt (ground arith) (ground arith))
]

fanout_deliver_closed :
    (evt : Event) (subs : List ℕ) (s : ℕ) (c : Client)
    → member s subs ≡ true
    → (c.channels s).closed ≡ true
    → fanout_deliver evt subs c ≡ none
unfolding fanout_deliver
fanout_deliver_closed evt subs s c m h = rw (send_all_closed c.channels subs s evt m h)

unsubscribe_closes :
    (s : ℕ) (c : Client)
    → (c.channels s).once ≡ false
    → ((unsubscribe s c).channels s).closed ≡ true
unfolding unsubscribe
unsubscribe_closes s c h = ground arith

-- A subscriber that unsubscribes after a fan-out has copied the list of subscribers, and before that
-- fan-out sends, makes the send panic: this holds of every registered subscriber of every client that
-- satisfies the invariant, and of every event.
pub fanout-unsubscribe_panics :
    (evt : Event) (s : ℕ) (c : Client)
    → Inv c
    → member s c.subs ≡ true
    → let (c1, copied) = fanout_snapshot evt c in
      fanout_deliver evt copied (unsubscribe s c1) ≡ none
fanout-unsubscribe_panics evt s c i m =
    fanout_deliver_closed evt c.subs s _ m (unsubscribe_closes s _ (i.unused s m))
