-- ===== src/Wa/Pairing/Operations.antt =====
-- internal/wa/admin_ops.go: `StartPairing` and `Unpair`.
use whatsapp_mcp_docker.Base.{
  String, ◌≡◌, refl, ◌↔◌, ◌⊎◌, inl, inr, Bool, true, false, Bool-cases, Option, none, some, [],
  arith,
}
use whatsapp_mcp_docker.Wa.Events.{State, EventType, plain}
use whatsapp_mcp_docker.Wa.Client.{Client}
use whatsapp_mcp_docker.Wa.Client.Invariant.{Inv, fanout_lem, delivered, delivered-Inv}
use whatsapp_mcp_docker.Wa.Pairing.{
  Admin, Session, started, is_active, is_paired, start_pairing, unpair, UnpairWorld, unpaired,
  new_session, cancelled_by_context, torn_down,
}

-- No session is kept, or the one that is kept has had its last event.
abbrev pub IsIdle : Option Session → Type 0
IsIdle pairing = (pairing ≡ none) ⊎ (s : Session) × (pairing ≡ some s) × (s.obs_done ≡ true)

-- A session before its first event.
abbrev pub IsFresh : Option Session → Type 0
IsFresh pairing =
    (s : Session) × (pairing ≡ some s) × (s.obs_done ≡ false) × (s.obs_seq ≡ 0) × (s.out ≡ [])

not_active-IsIdle : (pairing : Option Session) → is_active pairing ≡ false → IsIdle pairing
not_active-IsIdle none h = inl refl
not_active-IsIdle (some s) h = inr (s, refl, ground arith)

IsIdle-not_active : (pairing : Option Session) → IsIdle pairing → is_active pairing ≡ false
IsIdle-not_active pairing (inl e) = rw e refl
IsIdle-not_active pairing (inr (s, e, d)) = rw (e, d) refl

not_paired-none : (device : Option String) → is_paired device ≡ false → device ≡ none
not_paired-none none h = refl
not_paired-none (some id) h = absurd cc

paired_some : (device : Option String) → is_paired device ≡ true → ¬ (device ≡ none)
paired_some none h e = absurd cc
paired_some (some id) h e = absurd cc

-- A pairing starts exactly when no session is kept or the kept one has had its last event, no device
-- is paired, and the library opens its channel and connects; then the session that is kept is one
-- before its first event. Otherwise the kept session stays as it was.
pub start_pairing_iff :
    (name : String) (got_channel connects : Bool) (a : Admin)
    → let (b, result) = start_pairing name got_channel connects a in
      ((result ≡ started) ↔ (
        IsIdle a.pairing × (a.client.device_id ≡ none) × (got_channel ≡ true) × (connects ≡ true)))
      × (((result ≡ started) × IsFresh b.pairing)
          ⊎ (¬ (result ≡ started) × (b.pairing ≡ a.pairing)))
unfolding start_pairing
start_pairing_iff name got_channel connects a = elim (Bool-cases (is_active a.pairing)) [
  | inl e ↦ rw e (
    ((λ h. absurd cc), λ w. let k = IsIdle-not_active a.pairing w.0 in absurd cc),
    inr ((λ h. absurd cc), refl),
  )
  | inr e ↦
      let idle = not_active-IsIdle a.pairing e in
      elim (Bool-cases (is_paired a.client.device_id)) [
        | inl p ↦
            rw (e, p)
              (
                ((λ h. absurd cc), λ w. absurd (paired_some a.client.device_id p w.1)),
                inr ((λ h. absurd cc), refl),
              )
        | inr p ↦
            let none' = not_paired-none a.client.device_id p in
            elim (Bool-cases got_channel) [
              | inr g ↦
                  rw (e, p, g) (((λ h. absurd cc), λ w. absurd cc), inr ((λ h. absurd cc), refl))
              | inl g ↦ elim (Bool-cases connects) [
                | inr c ↦
                    rw (e, p, g, c)
                      (((λ h. absurd cc), λ w. absurd cc), inr ((λ h. absurd cc), refl))
                | inl c ↦
                    rw (e, p, g, c)
                      (
                        ((λ h. (idle, none', refl, refl)), λ w. refl),
                        inl (refl, (new_session, refl, refl, refl, refl)),
                      )
              ]
            ]
      ]
]

-- The client right before `Unpair` tells the subscribers.
abbrev blank : UnpairWorld → Client → Client
blank w c = record (torn_down w c) {
  device_id = none;
  stop_reconnect = false;
  state = State.not_paired;
  last_event = none;
}

blank-Inv : (w : UnpairWorld) (c : Client) → Inv c → Inv (blank w c)
blank-Inv w c i = record {
  distinct = i.distinct;
  open_iff = i.open_iff;
  allocated = i.allocated;
  unused = i.unused;
  bounded = i.bounded;
}

-- Whatever the client's state, if the wait for an old flow is not cut off, the session files can be
-- removed and the store reopens with no device, then `Unpair` succeeds with no panic, leaves the
-- client not paired with a disconnected event as its last, and a pairing can start again.
pub unpair-start_pairing :
    (w : UnpairWorld) (a : Admin) (name : String)
    → Inv a.client
    → cancelled_by_context a.pairing w.exit ≡ false
    → w.removed ≡ true
    → w.reopened ≡ some none
    → (b : Admin) × (unpair w a ≡ some (b, unpaired))
      × (b.client.state ≡ State.not_paired)
      × (b.client.last_event ≡ some (plain EventType.disconnected w.now))
      × (b.pairing ≡ none)
      × Inv b.client
      × ((start_pairing name true true b).1 ≡ started)
unfolding unpair start_pairing
unpair-start_pairing w a name i c r o =
    let evt = plain EventType.disconnected w.now in
    let d = delivered evt (blank w a.client) in
    (
      record a { pairing = none; client = d },
      rw (c, r) (rw o (rw (fanout_lem evt _ (blank-Inv w a.client i)))),
      refl,
      refl,
      refl,
      delivered-Inv evt _ (blank-Inv w a.client i),
      refl,
    )
