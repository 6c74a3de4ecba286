-- ===== src/Wa/Pairing/Flow.antt =====
-- internal/wa/admin_ops.go: runs of the goroutine of `StartPairing`.
use whatsapp_mcp_docker.Base.{
  ◌+◌, ◌%◌, ◌^◌, ◌<◌, String, ◌≡◌, refl, sym, ap, ◌∙◌, Bool, true, false, not, List, [], ◌∷◌, ◌++◌,
  map, arith, str_eq, length, all, codes,
}
use mathlib.Core.List.{append-nil, append_assoc, map-append}
use whatsapp_mcp_docker.Wa.Pairing.{
  PairEvent, QrItem, Session, Input, item, to_pair_event, is_terminal, flow, forward, publish,
  mark_done,
}

-- An item of the library's channel ends the flow exactly when it is not a code.
to_pair_event_terminal :
    (qr_code qr_error : String) (q : QrItem)
    → is_terminal (to_pair_event qr_code qr_error q).event_type ≡ not (str_eq q.event qr_code)
unfolding to_pair_event
to_pair_event_terminal qr_code qr_error q = ground arith

abbrev pub sent : List QrItem → List Input → List Input
sent [] rest = rest
sent (q ∷ qs) rest = item q true ∷ sent qs rest

abbrev pub is_code : String → QrItem → Bool
is_code qr_code q = str_eq q.event qr_code

abbrev after : (QrItem → PairEvent) → List QrItem → Session → Session
after convert [] s = s
after convert (q ∷ qs) s = after convert qs (forward (convert q) (publish (convert q) s))

flow_codes :
    (qr_code qr_error : String) (codes : List QrItem) (rest : List Input) (s : Session)
    → all (is_code qr_code) codes ≡ true
    → flow (to_pair_event qr_code qr_error) (sent codes rest) s
      ≡ flow (to_pair_event qr_code qr_error) rest (after (to_pair_event qr_code qr_error) codes s)
unfolding flow
flow_codes qr_code qr_error [] rest s h = refl
flow_codes qr_code qr_error (q ∷ qs) rest s h =
    let e : is_terminal (to_pair_event qr_code qr_error q).event_type ≡ false =
      ground (arith, to_pair_event_terminal qr_code qr_error q) in
    rw e (flow_codes qr_code qr_error qs rest _ (ground arith))

after_fields :
    (convert : QrItem → PairEvent) (codes : List QrItem) (s : Session)
    → s.obs_seq < 2 ^ 64
    → ((after convert codes s).obs_seq ≡ (s.obs_seq + length codes) % 2 ^ 64)
      × ((after convert codes s).out ≡ s.out ++ map convert codes)
      × ((after convert codes s).obs_done ≡ s.obs_done)
unfolding publish
after_fields convert [] s h = (omega arith, sym (append-nil s.out), refl)
after_fields convert (q ∷ qs) s h =
    let (p, o, d) =
      after_fields convert qs (forward (convert q) (publish (convert q) s)) (omega arith) in
    (omega arith, o ∙ append_assoc s.out (convert q ∷ []) (map convert qs), d)

-- A flow that is sent codes and then an item that is no code publishes and forwards all of them in
-- order and nothing after them, is over, and leaves that last item's event, which is terminal, for
-- later observers.
pub flow_until_terminal :
    (qr_code qr_error : String) (codes : List QrItem) (last : QrItem) (rest : List Input)
    (s : Session)
    → all (is_code qr_code) codes ≡ true
    → is_code qr_code last ≡ false
    → s.obs_seq < 2 ^ 64
    → let convert = to_pair_event qr_code qr_error in
      let end = flow convert (sent codes (item last true ∷ rest)) s in
      (end.obs_latest ≡ convert last)
      × (is_terminal end.obs_latest.event_type ≡ true)
      × (end.out ≡ s.out ++ map convert (codes ++ last ∷ []))
      × (end.obs_seq ≡ (s.obs_seq + length codes + 1) % 2 ^ 64)
      × (end.obs_done ≡ true)
unfolding flow publish mark_done
flow_until_terminal qr_code qr_error codes last rest s h n w =
    let convert = to_pair_event qr_code qr_error in
    let e : is_terminal (convert last).event_type ≡ true =
      ground (arith, to_pair_event_terminal qr_code qr_error last) in
    let f = after_fields convert codes s w in
    rw (flow_codes qr_code qr_error codes (item last true ∷ rest) s h) (
      rw (e, flow)
        (
          refl,
          e,
          ap (λ o. o ++ convert last ∷ []) f.1
              ∙ append_assoc s.out (map convert codes) (convert last ∷ [])
              ∙ ap (λ o. s.out ++ o) (sym (map-append convert codes (last ∷ []))),
          omega (arith, f.0),
          refl,
        ))
