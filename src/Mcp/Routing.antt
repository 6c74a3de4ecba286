-- ===== src/Mcp/Routing.antt =====
-- internal/mcp/server.go: which requests the routes let through to a handler.
use whatsapp_mcp_docker.Base.{
  ◌≡◌, refl, ap, ◌≢◌, ◌↔◌, inl, inr, Bool, Option, [], ◌++◌, if◌then◌else◌, Bool-cases, Bytes,
  codes,
}
use whatsapp_mcp_docker.Mcp.{
  PairingState, Route, mcp, extra, healthz, unrouted, reached, unauthorized, bearer_auth,
  bearer_auth_iff, http_mux, handle_healthz-answers,
}

-- The request is for the handler of the route, which is neither the health probe's nor missing, and has the
-- token, which is not empty.
abbrev pub MayReach : Bytes → Route → Bytes → Route → Type 0
MayReach token route header target =
    (route ≡ target)
    × (route ≢ healthz)
    × (route ≢ unrouted)
    × (token ≢ [])
    × (header ≡ codes "Bearer " ++ token)

same_route : (route target : Route) → reached route ≡ reached target → route ≡ target
same_route route target h = cc

guarded :
    (token header : Bytes) (route target : Route)
    → route ≢ healthz
    → route ≢ unrouted
    → ((if bearer_auth token header then reached route else unauthorized) ≡ reached target)
      ↔ MayReach token route header target
guarded token header route target h u = elim (Bool-cases (bearer_auth token header)) [
  | inl e ↦
      let (some_token, right) = (bearer_auth_iff token header).0 e in
      rw e ((λ r. (same_route route target r, h, u, some_token, right)), λ m. ap reached m.0)
  | inr e ↦
      rw e
        ((λ r. absurd cc), λ m. let pass = (bearer_auth_iff token header).1 (m.3, m.4) in absurd cc)
]

-- A handler is reached exactly by the requests for its route, if that is not `/healthz`, whose header is
-- `Bearer ` and the token, and only where a token is set; the method does not matter.
pub http_mux_iff :
    (token : Bytes) (state : Option PairingState) (route target : Route) (header : Bytes)
    (is_read : Bool)
    → (http_mux token state route header is_read ≡ reached target)
      ↔ MayReach token route header target
unfolding http_mux
http_mux_iff token state mcp target header is_read =
    guarded token header mcp target (λ e. absurd cc) (λ e. absurd cc)
http_mux_iff token state (extra pattern) target header is_read =
    guarded token header (extra pattern) target (λ e. absurd cc) (λ e. absurd cc)
http_mux_iff token state healthz target header is_read =
    ((λ h. absurd (handle_healthz-answers state is_read target h)), λ m. absurd (m.1 refl))
http_mux_iff token state unrouted target header is_read = ((λ h. absurd cc), λ m. absurd (m.2 refl))
