-- ===== src/Mcp.antt =====
-- internal/mcp/mcp.go and server.go: the registry, the gate before every tool, bearer authentication and the
-- routes.
pub mod Routing
pub mod Examples
use whatsapp_mcp_docker.Base.{
  ℕ, String, ◌≡◌, refl, ap, ◌∙◌, ◌≢◌, ◌↔◌, inl, inr, Bool, true, false, not, ◌&&◌, ◌||◌, Option,
  none, some, List, [], ◌∷◌, ◌++◌, arith, ltb, ◌==◌, str_eq, if◌then◌else◌, Bool-cases, length,
  drop, Bytes, codes, bytes_eq, bytes_eq_sound, bytes_eq_refl, has_prefix,
}
use whatsapp_mcp_docker.Base.Keys.{string_eq}
use whatsapp_mcp_docker.Base.Texts.{has}
use whatsapp_mcp_docker.Cache.Table
use whatsapp_mcp_docker.Cache.Table.{Table, find}

pub record ServerConfig : Type 0 where
  pub transport : String
  pub auth_token : Bytes
  pub port : ℕ
  pub name : String
  pub cache_only_tools : List String

pub data ServerError : Type 0 where
  http_without_token : ServerError
  invalid_port : ServerError
  unknown_transport : ServerError
  empty_name : ServerError
  empty_tool_name : ServerError
  nil_handler : ServerError
  already_registered : ServerError

abbrev named : ServerConfig → Option ServerError
named c = if str_eq c.name "" then some empty_name else none

-- validate; a port below 0 is refused by the configuration.
unfoldable pub validate : ServerConfig → Option ServerError
validate c =
    if str_eq c.transport "http"
    then (if bytes_eq c.auth_token []
        then some http_without_token
        else if (c.port == 0) || ltb 65535 c.port
        then some invalid_port
        else named c)
    else if str_eq c.transport "stdio"
    then named c
    else some unknown_transport

-- What a tool answers: a structured error of a stable code, or its result.
pub data ToolResult {ℓ} (A : Type ℓ) : Type ℓ where
  not_paired : ToolResult A
  not_connected : ToolResult A
  answer : A → ToolResult A

pub record PairingState : Type 0 where
  pub is_paired : Bool
  pub is_connected : Bool

-- exemptFromPairingGate
abbrev pub exempt_from_pairing_gate : List String
exempt_from_pairing_gate = "ping" ∷ "pairing_start" ∷ "pairing_complete" ∷ "cache_sync_status" ∷ []

-- pairingMiddleware around a handler; a missing state lets every call pass.
unfoldable pub pairing_middleware {ℓ} :
    {A : Type ℓ} → Option PairingState → List String → List String → String → A → ToolResult A
pairing_middleware none exempt cache_only name next = answer next
pairing_middleware (some state) exempt cache_only name next =
    if has name exempt
    then answer next
    else if not state.is_paired
    then not_paired
    else if not (has name cache_only) && not state.is_connected
    then not_connected
    else answer next

pub record Tool {ℓ} (H : Type ℓ) : Type ℓ where
  pub name : String
  -- Missing for nil.
  pub handler : Option H

pub record Registered {ℓ} (H : Type ℓ) : Type ℓ where
  pub tools : Table String H
  pub error : Option ServerError

abbrev add_tool {ℓ} : {H : Type ℓ} → String → Option H → Option H → Table String H → Registered H
add_tool name none old tools = record { tools = tools; error = some nil_handler }
add_tool name (some h) (some old) tools = record { tools = tools; error = some already_registered }
add_tool name (some h) none tools = record {
  tools = Table.upsert name h (λ _. h) tools;
  error = none;
}

-- Register
unfoldable pub register {ℓ} : {H : Type ℓ} → Tool H → Table String H → Registered H
register t tools =
    if str_eq t.name ""
    then record { tools = tools; error = some empty_tool_name }
    else add_tool t.name t.handler (find t.name tools) tools

-- bearerAuth: whether the request reaches the handler. The comparison takes the same time for all texts of
-- one length, which is not modelled.
unfoldable pub bearer_auth : Bytes → Bytes → Bool
bearer_auth token header =
    not (bytes_eq token [])
    && (has_prefix (codes "Bearer ") header
        && bytes_eq (drop (length (codes "Bearer ")) header) token)

-- The handler that the routing of net/http finds for a path.
pub data Route : Type 0 where
  mcp : Route
  extra : String → Route
  healthz : Route
  unrouted : Route

pub data Reply : Type 0 where
  reached : Route → Reply
  unauthorized : Reply
  health : ℕ → String → Reply
  not_found : Reply
  not_allowed : Reply

abbrev health_of : PairingState → Reply
health_of state =
    if not state.is_paired
    then health 200 "awaiting_pairing"
    else if not state.is_connected
    then health 503 "disconnected"
    else health 200 "ok"

abbrev health_or_ok : Option PairingState → Reply
health_or_ok none = health 200 "ok"
health_or_ok (some state) = health_of state

-- handleHealthz; `is_read` says whether the method is GET or HEAD.
unfoldable pub handle_healthz : Option PairingState → Bool → Reply
handle_healthz state is_read = if is_read then health_or_ok state else not_allowed

-- newHTTPMux
unfoldable pub http_mux : Bytes → Option PairingState → Route → Bytes → Bool → Reply
unfolding bearer_auth handle_healthz
http_mux token state healthz header is_read = handle_healthz state is_read
http_mux token state unrouted header is_read = not_found
http_mux token state route header is_read =
    if bearer_auth token header then reached route else unauthorized

has_prefix_iff : (p s : Bytes) → (has_prefix p s ≡ true) ↔ (s ≡ p ++ drop (length p) s)
has_prefix_iff [] s = (λ h. refl, λ h. refl)
has_prefix_iff (c ∷ p) [] = (λ h. absurd cc, λ h. absurd cc)
has_prefix_iff (c ∷ p) (b ∷ s) = ground (arith, has_prefix_iff p s)

-- A request passes exactly if there is a token and the header is `Bearer ` and the token.
pub bearer_auth_iff :
    (token header : Bytes)
    → (bearer_auth token header ≡ true) ↔ ((token ≢ []) × (header ≡ codes "Bearer " ++ token))
unfolding bearer_auth
bearer_auth_iff token header =
    let prefix = has_prefix_iff (codes "Bearer ") header in
    let empty = bytes_eq_sound token [] in
    let rest = drop (length (codes "Bearer ")) header in
    let same = bytes_eq_sound rest token in
    (
      λ h.
          let starts = prefix.0 (ground arith) in
          let tail : rest ≡ token = same (ground arith) in
          (
            λ e. absurd (let no : bytes_eq token [] ≡ true = rw e refl in ground arith),
            starts ∙ ap (λ t. codes "Bearer " ++ t) tail,
          ),
      λ (some_token, e).
          let filled : bytes_eq token [] ≡ false = elim (Bool-cases (bytes_eq token [])) [
            | inl t ↦ absurd (some_token (empty t))
            | inr t ↦ t
          ] in
          rw (e, filled) (bytes_eq_refl token),
    )

-- A tool is run exactly if it is exempt from the gate, or the device is paired and the tool needs only the
-- cache or the device is connected. Which error it gets otherwise is decided by the pairing alone.
pub pairing_middleware_lem {ℓ} :
    {A : Type ℓ} (state : PairingState) (exempt cache_only : List String) (name : String) (next : A)
    → pairing_middleware (some state) exempt cache_only name next ≡ (
        if has name exempt || (state.is_paired && (has name cache_only || state.is_connected))
        then answer next
        else if state.is_paired
        then not_connected
        else not_paired)
unfolding pairing_middleware
pairing_middleware_lem state exempt cache_only name next = ground arith

health_unreached : (state : PairingState) (target : Route) → health_of state ≢ reached target
health_unreached state target h = elim (Bool-cases state.is_paired) [
  | inl p ↦ elim (Bool-cases state.is_connected) [
    | inl c ↦ absurd (let no : health 200 "ok" ≡ reached target = rw (p, c) at h in cc)
    | inr c ↦ absurd (let no : health 503 "disconnected" ≡ reached target = rw (p, c) at h in cc)
  ]
  | inr p ↦ absurd (let no : health 200 "awaiting_pairing" ≡ reached target = rw p at h in cc)
]

pub handle_healthz-answers :
    (state : Option PairingState) (is_read : Bool) (target : Route)
    → handle_healthz state is_read ≢ reached target
unfolding handle_healthz
handle_healthz-answers state false target h = absurd cc
handle_healthz-answers none true target h = absurd cc
handle_healthz-answers (some state) true target h = health_unreached state target h

abbrev pub code_of : Reply → ℕ
code_of (health code status) = code
code_of unauthorized = 401
code_of not_found = 404
code_of not_allowed = 405
code_of (reached route) = 200

-- `/healthz` answers 503 exactly if the device is paired and not connected.
pub handle_healthz_iff :
    (paired connected : Bool)
    → (code_of
          (handle_healthz (some (record { is_paired = paired; is_connected = connected })) true)
        ≡ 503)
      ↔ ((paired ≡ true) × (connected ≡ false))
unfolding handle_healthz
handle_healthz_iff true true = ground arith
handle_healthz_iff true false = ground arith
handle_healthz_iff false connected = ground arith
