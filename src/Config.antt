-- ===== src/Config.antt =====
-- internal/config/config.go: the configuration from the environment, and its validation.
use whatsapp_mcp_docker.Base.{
  String, ◌≡◌, refl, ap, Bool, true, false, not, ◌&&◌, Option, none, some, List, [], ◌∷◌, arith,
  leb, str_eq, if◌then◌else◌, any,
}
use mathlib.Core.Path.{subst}
use whatsapp_mcp_docker.Base.Int.{ℤ, pos, negsuc, is_negative}

-- os.LookupEnv
abbrev pub Env : Type 0
Env = String → Option String

-- What the code uses of Go's `strconv`, `time` and `strings`: `none` is an error.
pub record Parsers : Type 0 where
  pub int : String → Option ℤ
  pub int64 : String → Option ℤ
  pub duration : String → Option ℤ
  pub bool : String → Option Bool
  pub to_lower : String → String

pub record Config : Type 0 where
  pub transport : String
  pub bind_addr : String
  pub port : ℤ
  pub data_dir : String
  pub log_level : String
  pub log_format : String
  pub auth_token : String
  pub mtls_ca_file : String
  pub mtls_cert_file : String
  pub mtls_key_file : String
  pub pair_device_name : String
  pub ffmpeg_path : String
  pub enable_pprof : Bool
  pub media_max_bytes : ℤ
  pub media_ttl : ℤ
  pub media_sweep_interval : ℤ
  pub media_max_upload_bytes : ℤ

pub data ConfigError : Type 0 where
  unparsed : String → ConfigError
  bad_transport : ConfigError
  bad_log_level : ConfigError
  bad_log_format : ConfigError
  bad_port : ConfigError
  no_data_dir : ConfigError
  negative : String → ConfigError
  mtls_not_implemented : List String → ConfigError
  no_auth_token : ConfigError

abbrev or_default : String → Option String → String
or_default def none = def
or_default def (some v) = if str_eq v "" then def else v

-- getEnv
abbrev get_env : Env → String → String → String
get_env env key def = or_default def (env key)

-- os.Getenv
abbrev or_empty : Option String → String
or_empty none = ""
or_empty (some v) = v

pub data Parsed {ℓ} (A : Type ℓ) : Type ℓ where
  value : A → Parsed A
  error : ConfigError → Parsed A

abbrev parsed_as {ℓ} : {A : Type ℓ} → String → Option A → Parsed A
parsed_as key none = error (unparsed key)
parsed_as key (some a) = value a

abbrev read_as {ℓ} : {A : Type ℓ} → (String → Option A) → String → A → Option String → Parsed A
read_as parse key def none = value def
read_as parse key def (some v) = if str_eq v "" then value def else parsed_as key (parse v)

-- getEnvInt, getEnvInt64, getEnvDuration and getEnvBool, by the parser
unfoldable get_env_as {ℓ} : {A : Type ℓ} → (String → Option A) → Env → String → A → Parsed A
get_env_as parse env key def = read_as parse key def (env key)

abbrev pub bind {ℓ κ} : {A : Type ℓ} {B : Type κ} → Parsed A → (A → Parsed B) → Parsed B
bind (value a) f = f a
bind (error e) f = error e

abbrev is_port : ℤ → Bool
is_port (pos n) = leb 1 n && leb n 65535
is_port (negsuc n) = false

abbrev if_set : String → String → List String → List String
if_set name v rest = if str_eq v "" then rest else name ∷ rest

-- mtlsVarsSet
abbrev mtls_vars_set : Config → List String
mtls_vars_set c =
    if_set "MTLS_CA_FILE" c.mtls_ca_file
      (if_set "MTLS_CERT_FILE" c.mtls_cert_file (if_set "MTLS_KEY_FILE" c.mtls_key_file []))

abbrev after_mtls : Config → List String → Option ConfigError
after_mtls c (v ∷ vars) = some (mtls_not_implemented (v ∷ vars))
after_mtls c [] = if str_eq c.auth_token "" then some no_auth_token else none

-- validateHTTPAuth
abbrev validate_http_auth : Config → Option ConfigError
validate_http_auth c = after_mtls c (mtls_vars_set c)

abbrev one_of : String → List String → Bool
one_of s = any (str_eq s)

-- Validate
unfoldable pub validate : Config → Option ConfigError
validate c =
    if not (one_of c.transport ("http" ∷ "stdio" ∷ []))
    then some bad_transport
    else if not (one_of c.log_level ("debug" ∷ "info" ∷ "warn" ∷ "error" ∷ []))
    then some bad_log_level
    else if not (one_of c.log_format ("json" ∷ "text" ∷ []))
    then some bad_log_format
    else if not (is_port c.port)
    then some bad_port
    else if str_eq c.data_dir ""
    then some no_data_dir
    else if is_negative c.media_max_bytes
    then some (negative "MEDIA_MAX_BYTES")
    else if is_negative c.media_ttl
    then some (negative "MEDIA_TTL")
    else if is_negative c.media_sweep_interval
    then some (negative "MEDIA_SWEEP_INTERVAL")
    else if is_negative c.media_max_upload_bytes
    then some (negative "MEDIA_MAX_UPLOAD_BYTES")
    else if str_eq c.transport "http"
    then validate_http_auth c
    else none

abbrev checked : Config → Option ConfigError → Parsed Config
checked c none = value c
checked c (some e) = error e

-- The fields of the configuration, from the environment and from what was parsed.
abbrev assemble : Parsers → Env → ℤ → Bool → ℤ → ℤ → ℤ → ℤ → Config
assemble p env port pprof max_bytes ttl interval max_upload = record {
  transport = p.to_lower (get_env env "TRANSPORT" "http");
  bind_addr = get_env env "BIND_ADDR" "0.0.0.0";
  port = port;
  data_dir = get_env env "DATA_DIR" "/data";
  log_level = p.to_lower (get_env env "LOG_LEVEL" "info");
  log_format = p.to_lower (get_env env "LOG_FORMAT" "json");
  auth_token = or_empty (env "AUTH_TOKEN");
  mtls_ca_file = or_empty (env "MTLS_CA_FILE");
  mtls_cert_file = or_empty (env "MTLS_CERT_FILE");
  mtls_key_file = or_empty (env "MTLS_KEY_FILE");
  pair_device_name = get_env env "WHATSAPP_DEVICE_NAME" "whatsapp-mcp";
  ffmpeg_path = get_env env "FFMPEG_PATH" "/usr/bin/ffmpeg";
  enable_pprof = pprof;
  media_max_bytes = max_bytes;
  media_ttl = ttl;
  media_sweep_interval = interval;
  media_max_upload_bytes = max_upload;
}

-- Load
unfoldable pub load : Parsers → Env → Parsed Config
unfolding get_env_as validate
load p env = bind (get_env_as p.int env "PORT" (pos 8081)) λ port.
    bind (get_env_as p.bool env "ENABLE_PPROF" false) λ pprof.
      bind (get_env_as p.int64 env "MEDIA_MAX_BYTES" (pos 1_073_741_824)) λ max_bytes.
        bind (get_env_as p.duration env "MEDIA_TTL" (pos 0)) λ ttl.
          bind (get_env_as p.duration env "MEDIA_SWEEP_INTERVAL" (pos 3_600_000_000_000))
            λ interval.
              bind (get_env_as p.int64 env "MEDIA_MAX_UPLOAD_BYTES" (pos 104_857_600)) λ max_upload.
                let c = assemble p env port pprof max_bytes ttl interval max_upload in
                checked c (validate c)

-- A configuration that the program starts with.
abbrev pub IsSafe : Config → Type 0
IsSafe c =
    (is_port c.port ≡ true)
    × (c.transport ≡ "http" → (str_eq c.auth_token "" ≡ false) × (mtls_vars_set c ≡ []))
    × (str_eq c.data_dir "" ≡ false)
    × (is_negative c.media_max_bytes ≡ false)
    × (is_negative c.media_ttl ≡ false)
    × (is_negative c.media_sweep_interval ≡ false)
    × (is_negative c.media_max_upload_bytes ≡ false)

after_mtls-none :
    (c : Config) (vars : List String)
    → after_mtls c vars ≡ none
    → (vars ≡ []) × (str_eq c.auth_token "" ≡ false)
after_mtls-none c [] h = (refl, ground arith)
after_mtls-none c (v ∷ vars) h = absurd cc

-- Validation passes only for safe configurations.
pub validate-IsSafe : (c : Config) → validate c ≡ none → IsSafe c
unfolding validate
validate-IsSafe c h = (
  ground arith,
  λ http.
      let is_http : str_eq c.transport "http" ≡ true = rw http refl in
      let auth : validate_http_auth c ≡ none = ground arith in
      let (vars, token) = after_mtls-none c (mtls_vars_set c) auth in (token, vars),
  ground arith,
  ground arith,
  ground arith,
  ground arith,
  ground arith,
)

bound {ℓ κ} :
    {A : Type ℓ} {B : Type κ} (x : Parsed A) (f : A → Parsed B) (b : B)
    → bind x f ≡ value b
    → (a : A) × (f a ≡ value b)
bound (value a) f b h = (a, h)
bound (error e) f b h = absurd cc

abbrev value_or {ℓ} : {A : Type ℓ} → A → Parsed A → A
value_or a (value b) = b
value_or a (error e) = a

checked-value :
    (c d : Config) (e : Option ConfigError) → checked c e ≡ value d → (e ≡ none) × (c ≡ d)
checked-value c d none h = (refl, ap (value_or c) h)
checked-value c d (some e) h = absurd cc

checked-IsSafe : (c d : Config) → checked c (validate c) ≡ value d → IsSafe d
checked-IsSafe c d h =
    let (valid, same) = checked-value c d (validate c) h in
    subst IsSafe same (validate-IsSafe c valid)

-- A configuration that is loaded has a valid port, a data directory and limits that are not negative,
-- and if its transport is HTTP it has a token and none of the variables of mutual TLS, whatever the
-- environment holds.
pub load-IsSafe : (p : Parsers) (env : Env) (c : Config) → load p env ≡ value c → IsSafe c
unfolding load
load-IsSafe p env c h =
    let (port, h1) = bound (get_env_as p.int env "PORT" (pos 8081)) _ c h in
    let (pprof, h2) = bound (get_env_as p.bool env "ENABLE_PPROF" false) _ c h1 in
    let (max_bytes, h3) =
      bound (get_env_as p.int64 env "MEDIA_MAX_BYTES" (pos 1_073_741_824)) _ c h2 in
    let (ttl, h4) = bound (get_env_as p.duration env "MEDIA_TTL" (pos 0)) _ c h3 in
    let (interval, h5) =
      bound (get_env_as p.duration env "MEDIA_SWEEP_INTERVAL" (pos 3_600_000_000_000)) _ c h4 in
    let (max_upload, h6) =
      bound (get_env_as p.int64 env "MEDIA_MAX_UPLOAD_BYTES" (pos 104_857_600)) _ c h5 in
    checked-IsSafe (assemble p env port pprof max_bytes ttl interval max_upload) c h6
