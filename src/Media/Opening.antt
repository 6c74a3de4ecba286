-- ===== src/Media/Opening.antt =====
-- internal/media: the opening of a store, and the loop of the sweeper.
use whatsapp_mcp_docker.Base.{
  ℕ, ◌≡◌, refl, ◌≢◌, inl, inr, Bool, true, false, ◌&&◌, List, [], ◌∷◌, ◌==◌, if◌then◌else◌,
  Bool-cases, Bytes, bytes_eq, bytes_eq_sound,
}
use whatsapp_mcp_docker.Base.Int.{ℤ, pos, negsuc, is_negative}
use whatsapp_mcp_docker.Config.{Config, Env, Parsers, load, Parsed, load-IsSafe}
use whatsapp_mcp_docker.Media.Payloads.{Options}

-- The options as the caller gives them.
pub record RawOptions : Type 0 where
  pub max_bytes : ℤ
  pub ttl : ℤ
  pub max_upload_bytes : ℤ

pub data OpenError : Type 0 where
  dir_required : OpenError
  negative_max_bytes : OpenError
  negative_ttl : OpenError
  negative_max_upload_bytes : OpenError
  not_created : OpenError

pub data OpenedStore : Type 0 where
  opened : Options → OpenedStore
  refused : OpenError → OpenedStore

abbrev amount : ℤ → ℕ
amount (pos n) = n
amount (negsuc n) = 0

-- Open; `makes` says whether the directory can be made.
unfoldable pub open_store : Bool → Bytes → RawOptions → OpenedStore
open_store makes dir o =
    if bytes_eq dir []
    then refused dir_required
    else if is_negative o.max_bytes
    then refused negative_max_bytes
    else if is_negative o.ttl
    then refused negative_ttl
    else if is_negative o.max_upload_bytes
    then refused negative_max_upload_bytes
    else if makes
    then opened (record {
      max_bytes = amount o.max_bytes;
      ttl = amount o.ttl;
      max_upload_bytes = amount o.max_upload_bytes;
    })
    else refused not_created

-- What the loop of the sweeper waits for.
pub data SweeperEvent : Type 0 where
  ticked : ℕ → SweeperEvent
  cancelled : SweeperEvent

abbrev sweeps_at : List SweeperEvent → List ℕ
sweeps_at [] = []
sweeps_at (ticked now ∷ rest) = now ∷ sweeps_at rest
sweeps_at (cancelled ∷ rest) = []

-- RunSweeper: the times of its sweeps, from the time of its start and what it meets then.
unfoldable pub run_sweeper : Options → ℕ → List SweeperEvent → List ℕ
run_sweeper o now events =
    if (o.max_bytes == 0) && (o.ttl == 0) then now ∷ [] else now ∷ sweeps_at events

-- The media options of a configuration.
abbrev pub media_options : Config → RawOptions
media_options c = record {
  max_bytes = c.media_max_bytes;
  ttl = c.media_ttl;
  max_upload_bytes = c.media_max_upload_bytes;
}

-- With a configuration that was loaded, a store opens in every directory that has a name and can be made.
pub open_store-load :
    (p : Parsers) (env : Env) (c : Config) (dir : Bytes)
    → load p env ≡ Parsed.value c
    → dir ≢ []
    → (o : Options) × (open_store true dir (media_options c) ≡ opened o)
unfolding open_store
open_store-load p env c dir h name =
    let (port, auth, data_dir, max_bytes, ttl, interval, max_upload) = load-IsSafe p env c h in
    let named : bytes_eq dir [] ≡ false = elim (Bool-cases (bytes_eq dir [])) [
      | inl e ↦ absurd (name (bytes_eq_sound dir [] e))
      | inr e ↦ e
    ] in
    rw (named, max_bytes, ttl, max_upload) (_, refl)
