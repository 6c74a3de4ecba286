-- ===== src/Cache/Sync.antt =====
-- internal/cache/sync.go: the orchestrator of a synchronisation, its three stages, and the goroutine that runs
-- them. Times are in milliseconds.
pub mod Reports
pub mod Machine
pub mod Endings
pub mod Examples
use whatsapp_mcp_docker.Base.{
  ℕ, zero, suc, ◌+◌, ◌-◌, String, Bool, true, false, not, Option, none, some, List, [], ◌∷◌, ◌++◌,
  ◌==◌, str_eq, if◌then◌else◌, length, all,
}
use Prim.Native.String.{◌++◌ as ◌<>◌}
use whatsapp_mcp_docker.Cache.Models.{Chat, bare_chat, ChatType, Db}
use whatsapp_mcp_docker.Cache.Store.{upsert_chat}

pub data SyncStatus : Type 0 where
  unset : SyncStatus
  running : SyncStatus
  done : SyncStatus
  failed : SyncStatus

pub data StageStatus : Type 0 where
  pending : StageStatus
  in_flight : StageStatus
  stage_done : StageStatus
  stage_failed : StageStatus

pub record Stage : Type 0 where
  pub name : String
  pub status : StageStatus
  pub items : ℕ
  pub started_at : ℕ
  pub finished_at : ℕ
  pub duration_ms : ℕ
  pub error : String

pub record SyncReport : Type 0 where
  -- The time of the start, of which the code writes the decimal digits.
  pub sync_id : Option ℕ
  pub status : SyncStatus
  pub started_at : ℕ
  pub finished_at : ℕ
  pub stages : List Stage
  pub error : String

pub record Orchestrator : Type 0 where
  pub running_now : Bool
  pub current : SyncReport

-- NewSyncOrchestrator
abbrev pub new_orchestrator : Orchestrator
new_orchestrator = record {
  running_now = false;
  current = record {
    sync_id = none;
    status = unset;
    started_at = 0;
    finished_at = 0;
    stages = [];
    error = "";
  };
}

abbrev pending_stage : String → Stage
pending_stage name = record {
  name = name;
  status = pending;
  items = 0;
  started_at = 0;
  finished_at = 0;
  duration_ms = 0;
  error = "";
}

abbrev pub first_report : ℕ → SyncReport
first_report now = record {
  sync_id = some now;
  status = running;
  started_at = now;
  finished_at = 0;
  stages = pending_stage "groups" ∷ pending_stage "newsletters" ∷ pending_stage "app_state" ∷ [];
  error = "";
}

pub record Started : Type 0 where
  pub orchestrator : Orchestrator
  pub report : SyncReport
  pub started : Bool

-- Start; `started` says whether the goroutine was spawned.
unfoldable pub start : ℕ → Orchestrator → Started
start now o =
    if o.running_now
    then record { orchestrator = o; report = o.current; started = false }
    else record {
      orchestrator = record { running_now = true; current = first_report now };
      report = first_report now;
      started = true;
    }

abbrev pub modify_at : ℕ → (Stage → Stage) → List Stage → List Stage
modify_at i f [] = []
modify_at zero f (s ∷ rest) = f s ∷ rest
modify_at (suc i) f (s ∷ rest) = s ∷ modify_at i f rest

abbrev pub on_stage : ℕ → (Stage → Stage) → Orchestrator → Orchestrator
on_stage i f o =
    let r = o.current in record o { current = record r { stages = modify_at i f r.stages } }

-- The first critical section of runStage. The second, just before the call of the worker, only copies the
-- stage.
unfoldable pub begin_stage : ℕ → ℕ → Orchestrator → Orchestrator
begin_stage now i o = on_stage i (λ s. record s { status = in_flight; started_at = now }) o

-- What a worker returns: how many items it counted, and its error.
pub record Worked : Type 0 where
  pub items : ℕ
  pub error : Option String

abbrev pub ended : ℕ → Worked → Option String → Stage → Stage
ended now w none s = record s {
  items = w.items;
  finished_at = now;
  duration_ms = now - s.started_at;
  status = stage_done;
}
ended now w (some e) s = record s {
  items = w.items;
  finished_at = now;
  duration_ms = now - s.started_at;
  status = stage_failed;
  error = e;
}

-- runStage, after the call of the worker
unfoldable pub end_stage : ℕ → Worked → ℕ → Orchestrator → Orchestrator
end_stage now w i o = on_stage i (ended now w w.error) o

abbrev pub has_failed : StageStatus → Bool
has_failed stage_failed = true
has_failed _ = false

abbrev pub failed_names : List Stage → List String
failed_names [] = []
failed_names (s ∷ rest) =
    let more = failed_names rest in if has_failed s.status then s.name ∷ more else more

-- strings.Join(failed, ", ")
abbrev pub join : List String → String
join [] = ""
join (s ∷ []) = s
join (s ∷ t ∷ rest) = s <> (", " <> join (t ∷ rest))

abbrev pub finished : ℕ → List String → SyncReport → SyncReport
finished now [] r = record r { finished_at = now; status = done }
finished now (s ∷ rest) r = record r {
  finished_at = now;
  status = failed;
  error = "stages failed: " <> join (s ∷ rest);
}

-- The end of run
unfoldable pub finish : ℕ → Orchestrator → Orchestrator
finish now o = record {
  running_now = false;
  current = finished now (failed_names o.current.stages) o.current;
}

pub record Group : Type 0 where
  pub user : String
  pub jid : String
  pub is_parent : Bool
  pub name : String
  pub created : ℕ

pub record Newsletter : Type 0 where
  pub user : String
  pub jid : String
  pub name : String
  pub created : ℕ

-- The answer of a call of the WhatsApp library.
pub data Answer {ℓ} (A : Type ℓ) : Type ℓ where
  answered : A → Answer A
  refused : String → Answer A

abbrev group_chat : Group → Chat
group_chat g =
    let chat = bare_chat g.jid in
    record chat {
      is_group = true;
      chat_type = if g.is_parent then ChatType.community else ChatType.group;
      name = g.name;
      last_message_ts = g.created;
    }

abbrev newsletter_chat : Newsletter → Chat
newsletter_chat n =
    let chat = bare_chat n.jid in
    record chat { chat_type = ChatType.newsletter; name = n.name; last_message_ts = n.created }

pub record Work : Type 0 where
  pub db : Db
  pub worked : Worked

abbrev has_error {ℓ} : {A : Type ℓ} → Option A → Bool
has_error none = false
has_error (some e) = true

-- One chat of a stage: an upsert that fails is not counted.
abbrev store_chat : ℕ → Chat → Work → Work
store_chat now chat w =
    let (e, db) = upsert_chat now chat w.db in
    let counted = w.worked in
    record {
      db = db;
      worked = if has_error e then counted else record counted { items = counted.items + 1 };
    }

abbrev store_group : ℕ → Option Group → Work → Work
store_group now none w = w
store_group now (some g) w = if str_eq g.user "" then w else store_chat now (group_chat g) w

unfoldable pub store_groups : ℕ → List (Option Group) → Work → Work
store_groups now [] w = w
store_groups now (g ∷ rest) w = store_groups now rest (store_group now g w)

abbrev store_newsletter : ℕ → Option Newsletter → Work → Work
store_newsletter now none w = w
store_newsletter now (some n) w =
    if str_eq n.user "" then w else store_chat now (newsletter_chat n) w

unfoldable pub store_newsletters : ℕ → List (Option Newsletter) → Work → Work
store_newsletters now [] w = w
store_newsletters now (n ∷ rest) w = store_newsletters now rest (store_newsletter now n w)

abbrev no_work : Db → Option String → Work
no_work db e = record { db = db; worked = record { items = 0; error = e } }

-- runGroups
unfoldable pub run_groups : ℕ → Answer (List (Option Group)) → Db → Work
unfolding store_groups
run_groups now (refused e) db = no_work db (some ("get joined groups: " <> e))
run_groups now (answered groups) db = store_groups now groups (no_work db none)

-- runNewsletters
unfoldable pub run_newsletters : ℕ → Answer (List (Option Newsletter)) → Db → Work
unfolding store_newsletters
run_newsletters now (refused e) db = no_work db (some ("get subscribed newsletters: " <> e))
run_newsletters now (answered newsletters) db = store_newsletters now newsletters (no_work db none)

-- A patch: the ingestor's events that its fetch gave, or the fetch's error.
pub record Patch : Type 0 where
  pub name : String
  pub fetched : Answer ℕ

pub record Fetched : Type 0 where
  pub items : ℕ
  pub failures : List String

abbrev with_patch : String → Answer ℕ → Fetched → Fetched
with_patch name (answered n) f = record f { items = f.items + n }
with_patch name (refused e) f = record f { failures = f.failures ++ ((name <> (": " <> e)) ∷ []) }

unfoldable pub fetch_patches : List Patch → Fetched → Fetched
fetch_patches [] f = f
fetch_patches (p ∷ rest) f = fetch_patches rest (with_patch p.name p.fetched f)

-- strings.Join(failed, "; ")
abbrev join_failures : List String → String
join_failures [] = ""
join_failures (s ∷ []) = s
join_failures (s ∷ t ∷ rest) = s <> ("; " <> join_failures (t ∷ rest))

-- runAppState: `has_ingestor` says whether the ingestor is wired.
unfoldable pub run_app_state : Bool → List Patch → Worked
unfolding fetch_patches
run_app_state false patches = record {
  items = 0;
  error = some "ingestor not wired; cannot count app_state events";
}
run_app_state true patches =
    let f = fetch_patches patches (record { items = 0; failures = [] }) in
    record {
      items = f.items;
      error =
          if length f.failures == length patches
          then some ("all app_state patches failed: " <> join_failures f.failures)
          else none;
    }

-- Where the goroutine that `run` is stands: before a stage, in it but before its worker, in
-- its worker, or at the end.
pub data Point : Type 0 where
  at_groups : Point
  begun_groups : Point
  in_groups : Point
  at_newsletters : Point
  begun_newsletters : Point
  in_newsletters : Point
  at_app_state : Point
  begun_app_state : Point
  in_app_state : Point
  at_end : Point

-- The orchestrator and its goroutine, if there is one.
pub record World : Type 0 where
  pub orchestrator : Orchestrator
  pub goroutine : Option Point

-- A call of Start, or the goroutine's next critical section, with the time it reads and what its
-- worker returned where it follows a worker.
pub data Event : Type 0 where
  call : ℕ → Event
  tick : ℕ → Worked → Event

abbrev pub moved : Point → Orchestrator → World
moved p o = record { orchestrator = o; goroutine = some p }

abbrev pub advance : ℕ → Worked → Option Point → Orchestrator → World
advance now w none o = record { orchestrator = o; goroutine = none }
advance now w (some at_groups) o = moved begun_groups (begin_stage now 0 o)
advance now w (some begun_groups) o = moved in_groups o
advance now w (some in_groups) o = moved at_newsletters (end_stage now w 0 o)
advance now w (some at_newsletters) o = moved begun_newsletters (begin_stage now 1 o)
advance now w (some begun_newsletters) o = moved in_newsletters o
advance now w (some in_newsletters) o = moved at_app_state (end_stage now w 1 o)
advance now w (some at_app_state) o = moved begun_app_state (begin_stage now 2 o)
advance now w (some begun_app_state) o = moved in_app_state o
advance now w (some in_app_state) o = moved at_end (end_stage now w 2 o)
advance now w (some at_end) o = record { orchestrator = finish now o; goroutine = none }

-- One event.
unfoldable pub step : Event → World → World
unfolding start begin_stage end_stage finish
step (call now) w =
    let s = start now w.orchestrator in
    record {
      orchestrator = s.orchestrator;
      goroutine = if s.started then some at_groups else w.goroutine;
    }
step (tick now worked) w = advance now worked w.goroutine w.orchestrator

unfoldable pub run_events : List Event → World → World
unfolding step
run_events [] w = w
run_events (e ∷ rest) w = run_events rest (step e w)

abbrev pub idle : World
idle = record { orchestrator = new_orchestrator; goroutine = none }
