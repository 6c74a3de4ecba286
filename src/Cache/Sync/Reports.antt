-- ===== src/Cache/Sync/Reports.antt =====
-- internal/cache/sync.go: the reports of a run, during it and when it is over.
use whatsapp_mcp_docker.Base.{
  ℕ, String, ◌≡◌, refl, ◌⊎◌, length, inl, inr, Bool, true, false, ◌&&◌, Option, none, some, List,
  [], ◌∷◌, arith,
}
use Prim.Native.String.{◌++◌ as ◌<>◌}
use whatsapp_mcp_docker.Cache.Sync.{
  unset, done, failed, StageStatus, pending, in_flight, stage_done, stage_failed, Stage, SyncReport,
  Worked, failed_names, join, finished, ended, modify_at, Point, at_groups, begun_groups, in_groups,
  at_newsletters, begun_newsletters, in_newsletters, at_app_state, begun_app_state, in_app_state,
  at_end,
}

abbrev pub is_pending : StageStatus → Bool
is_pending pending = true
is_pending _ = false

abbrev pub is_in_flight : StageStatus → Bool
is_in_flight in_flight = true
is_in_flight _ = false

abbrev pub is_ended : StageStatus → Bool
is_ended stage_done = true
is_ended stage_failed = true
is_ended _ = false

abbrev pub three :
    (StageStatus → Bool) → (StageStatus → Bool) → (StageStatus → Bool) → List Stage → Bool
three p q r (a ∷ b ∷ c ∷ []) = p a.status && (q b.status && r c.status)
three p q r _ = false

-- The stages before the point have ended, the one that it is in is in flight, the others are pending.
abbrev pub are_at : Point → List Stage → Bool
are_at at_groups = three is_pending is_pending is_pending
are_at begun_groups = three is_in_flight is_pending is_pending
are_at in_groups = three is_in_flight is_pending is_pending
are_at at_newsletters = three is_ended is_pending is_pending
are_at begun_newsletters = three is_ended is_in_flight is_pending
are_at in_newsletters = three is_ended is_in_flight is_pending
are_at at_app_state = three is_ended is_ended is_pending
are_at begun_app_state = three is_ended is_ended is_in_flight
are_at in_app_state = three is_ended is_ended is_in_flight
are_at at_end = three is_ended is_ended is_ended

-- The names of the stages that failed, in their order.
pub data Failures : List Stage → List String → Type 0 where
  nothing_left : Failures [] []
  failure :
      {s : Stage} {rest : List Stage} {names : List String}
      → s.status ≡ stage_failed
      → Failures rest names
      → Failures (s ∷ rest) (s.name ∷ names)
  success :
      {s : Stage} {rest : List Stage} {names : List String}
      → s.status ≡ stage_done
      → Failures rest names
      → Failures (s ∷ rest) names

-- A report that is over: its three stages have ended, and it says `done` if no stage failed, and otherwise
-- `failed` with the names of those that did.
abbrev pub Says : List String → SyncReport → Type 0
Says [] r = r.status ≡ done
Says (s ∷ rest) r = (r.status ≡ failed) × (r.error ≡ "stages failed: " <> join (s ∷ rest))

abbrev pub IsComplete : SyncReport → Type 0
IsComplete r =
    (length r.stages ≡ 3) × ((names : List String) × Failures r.stages names × Says names r)

abbrev pub IsOver : SyncReport → Type 0
IsOver r = ((r.status ≡ unset) × (r.stages ≡ [])) ⊎ IsComplete r

ended_cases : (x : StageStatus) → is_ended x ≡ true → (x ≡ stage_failed) ⊎ (x ≡ stage_done)
ended_cases stage_done h = inr refl
ended_cases stage_failed h = inl refl
ended_cases pending h = absurd cc
ended_cases in_flight h = absurd cc

Failures-cons :
    (s : Stage) (rest : List Stage)
    → is_ended s.status ≡ true
    → Failures rest (failed_names rest)
    → Failures (s ∷ rest) (failed_names (s ∷ rest))
Failures-cons s rest h more = elim (ended_cases s.status h) [
  | inl e ↦
      let same : failed_names (s ∷ rest) ≡ s.name ∷ failed_names rest = ground arith in
      rw same (failure e more)
  | inr e ↦
      let same : failed_names (s ∷ rest) ≡ failed_names rest = ground arith in
      rw same (success e more)
]

Failures-failed_names :
    (a b c : Stage)
    → three is_ended is_ended is_ended (a ∷ b ∷ c ∷ []) ≡ true
    → Failures (a ∷ b ∷ c ∷ []) (failed_names (a ∷ b ∷ c ∷ []))
Failures-failed_names a b c h =
    Failures-cons a (b ∷ c ∷ []) (ground arith)
      (Failures-cons b (c ∷ []) (ground arith) (Failures-cons c [] (ground arith) nothing_left))

pub complete_stages :
    (stages : List Stage)
    → are_at at_end stages ≡ true
    → (length stages ≡ 3) × Failures stages (failed_names stages)
complete_stages [] h = absurd cc
complete_stages (a ∷ []) h = absurd cc
complete_stages (a ∷ b ∷ []) h = absurd cc
complete_stages (a ∷ b ∷ c ∷ []) h = (refl, Failures-failed_names a b c h)
complete_stages (a ∷ b ∷ c ∷ d ∷ stages) h = absurd cc

pub Says-finished :
    (now : ℕ) (names : List String) (r : SyncReport) → Says names (finished now names r)
Says-finished now [] r = refl
Says-finished now (s ∷ rest) r = (refl, refl)

pub stages-finished :
    (now : ℕ) (names : List String) (r : SyncReport) → (finished now names r).stages ≡ r.stages
stages-finished now [] r = refl
stages-finished now (s ∷ rest) r = refl

pub is_ended-ended :
    (now : ℕ) (w : Worked) (e : Option String) (s : Stage)
    → is_ended (ended now w e s).status ≡ true
is_ended-ended now w none s = refl
is_ended-ended now w (some e) s = refl

pub three-modify_at_0 :
    (p q r p' : StageStatus → Bool) (f : Stage → Stage) (stages : List Stage)
    → three p q r stages ≡ true
    → ((s : Stage) → p' (f s).status ≡ true)
    → three p' q r (modify_at 0 f stages) ≡ true
three-modify_at_0 p q r p' f [] h new = absurd cc
three-modify_at_0 p q r p' f (a ∷ []) h new = absurd cc
three-modify_at_0 p q r p' f (a ∷ b ∷ []) h new = absurd cc
three-modify_at_0 p q r p' f (a ∷ b ∷ c ∷ []) h new = ground (arith, new a)
three-modify_at_0 p q r p' f (a ∷ b ∷ c ∷ d ∷ stages) h new = absurd cc

pub three-modify_at_1 :
    (p q r q' : StageStatus → Bool) (f : Stage → Stage) (stages : List Stage)
    → three p q r stages ≡ true
    → ((s : Stage) → q' (f s).status ≡ true)
    → three p q' r (modify_at 1 f stages) ≡ true
three-modify_at_1 p q r q' f [] h new = absurd cc
three-modify_at_1 p q r q' f (a ∷ []) h new = absurd cc
three-modify_at_1 p q r q' f (a ∷ b ∷ []) h new = absurd cc
three-modify_at_1 p q r q' f (a ∷ b ∷ c ∷ []) h new = ground (arith, new b)
three-modify_at_1 p q r q' f (a ∷ b ∷ c ∷ d ∷ stages) h new = absurd cc

pub three-modify_at_2 :
    (p q r r' : StageStatus → Bool) (f : Stage → Stage) (stages : List Stage)
    → three p q r stages ≡ true
    → ((s : Stage) → r' (f s).status ≡ true)
    → three p q r' (modify_at 2 f stages) ≡ true
three-modify_at_2 p q r r' f [] h new = absurd cc
three-modify_at_2 p q r r' f (a ∷ []) h new = absurd cc
three-modify_at_2 p q r r' f (a ∷ b ∷ []) h new = absurd cc
three-modify_at_2 p q r r' f (a ∷ b ∷ c ∷ []) h new = ground (arith, new c)
three-modify_at_2 p q r r' f (a ∷ b ∷ c ∷ d ∷ stages) h new = absurd cc
