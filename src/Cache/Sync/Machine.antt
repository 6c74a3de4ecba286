-- ===== src/Cache/Sync/Machine.antt =====
-- internal/cache/sync.go: the states that calls of Start and the goroutine of a run can reach.
use whatsapp_mcp_docker.Base.{
  ℕ, ◌≡◌, refl, inl, inr, true, false, Option, none, some, List, [], ◌∷◌,
}
use whatsapp_mcp_docker.Cache.Sync.{
  running, in_flight, Stage, Orchestrator, start, begin_stage, end_stage, finish, Worked,
  failed_names, finished, ended, Point, at_groups, begun_groups, in_groups, at_newsletters,
  begun_newsletters, in_newsletters, at_app_state, begun_app_state, in_app_state, at_end, World,
  advance, Event, call, tick, step, run_events, idle,
}
use whatsapp_mcp_docker.Cache.Sync.Reports.{
  is_pending, is_in_flight, is_ended, are_at, IsComplete, IsOver, complete_stages, Says-finished,
  stages-finished, is_ended-ended, three-modify_at_0, three-modify_at_1, three-modify_at_2,
}

-- At most one run is under way; the orchestrator says so, and its report tells how far the run is.
abbrev pub IsConsistent : Option Point → Orchestrator → Type 0
IsConsistent none o = (o.running_now ≡ false) × IsOver o.current
IsConsistent (some p) o =
    (o.running_now ≡ true) × (o.current.status ≡ running) × (are_at p o.current.stages ≡ true)

pub finish-IsConsistent :
    (now : ℕ) (o : Orchestrator)
    → IsConsistent (some at_end) o
    → IsConsistent none (finish now o) × IsComplete (finish now o).current
unfolding finish
finish-IsConsistent now o (run, status, stages) =
    let names = failed_names o.current.stages in
    let same = stages-finished now names o.current in
    let (three', failures) = complete_stages o.current.stages stages in
    let complete : IsComplete (finished now names o.current) =
      (rw same three', (names, rw same failures, Says-finished now names o.current)) in
    ((refl, inr complete), complete)

abbrev begun : ℕ → Stage → Stage
begun now s = record s { status = in_flight; started_at = now }

-- A step of the goroutine moves it on, or ends the run.
pub advance-IsConsistent :
    (now : ℕ) (w : Worked) (p : Point) (o : Orchestrator)
    → IsConsistent (some p) o
    → IsConsistent (advance now w (some p) o).goroutine (advance now w (some p) o).orchestrator
unfolding begin_stage end_stage
advance-IsConsistent now w at_groups o (run, status, stages) = (
  run,
  status,
  three-modify_at_0 is_pending is_pending is_pending is_in_flight (begun now) o.current.stages
      stages (λ s. refl),
)
advance-IsConsistent now w begun_groups o h = h
advance-IsConsistent now w in_groups o (run, status, stages) = (
  run,
  status,
  three-modify_at_0 is_in_flight is_pending is_pending is_ended (ended now w w.error)
      o.current.stages stages (is_ended-ended now w w.error),
)
advance-IsConsistent now w at_newsletters o (run, status, stages) = (
  run,
  status,
  three-modify_at_1 is_ended is_pending is_pending is_in_flight (begun now) o.current.stages stages
      (λ s. refl),
)
advance-IsConsistent now w begun_newsletters o h = h
advance-IsConsistent now w in_newsletters o (run, status, stages) = (
  run,
  status,
  three-modify_at_1 is_ended is_in_flight is_pending is_ended (ended now w w.error) o.current.stages
      stages (is_ended-ended now w w.error),
)
advance-IsConsistent now w at_app_state o (run, status, stages) = (
  run,
  status,
  three-modify_at_2 is_ended is_ended is_pending is_in_flight (begun now) o.current.stages stages
      (λ s. refl),
)
advance-IsConsistent now w begun_app_state o h = h
advance-IsConsistent now w in_app_state o (run, status, stages) = (
  run,
  status,
  three-modify_at_2 is_ended is_ended is_in_flight is_ended (ended now w w.error) o.current.stages
      stages (is_ended-ended now w w.error),
)
advance-IsConsistent now w at_end o h = (finish-IsConsistent now o h).0

call-IsConsistent :
    (now : ℕ) (g : Option Point) (o : Orchestrator)
    → IsConsistent g o
    → IsConsistent
        (step (call now) (record { orchestrator = o; goroutine = g })).goroutine
        (step (call now) (record { orchestrator = o; goroutine = g })).orchestrator
unfolding step start
call-IsConsistent now none o (idle', over) = rw idle' (refl, refl, refl)
call-IsConsistent now (some p) o (run, status, stages) = rw run (refl, status, stages)

step-IsConsistent :
    (e : Event) (g : Option Point) (o : Orchestrator)
    → IsConsistent g o
    → IsConsistent
        (step e (record { orchestrator = o; goroutine = g })).goroutine
        (step e (record { orchestrator = o; goroutine = g })).orchestrator
unfolding step
step-IsConsistent (call now) g o h = call-IsConsistent now g o h
step-IsConsistent (tick now w) none o h = h
step-IsConsistent (tick now w) (some p) o h = advance-IsConsistent now w p o h

run_events_from :
    (events : List Event) (w : World)
    → IsConsistent w.goroutine w.orchestrator
    → IsConsistent (run_events events w).goroutine (run_events events w).orchestrator
unfolding run_events
run_events_from [] w h = h
run_events_from (e ∷ rest) w h =
    run_events_from rest (step e w) (step-IsConsistent e w.goroutine w.orchestrator h)

-- Whatever calls of Start come between the steps of a run, and whatever its workers return, at most one run is
-- under way, the orchestrator's flag says so, and the report shows which stages have ended; when no run is
-- under way the report is empty or over, and it is over with `failed` and the names of the failed stages
-- exactly if there are any, otherwise with `done`.
pub run_events-IsConsistent :
    (events : List Event)
    → IsConsistent (run_events events idle).goroutine (run_events events idle).orchestrator
run_events-IsConsistent events = run_events_from events idle (refl, inl (refl, refl))
