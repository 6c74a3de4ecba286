-- ===== src/Cache/Sync/Endings.antt =====
-- internal/cache/sync.go: how a run ends, whatever calls of Start come between its steps.
use whatsapp_mcp_docker.Base.{
  ℕ, suc, ◌≤◌, ◌<◌, ◌≡◌, refl, sym, ap, true, false, Option, none, some, List, [], ◌∷◌, ◌++◌, arith,
}
use whatsapp_mcp_docker.Cache.Sync.{
  Orchestrator, start, begin_stage, end_stage, Worked, Point, at_groups, begun_groups, in_groups,
  at_newsletters, begun_newsletters, in_newsletters, at_app_state, begun_app_state, in_app_state,
  at_end, World, advance, Event, call, tick, step, run_events, idle,
}
use whatsapp_mcp_docker.Cache.Sync.Reports.{IsComplete}
use whatsapp_mcp_docker.Cache.Sync.Machine.{
  IsConsistent, finish-IsConsistent, advance-IsConsistent, run_events-IsConsistent,
}

-- How many steps the goroutine has left.
abbrev steps_left : Option Point → ℕ
steps_left none = 0
steps_left (some at_groups) = 10
steps_left (some begun_groups) = 9
steps_left (some in_groups) = 8
steps_left (some at_newsletters) = 7
steps_left (some begun_newsletters) = 6
steps_left (some in_newsletters) = 5
steps_left (some at_app_state) = 4
steps_left (some begun_app_state) = 3
steps_left (some in_app_state) = 2
steps_left (some at_end) = 1

-- How many of the events are steps of the goroutine.
abbrev pub ticks : List Event → ℕ
ticks [] = 0
ticks (call now ∷ rest) = ticks rest
ticks (tick now w ∷ rest) = suc (ticks rest)

-- At some point of the events the run has just ended: no goroutine is left, the orchestrator's flag is down,
-- and the report is complete.
abbrev pub Ends : List Event → World → Type 0
Ends events w =
    (before after : List Event) × (events ≡ before ++ after)
    × ((run_events before w).goroutine ≡ none)
    × ((run_events before w).orchestrator.running_now ≡ false)
    × IsComplete (run_events before w).orchestrator.current

left-advance :
    (now : ℕ) (w : Worked) (p : Point) (o : Orchestrator)
    → suc (steps_left (advance now w (some p) o).goroutine) ≡ steps_left (some p)
left-advance now w at_groups o = refl
left-advance now w begun_groups o = refl
left-advance now w in_groups o = refl
left-advance now w at_newsletters o = refl
left-advance now w begun_newsletters o = refl
left-advance now w in_newsletters o = refl
left-advance now w at_app_state o = refl
left-advance now w begun_app_state o = refl
left-advance now w in_app_state o = refl
left-advance now w at_end o = refl

some_left : (p : Point) → 0 < steps_left (some p)
some_left at_groups = omega arith
some_left begun_groups = omega arith
some_left in_groups = omega arith
some_left at_newsletters = omega arith
some_left begun_newsletters = omega arith
some_left in_newsletters = omega arith
some_left at_app_state = omega arith
some_left begun_app_state = omega arith
some_left in_app_state = omega arith
some_left at_end = omega arith

call-running :
    (now : ℕ) (p : Point) (o : Orchestrator)
    → o.running_now ≡ true
    → step (call now) (record { orchestrator = o; goroutine = some p })
      ≡ record { orchestrator = o; goroutine = some p }
unfolding step start
call-running now p o run = rw run refl

later : (e : Event) (rest : List Event) (w : World) → Ends rest (step e w) → Ends (e ∷ rest) w
unfolding run_events
later e rest w (before, after, split, over, down, complete) =
    (e ∷ before, after, ap (◌∷◌ e) split, over, down, complete)

at_most_ten : (g : Option Point) → steps_left g ≤ 10
at_most_ten none = omega arith
at_most_ten (some at_groups) = omega arith
at_most_ten (some begun_groups) = omega arith
at_most_ten (some in_groups) = omega arith
at_most_ten (some at_newsletters) = omega arith
at_most_ten (some begun_newsletters) = omega arith
at_most_ten (some in_newsletters) = omega arith
at_most_ten (some at_app_state) = omega arith
at_most_ten (some begun_app_state) = omega arith
at_most_ten (some in_app_state) = omega arith
at_most_ten (some at_end) = omega arith

last-Ends :
    (now : ℕ) (w : Worked) (rest : List Event) (o : Orchestrator)
    → IsConsistent (some at_end) o
    → Ends (tick now w ∷ rest) (record { orchestrator = o; goroutine = some at_end })
unfolding run_events step
last-Ends now w rest o c =
    let (consistent, complete) = finish-IsConsistent now o c in
    (tick now w ∷ [], rest, refl, refl, consistent.0, complete)

run-Ends :
    (events : List Event) (p : Point) (o : Orchestrator)
    → IsConsistent (some p) o
    → steps_left (some p) ≤ ticks events
    → Ends events (record { orchestrator = o; goroutine = some p })
unfolding run_events step
run-Ends [] p o c h = absurd (omega (arith, some_left p))
run-Ends (call now ∷ rest) p o (run, status, stages) h =
    let same = call-running now p o run in
    later (call now) rest (record { orchestrator = o; goroutine = some p })
      (rw same (run-Ends rest p o (run, status, stages) h))
run-Ends (tick now w ∷ rest) at_groups o c h =
    later (tick now w) rest (record { orchestrator = o; goroutine = some at_groups })
      (run-Ends rest begun_groups (begin_stage now 0 o) (advance-IsConsistent now w at_groups o c)
        (omega arith))
run-Ends (tick now w ∷ rest) begun_groups o c h =
    later (tick now w) rest (record { orchestrator = o; goroutine = some begun_groups })
      (run-Ends rest in_groups (o) (advance-IsConsistent now w begun_groups o c) (omega arith))
run-Ends (tick now w ∷ rest) in_groups o c h =
    later (tick now w) rest (record { orchestrator = o; goroutine = some in_groups })
      (run-Ends rest at_newsletters (end_stage now w 0 o) (advance-IsConsistent now w in_groups o c)
        (omega arith))
run-Ends (tick now w ∷ rest) at_newsletters o c h =
    later (tick now w) rest (record { orchestrator = o; goroutine = some at_newsletters })
      (run-Ends rest begun_newsletters (begin_stage now 1 o)
        (advance-IsConsistent now w at_newsletters o c) (omega arith))
run-Ends (tick now w ∷ rest) begun_newsletters o c h =
    later (tick now w) rest (record { orchestrator = o; goroutine = some begun_newsletters })
      (run-Ends rest in_newsletters (o) (advance-IsConsistent now w begun_newsletters o c)
        (omega arith))
run-Ends (tick now w ∷ rest) in_newsletters o c h =
    later (tick now w) rest (record { orchestrator = o; goroutine = some in_newsletters })
      (run-Ends rest at_app_state (end_stage now w 1 o)
        (advance-IsConsistent now w in_newsletters o c) (omega arith))
run-Ends (tick now w ∷ rest) at_app_state o c h =
    later (tick now w) rest (record { orchestrator = o; goroutine = some at_app_state })
      (run-Ends rest begun_app_state (begin_stage now 2 o)
        (advance-IsConsistent now w at_app_state o c) (omega arith))
run-Ends (tick now w ∷ rest) begun_app_state o c h =
    later (tick now w) rest (record { orchestrator = o; goroutine = some begun_app_state })
      (run-Ends rest in_app_state (o) (advance-IsConsistent now w begun_app_state o c)
        (omega arith))
run-Ends (tick now w ∷ rest) in_app_state o c h =
    later (tick now w) rest (record { orchestrator = o; goroutine = some in_app_state })
      (run-Ends rest at_end (end_stage now w 2 o) (advance-IsConsistent now w in_app_state o c)
        (omega arith))
run-Ends (tick now w ∷ rest) at_end o c h = last-Ends now w rest o c

-- A run that is under way, from any state that calls of Start and steps of its goroutine reach, ends within
-- ten critical sections of the goroutine, whatever its workers return and whatever calls of Start come
-- between. Then its three stages have ended, and the report says `done` if none failed, and otherwise
-- `failed` with the names of those that did, in their order.
pub run_events-Ends :
    (past events : List Event) (p : Point)
    → (run_events past idle).goroutine ≡ some p
    → 10 ≤ ticks events
    → Ends events (run_events past idle)
run_events-Ends past events p under_way h =
    let w = run_events past idle in
    let consistent = rw under_way at (run_events-IsConsistent past) in
    let ends = run-Ends events p w.orchestrator consistent (omega (arith, at_most_ten (some p))) in
    let same : record { orchestrator = w.orchestrator; goroutine = some p } ≡ w =
      ap (λ g. record { orchestrator = w.orchestrator; goroutine = g }) (sym under_way) in
    rw same at ends
