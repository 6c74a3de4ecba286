-- ===== src/Cache/Sync/Examples.antt =====
-- A synchronisation one of whose stages fails.
use whatsapp_mcp_docker.Base.{String, ◌≡◌, refl, none, some, List, [], ◌∷◌, arith}
use whatsapp_mcp_docker.Cache.Sync.{Event, call, tick, Worked, run_events, idle, at_groups}
use whatsapp_mcp_docker.Cache.Sync.Endings.{Ends, run_events-Ends}

abbrev good : Worked
good = record { items = 2; error = none }

abbrev bad : Worked
bad = record { items = 0; error = some "get joined groups: offline" }

abbrev events : List Event
events =
    tick 11 good
    ∷ tick 12 good
    ∷ tick 13 bad
    ∷ call 13
    ∷ tick 14 good
    ∷ tick 15 good
    ∷ tick 16 good
    ∷ tick 17 good
    ∷ tick 18 good
    ∷ tick 19 good
    ∷ tick 20 good
    ∷ tick 21 good
    ∷ []

under_way : (run_events (call 10 ∷ []) idle).goroutine ≡ some at_groups
unfolding run_events
under_way = refl

run_events-Ends_example : Ends events (run_events (call 10 ∷ []) idle)
run_events-Ends_example = run_events-Ends (call 10 ∷ []) events at_groups under_way (omega arith)

failed_run : String
failed_run = (run_events (call 10 ∷ events) idle).orchestrator.current.error

failed_run_lem : failed_run ≡ "stages failed: groups"
unfolding failed_run run_events
failed_run_lem = refl
