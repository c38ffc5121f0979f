-- ===== src/Pipeline/WorkTests.antt =====
-- Runs of the model of the handlers, the workers and the event trigger of pipeline/ on small inputs.
use second_brain_art.Common.{
  ℕ, ◌+◌, ◌-◌, ◌≡◌, ◌≤◌, refl, true, false, none, [], ◌∷◌, map, String, arith,
}
use second_brain_art.Python.Sets.{is_in}
use second_brain_art.Pipeline.Rows.{select_where}
use second_brain_art.Pipeline.Queue.Steps.{busy}
use second_brain_art.Pipeline.Tasks.{tasks_snapshot}
use second_brain_art.Pipeline.Files.{get_container_children, like}
use second_brain_art.Pipeline.Handlers.{on_file_deleted}
use second_brain_art.Pipeline.Execute.{ran, execute}
use second_brain_art.Pipeline.Execute.Batch.{execute-settles}
use second_brain_art.Pipeline.EventRuns.{returned, execute_event_run}
use second_brain_art.Pipeline.Runs.{run_busy}
use second_brain_art.Pipeline.EventRuns.RunCalm.{Calm}
use second_brain_art.Pipeline.EventRuns.RunSettled.{execute_event_run-settles}
use second_brain_art.Pipeline.Orchestrator.{dispatch_task, dispatch_turn, free_slots}
use second_brain_art.Pipeline.Orchestrator.Slots.{idle, turn, dispatches, slots, jobs_of}
use second_brain_art.Pipeline.Orchestrator.Turns.{Turns-slots}
use second_brain_art.Pipeline.Orchestrator.Gates.{Gated, dispatch_task-Gated}
use second_brain_art.Pipeline.Trigger.{refresh, declared, channel_of, owned, refresh_lem}
use second_brain_art.Events.{copies}
use second_brain_art.Common.{inr}
use second_brain_art.Pipeline.Handlers.Deletion.{Absent, Extracted, on_file_deleted-Absent}
use second_brain_art.Pipeline.Fixtures.{
  parse, digest, registry, graph, outside_world, world, result, orchestrator, machine, trigger,
}

-- The children of a container, with those of a directory whose name goes on.
children_of_prefix : get_container_children "/x/a/" world.files ≡ "/x/a/1.txt" ∷ "/x/ab/2.txt" ∷ []
unfolding get_container_children like select_where
children_of_prefix = refl

execute-settles_example :
    busy "b" "parse"
      (execute outside_world registry graph [] parse
        ("a" ∷ "b" ∷ [])
        (ran (result ∷ result ∷ []))
        world).queue
    ≡ false
unfolding is_in
execute-settles_example =
    execute-settles outside_world registry graph [] parse ("a" ∷ "b" ∷ [])
      (ran (result ∷ result ∷ [])) world "b" (omega arith) refl

execute_event_run-settles_example :
    (run_busy "digest:01"
        (execute_event_run outside_world registry graph [] digest "digest:01" none
          (returned result)
          world).0.runs
      ≡ false)
    × Calm world.runs
        (execute_event_run outside_world registry graph [] digest "digest:01" none
          (returned result)
          world).0.runs
execute_event_run-settles_example =
    execute_event_run-settles outside_world registry graph [] digest "digest:01" none
      (returned result) world

Turns-slots_example :
    (slots "parse" (dispatch_turn outside_world true machine) ≡ slots "parse" machine)
    × (jobs_of "parse" (dispatch_turn outside_world true machine).jobs
        ≤ free_slots "parse" orchestrator + jobs_of "parse" [])
Turns-slots_example =
    Turns-slots outside_world machine (dispatch_turn outside_world true machine) "parse"
      (turn (dispatches true) idle)

dispatch_task-Gated_example :
    Gated outside_world parse machine (dispatch_task outside_world parse machine)
dispatch_task-Gated_example = dispatch_task-Gated outside_world parse machine

file-Extracted : Extracted outside_world "/z/a.zip" "/x/a/1.txt" world
unfolding get_container_children like select_where is_in
file-Extracted = record { dir = "/x/a"; extracted_to = refl; named = refl; under = refl }

on_file_deleted-Absent_example :
    Absent "/x/a/1.txt" "parse" (on_file_deleted outside_world registry 9 "/z/a.zip" world).0
on_file_deleted-Absent_example =
    on_file_deleted-Absent outside_world registry 7 "/z/a.zip" "/x/a/1.txt" "parse" world refl
      (inr file-Extracted)

refresh_lem_example :
    (map channel_of (refresh (tasks_snapshot registry) trigger).unsubs
      ≡ declared (tasks_snapshot registry))
    × ((c : String) (h : ℕ)
        → copies c h (refresh (tasks_snapshot registry) trigger).bus
          ≡ (copies c h trigger.bus - owned c h trigger.unsubs)
            + owned c h (refresh (tasks_snapshot registry) trigger).unsubs)
refresh_lem_example = refresh_lem (tasks_snapshot registry) trigger refl
