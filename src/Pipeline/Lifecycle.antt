-- ===== src/Pipeline/Lifecycle.antt =====
-- The start and the stop of the orchestrator of pipeline/orchestrator.py, with the cascade triggers
-- that it asks the database for.
mod Writers
pub mod Cascades
use second_brain_art.Common.{
  ℕ, ◌+◌, ◌≡◌, ◌≤◌, Bool, true, ◌&&◌, List, [], ◌∷◌, ◌++◌, String, str_eq, ltb, if◌then◌else◌, All,
  All-append, Bool-cases, inl, inr, arith,
}
use second_brain_art.Python.Sets.{add}
use second_brain_art.Pipeline.Tasks.{BaseTask, tasks_snapshot, on_path, build_graph}
use second_brain_art.Pipeline.World.{Env}
use second_brain_art.Pipeline.Handlers.{backfill_tasks}
use second_brain_art.Pipeline.Orchestrator.{Orchestrator, Machine, sweep}

-- `start`, up to the dispatch thread and the triggers
unfoldable pub start : Env → Machine → Machine
start env m =
    let o = record m.orch { graph = build_graph m.orch.tasks } in
    let filled = backfill_tasks env o.tasks o.graph m.world in
    record m { orch = o; world = sweep env (tasks_snapshot o.tasks) filled }

unfoldable pub pause_all : List BaseTask → List String → List String
pause_all [] paused = paused
pause_all (task ∷ tasks) paused = pause_all tasks (add task.name paused)

-- `stop`: every task is paused, so that workers return what they hold
unfoldable pub stop : Machine → Machine
stop m = record m {
  orch = record m.orch { paused = pause_all (tasks_snapshot m.orch.tasks) m.orch.paused };
}

unfoldable pub mentions : String → List String → ℕ
mentions table [] = 0
mentions table (t ∷ tables) = (if str_eq t table then 1 else 0) + mentions table tables

-- `len(table_writers[table])`, over the path tasks
unfoldable pub writers : String → List BaseTask → ℕ
writers table [] = 0
writers table (task ∷ tasks) =
    (if on_path task then mentions table task.writes else 0) + writers table tasks

-- `create_cascade_trigger`: `keyed` says that a table has a column `path`.
module _ (keyed : String → Bool) (all : List BaseTask) where
  unfoldable pub cascade_outputs : String → List String → List (String × String)
  cascade_outputs input [] = []
  cascade_outputs input (output ∷ outputs) =
      let rest = cascade_outputs input outputs in
      if ltb 1 (writers output all)
      then rest
      else if keyed input && keyed output
      then (input, output) ∷ rest
      else rest

  unfoldable pub cascade_inputs : List String → List String → List (String × String)
  cascade_inputs [] outputs = []
  cascade_inputs (input ∷ inputs) outputs =
      let rest = cascade_inputs inputs outputs in
      if ltb 0 (writers input all) then cascade_outputs input outputs ++ rest else rest

  unfoldable pub cascade_tasks : List BaseTask → List (String × String)
  cascade_tasks [] = []
  cascade_tasks (task ∷ tasks) =
      let rest = cascade_tasks tasks in
      if on_path task then cascade_inputs task.reads task.writes ++ rest else rest

-- `_create_cascade_triggers`: the pairs of tables for which there is a trigger afterwards
unfoldable pub create_cascade_triggers : (String → Bool) → Orchestrator → List (String × String)
create_cascade_triggers keyed o =
    cascade_tasks keyed (tasks_snapshot o.tasks) (tasks_snapshot o.tasks)
