-- ===== src/Pipeline/EventRuns.antt =====
-- The execution of one run of an event task: `_execute_event_run` and `_enqueue_event_downstream` of
-- pipeline/orchestrator.py. What `run_supervised` returns for the task's own code is an argument.
pub mod RunCalm
pub mod RunSettled
use Prim.Native.String.{◌++◌ as str_append}
use second_brain_art.Common.{
  suc, Bool, true, false, not, ◌&&◌, Option, none, some, List, [], ◌∷◌, String, str_eq,
  if◌then◌else◌, length,
}
use second_brain_art.Python.Sets.{is_in, discard}
use second_brain_art.Pipeline.Rows.{RunRow}
use second_brain_art.Pipeline.Runs.{create_run, complete_run, fail_run, unclaim_run}
use second_brain_art.Pipeline.Tasks.{BaseTask, Tasks, Graph, tasks_snapshot, on_event}
use second_brain_art.Pipeline.World.{Env, World, emit, run_started, run_failed, run_completed}
use second_brain_art.Pipeline.Execute.{TaskResult, store, write_failed}

-- What `run_supervised` returns for `task.run_event`.
pub data EventOutcome : Type 0 where
  returned : TaskResult → EventOutcome
  broke : String → EventOutcome

module _ (env : Env) (tasks : Tasks) (g : Graph) where
  abbrev pub fail_event : BaseTask → String → String → World → World
  fail_event task run_id error w =
      emit (run_failed task.name run_id error)
        (record w { runs = fail_run (env.time w.ticks) run_id error w.runs; ticks = suc w.ticks })

  -- `clear_skip_cache`
  abbrev pub clear_skip_cache : String → World → World
  clear_skip_cache name w = record w {
    skip_cache = if str_eq name "" then [] else discard name w.skip_cache;
  }

  -- A world, and whether an exception is on its way.
  abbrev pub unless_raised : World × Bool → (World → World × Bool) → World × Bool
  unless_raised (w, true) next = (w, true)
  unless_raised (w, false) next = next w

  -- `on_run_enqueued` after a `create_run` that did not raise
  abbrev pub created : String → World → Option (List RunRow) → World × Bool
  created name w none = (record w { ticks = suc w.ticks; ids = suc w.ids }, true)
  created name w (some runs) = (
    clear_skip_cache name (record w { runs = runs; ticks = suc w.ticks; ids = suc w.ids }),
    false,
  )

  abbrev pub run_id_for : BaseTask → World → String
  run_id_for task w = str_append task.name (str_append ":" (env.hex w.ids))

  abbrev pub chain_run : BaseTask → String → Option String → BaseTask → World → World × Bool
  chain_run parent parent_run payload task w = created task.name w (
      create_run (env.time w.ticks) (run_id_for task w) task.name
        (some (str_append "upstream:" parent.name)) (some (env.pass_on payload)) (some parent_run)
        w.runs)

  abbrev pub chain_task :
      BaseTask → String → Option String → String → BaseTask → World → World × Bool
  chain_task parent parent_run payload table task w =
      if on_event task && (not (str_eq task.name parent.name) && is_in table task.reads)
      then chain_run parent parent_run payload task w
      else (w, false)

  -- the loop over the tasks, for one table
  unfoldable pub chain_tasks :
      BaseTask → String → Option String → String → List BaseTask → World → World × Bool
  chain_tasks parent parent_run payload table [] w = (w, false)
  chain_tasks parent parent_run payload table (task ∷ rest) w =
      unless_raised (chain_task parent parent_run payload table task w)
        (chain_tasks parent parent_run payload table rest)

  unfoldable pub chain_tables :
      BaseTask → String → Option String → List String → World → World × Bool
  chain_tables parent parent_run payload [] w = (w, false)
  chain_tables parent parent_run payload (table ∷ tables) w =
      unless_raised (chain_tasks parent parent_run payload table (tasks_snapshot tasks) w)
        (chain_tables parent parent_run payload tables)

  -- `_enqueue_event_downstream`
  abbrev pub enqueue_event_downstream : BaseTask → String → Option String → World → World × Bool
  enqueue_event_downstream parent parent_run payload w =
      chain_tables parent parent_run payload parent.writes w

  abbrev pub finish_run :
      BaseTask → String → Option String → TaskResult → World × Option String → World × Bool
  finish_run task run_id payload result (w, some error) =
      (fail_event task run_id (write_failed env tasks g error) w, false)
  finish_run task run_id payload result (w, none) =
      let completed = record w {
        runs = complete_run (env.time w.ticks) run_id w.runs;
        ticks = suc w.ticks;
      } in
      enqueue_event_downstream task run_id payload
        (emit (run_completed task.name run_id (length result.rows)) completed)

  abbrev pub event_outcome : BaseTask → String → Option String → EventOutcome → World → World × Bool
  event_outcome task run_id payload (broke error) w = (fail_event task run_id error w, false)
  event_outcome task run_id payload (returned result) w =
      let finished = finish_run task run_id payload result (store env tasks g task result w) in
      if result.success then finished else (fail_event task run_id result.error w, false)

  -- `_execute_event_run`
  unfoldable pub execute_event_run :
      List String → BaseTask → String → Option String → EventOutcome → World → World × Bool
  execute_event_run paused task run_id payload outcome w =
      if is_in task.name paused
      then (record w { runs = unclaim_run run_id w.runs }, false)
      else event_outcome task run_id payload outcome (emit (run_started task.name run_id) w)
