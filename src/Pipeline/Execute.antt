-- ===== src/Pipeline/Execute.antt =====
-- The execution of a claimed batch: `_execute`, `_process_result` and `_handle_success` of
-- pipeline/orchestrator.py. What `run_supervised` returns for the task's own code is an argument, and
-- the world is the one that this code leaves behind.
pub mod Settled
pub mod Batch
use second_brain_art.Common.{
  Bool, true, false, not, ◌&&◌, ◌||◌, Option, none, some, List, [], ◌∷◌, String, if◌then◌else◌,
  length,
}
use Prim.Native.String.{◌++◌ as str_append}
use second_brain_art.Python.Dict.{lookup}
use second_brain_art.Python.Sets.{is_in}
use second_brain_art.Pipeline.Queue.{unclaim_tasks}
use second_brain_art.Pipeline.Tasks.{BaseTask, Tasks, Graph, deps_met, is_empty}
use second_brain_art.Pipeline.World.{
  Env, World, Row, re_enqueue, complete, fail, emit, task_started, task_failed, task_completed,
}
use second_brain_art.Pipeline.Handlers.{
  invalidate_downstream, on_task_completed, on_also_contains, on_paths_discovered,
}

-- `TaskResult`
pub record TaskResult : Type 0 where
  pub success : Bool
  pub error : String
  pub rows : List Row
  pub also_contains : List String
  pub discovered_paths : List String

-- What `run_supervised` returns: the results of `task.run`, or the text of the error.
pub data Outcome : Type 0 where
  ran : List TaskResult → Outcome
  crashed : String → Outcome

abbrev pub no_rows : List Row → Bool
no_rows [] = true
no_rows (r ∷ rs) = false

module _ (env : Env) (tasks : Tasks) (g : Graph) where
  abbrev pub after_write : Option String → World → World × Option String → World × Option String
  after_write none after others = others
  after_write (some error) after others = (after, some error)

  -- The writes of one result, up to the first that raises.
  unfoldable pub write_tables : List String → List Row → World → World × Option String
  write_tables [] rows w = (w, none)
  write_tables (table ∷ tables) rows w =
      let written = env.write_outputs table rows w.outputs in
      let after = record w { outputs = written.0 } in
      let others = write_tables tables rows after in after_write written.1 after others

  abbrev pub store : BaseTask → TaskResult → World → World × Option String
  store task result w =
      let written = write_tables task.writes result.rows w in
      if no_rows result.rows || is_empty task.writes then (w, none) else written

  abbrev pub follow_up : String → TaskResult → World → World
  follow_up path result w =
      let contained = on_also_contains env tasks g path result.also_contains w in
      on_paths_discovered env tasks g result.discovered_paths contained

  -- The rest of `_handle_success`, after the writes.
  abbrev pub settle : BaseTask → String → TaskResult → World → World
  settle task path result w =
      if not (is_empty task.reads) && not (deps_met g path task w.queue)
      then re_enqueue env path task.name w
      else follow_up path result (
          emit (task_completed task.name path (length result.rows)) (
            on_task_completed env tasks g path (lookup task.name tasks)
              (complete env path task.name w)))

  abbrev pub fail_path : BaseTask → String → String → World → World
  fail_path task path error w =
      emit (task_failed task.name path error) (fail env path task.name error w)

  abbrev pub write_failed : String → String
  write_failed error = str_append "Write failed: " error

  -- `_handle_success`, with its result
  abbrev pub settle_stored : BaseTask → String → TaskResult → World × Option String → World × Bool
  settle_stored task path result (w, none) = (settle task path result w, true)
  settle_stored task path result (w, some error) =
      (fail_path task path (write_failed error) w, false)

  unfoldable pub handle_success : BaseTask → String → TaskResult → World → World × Bool
  handle_success task path result w = settle_stored task path result (store task result w)

  -- `_process_result`, with whether the path failed
  unfoldable pub process_result : BaseTask → String → TaskResult → World → World × Bool
  process_result task path result w =
      let handled = handle_success task path result w in
      if result.success
      then (handled.0, not handled.1)
      else (fail_path task path result.error w, true)

  -- `zip(paths, results)`, with the paths that failed
  unfoldable pub process_results :
      BaseTask → List String → List TaskResult → World → World × List String
  process_results task [] results w = (w, [])
  process_results task (path ∷ paths) [] w = (w, [])
  process_results task (path ∷ paths) (result ∷ results) w =
      let processed = process_result task path result w in
      let others = process_results task paths results processed.0 in
      (others.0, if processed.1 then path ∷ others.1 else others.1)

  unfoldable pub fail_paths : BaseTask → List String → String → World → World
  fail_paths task [] error w = w
  fail_paths task (path ∷ paths) error w = fail_paths task paths error (fail_path task path error w)

  abbrev pub execute_outcome : BaseTask → List String → Outcome → World → World
  execute_outcome task paths (crashed error) w =
      invalidate_downstream tasks task.name paths (fail_paths task paths error w)
  execute_outcome task paths (ran results) w =
      let processed = process_results task paths results w in
      if is_empty processed.1
      then processed.0
      else invalidate_downstream tasks task.name processed.1 processed.0

  -- `_execute`
  unfoldable pub execute : List String → BaseTask → List String → Outcome → World → World
  execute paused task paths outcome w =
      if is_in task.name paused
      then record w { queue = unclaim_tasks task.name paths w.queue }
      else execute_outcome task paths outcome (emit (task_started task.name paths) w)
