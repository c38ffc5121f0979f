-- ===== src/Pipeline/Orchestrator.antt =====
-- The orchestrator of pipeline/orchestrator.py: what it registers, its worker slots, and one turn of
-- the dispatch loop, up to the jobs that it submits. A semaphore is the number of its free slots,
-- and a job that was submitted stays in the list until its worker is done with it.
pub mod Slots
pub mod Turns
pub mod Gates
use second_brain_art.Common.{
  ℕ, zero, suc, Bool, true, false, not, ◌||◌, Option, none, some, List, [], ◌∷◌, ◌++◌, String, ltb,
  if◌then◌else◌,
}
use second_brain_art.Python.Dict.{Dict, lookup, insert, remove, has_key}
use second_brain_art.Python.Sets.{is_in, add, discard}
use second_brain_art.Pipeline.Rows.{TaskRow}
use second_brain_art.Pipeline.Queue.{claim_tasks, unclaim_tasks, reset_stuck_tasks_for}
use second_brain_art.Pipeline.Runs.{claim_runs, reset_stuck_runs_for}
use second_brain_art.Pipeline.Tasks.{
  BaseTask, Tasks, Graph, tasks_snapshot, on_event, deps_met, build_graph, is_empty,
}
use second_brain_art.Pipeline.World.{Env, World}
use second_brain_art.Pipeline.Execute.{Outcome, execute}
use second_brain_art.Pipeline.EventRuns.{EventOutcome, execute_event_run}

pub record Orchestrator : Type 0 where
  pub tasks : Tasks
  pub graph : Graph
  pub semaphores : Dict ℕ
  pub paused : List String
  pub max_workers : ℕ
  -- `services`, with whether each is loaded
  pub services : Dict Bool

-- What was submitted to the executor.
pub data Job : Type 0 where
  path_job : BaseTask → List String → Job
  run_job : BaseTask → String → Option String → Job

abbrev pub job_task : Job → BaseTask
job_task (path_job task paths) = task
job_task (run_job task run_id payload) = task

-- `raised` says that an exception has left the dispatch loop.
pub record Machine : Type 0 where
  pub orch : Orchestrator
  pub world : World
  pub jobs : List Job
  pub raised : Bool

-- `task.max_workers if task.max_workers > 0 else self.max_workers`
abbrev pub workers_of : ℕ → BaseTask → ℕ
workers_of all task = if ltb 0 task.max_workers then task.max_workers else all

-- `with self._task_lock` in `register_task`; the task's table of outputs and the list of registered
-- tasks are the database's.
unfoldable pub register_task : BaseTask → Orchestrator → Orchestrator
register_task task o =
    let tasks = insert task.name task o.tasks in
    record o {
      tasks = tasks;
      semaphores = insert task.name (workers_of o.max_workers task) o.semaphores;
      graph = build_graph tasks;
    }

unfoldable pub unregister_task : String → Orchestrator → Orchestrator
unregister_task name o =
    let tasks = remove name o.tasks in
    let without = record o { tasks = tasks; semaphores = remove name o.semaphores } in
    if has_key name o.tasks then record without { graph = build_graph tasks } else without

-- A slot of the task is taken, `free` are left.
abbrev pub take_slot : String → ℕ → Orchestrator → Orchestrator
take_slot name free o = record o { semaphores = insert name free o.semaphores }

abbrev pub slots_in : Option ℕ → ℕ
slots_in none = 0
slots_in (some free) = free

abbrev pub free_slots : String → Orchestrator → ℕ
free_slots name o = slots_in (lookup name o.semaphores)

-- `sem.release()`
abbrev pub release : String → Orchestrator → Orchestrator
release name o = take_slot name (suc (free_slots name o)) o

-- `_services_ready`: a service is missing or not loaded
unfoldable pub blocked : Dict Bool → List String → Bool
blocked services [] = false
blocked services (name ∷ names) = elim (lookup name services) [
  | none ↦ true
  | some loaded ↦ not loaded || blocked services names
]

abbrev pub services_ready : Orchestrator → BaseTask → World → Bool × World
services_ready o task w =
    if is_empty task.requires_services
    then (true, w)
    else if blocked o.services task.requires_services
    then (false, record w { skip_cache = add task.name w.skip_cache })
    else (true, record w { skip_cache = discard task.name w.skip_cache })

unfoldable pub ready_paths : Graph → BaseTask → List TaskRow → List String → List String
ready_paths g task q [] = []
ready_paths g task q (path ∷ paths) =
    let rest = ready_paths g task q paths in if deps_met g path task q then path ∷ rest else rest

unfoldable pub outside : List String → List String → List String
outside ready [] = []
outside ready (path ∷ paths) =
    let rest = outside ready paths in if is_in path ready then rest else path ∷ rest

-- Gate 5: the claimed paths that are ready, the others being returned.
unfoldable pub recheck : Graph → BaseTask → List String → World → List String × World
recheck g task paths w =
    let ready = ready_paths g task w.queue paths in
    if is_empty task.reads
    then (paths, w)
    else (ready, record w { queue = unclaim_tasks task.name (outside ready paths) w.queue })

module _ (env : Env) where
  -- Gate 4: `claim_tasks`
  abbrev pub claim : BaseTask → World → List String × World
  claim task w =
      let claimed = claim_tasks (env.time w.ticks) task.name task.batch_size w.queue in
      (claimed.0, record w { queue = claimed.1; ticks = suc w.ticks })

  abbrev pub claim_ready : Graph → BaseTask → World → List String × World
  claim_ready g task w = recheck g task (claim task w).0 (claim task w).1

  -- with the slot taken, of which `free` are left
  abbrev pub submit : BaseTask → ℕ → List String × World → Machine → Machine
  submit task free ([], w) m = record m { world = w }
  submit task free (path ∷ paths, w) m = record m {
    world = w;
    orch = take_slot task.name free m.orch;
    jobs = m.jobs ++ (path_job task (path ∷ paths) ∷ []);
  }

  -- Gate 3: the semaphore of the task
  abbrev pub with_slot : BaseTask → Option ℕ → World → Machine → Machine
  with_slot task none w m = record m { world = w; raised = true }
  with_slot task (some zero) w m = record m { world = w }
  with_slot task (some (suc free)) w m = submit task free (claim_ready m.orch.graph task w) m

  unfoldable pub dispatch_task : BaseTask → Machine → Machine
  dispatch_task task m =
      let ready = services_ready m.orch task m.world in
      let tried = with_slot task (lookup task.name m.orch.semaphores) ready.1 m in
      if on_event task || is_in task.name m.orch.paused
      then m
      else if ready.0
      then tried
      else record m { world = ready.1 }

  abbrev pub claim_run : BaseTask → World → List (String × Option String) × World
  claim_run task w =
      let claimed = claim_runs (env.time w.ticks) task.name 1 w.runs in
      (claimed.0, record w { runs = claimed.1; ticks = suc w.ticks })

  abbrev pub submit_run : BaseTask → ℕ → List (String × Option String) × World → Machine → Machine
  submit_run task free ([], w) m = record m { world = w }
  submit_run task free ((run_id, payload) ∷ runs, w) m = record m {
    world = w;
    orch = take_slot task.name free m.orch;
    jobs = m.jobs ++ (run_job task run_id payload ∷ []);
  }

  abbrev pub with_run_slot : BaseTask → Option ℕ → World → Machine → Machine
  with_run_slot task none w m = record m { world = w; raised = true }
  with_run_slot task (some zero) w m = record m { world = w }
  with_run_slot task (some (suc free)) w m = submit_run task free (claim_run task w) m

  unfoldable pub dispatch_run : BaseTask → Machine → Machine
  dispatch_run task m =
      let ready = services_ready m.orch task m.world in
      let tried = with_run_slot task (lookup task.name m.orch.semaphores) ready.1 m in
      if not (on_event task) || is_in task.name m.orch.paused
      then m
      else if ready.0
      then tried
      else record m { world = ready.1 }

  unfoldable pub dispatch_paths : List BaseTask → Machine → Machine
  dispatch_paths [] m = m
  dispatch_paths (task ∷ tasks) m =
      let next = dispatch_paths tasks (dispatch_task task m) in
      if (dispatch_task task m).raised then dispatch_task task m else next

  unfoldable pub dispatch_runs : List BaseTask → Machine → Machine
  dispatch_runs [] m = m
  dispatch_runs (task ∷ tasks) m =
      let next = dispatch_runs tasks (dispatch_run task m) in
      if (dispatch_run task m).raised then dispatch_run task m else next

  -- The sweep over rows that take too long.
  unfoldable pub sweep : List BaseTask → World → World
  sweep [] w = w
  sweep (task ∷ tasks) w =
      let tick = env.time w.ticks in
      sweep tasks (
        if on_event task
        then record w {
          runs = (reset_stuck_runs_for tick task.name task.timeout w.runs).1;
          ticks = suc w.ticks;
        }
        else record w {
          queue = (reset_stuck_tasks_for tick task.name task.timeout w.queue).1;
          ticks = suc w.ticks;
        })

  -- One turn of `_run_dispatch`; `due` says that the sweep is due.
  unfoldable pub dispatch_turn : Bool → Machine → Machine
  dispatch_turn due m =
      let tasks = tasks_snapshot m.orch.tasks in
      let swept = record m { world = if due then sweep tasks m.world else m.world } in
      let first = dispatch_paths tasks swept in
      let second = dispatch_runs (tasks_snapshot first.orch.tasks) first in
      if first.raised then first else second

-- `_execute_wrapper` and `_execute_event_run_wrapper`: a worker is done with its job.
module _ (env : Env) where
  unfoldable pub execute_wrapper : BaseTask → List String → Outcome → List Job → Machine → Machine
  execute_wrapper task paths outcome others m = record m {
    world = execute env m.orch.tasks m.orch.graph m.orch.paused task paths outcome m.world;
    orch = release task.name m.orch;
    jobs = others;
  }

  unfoldable pub execute_event_run_wrapper :
      BaseTask → String → Option String → EventOutcome → List Job → Machine → Machine
  execute_event_run_wrapper task run_id payload outcome others m = record m {
    world =
        (execute_event_run env m.orch.tasks m.orch.graph m.orch.paused task run_id payload outcome
          m.world).0;
    orch = release task.name m.orch;
    jobs = others;
  }
