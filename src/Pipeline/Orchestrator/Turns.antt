-- ===== src/Pipeline/Orchestrator/Turns.antt =====
-- The worker slots of pipeline/orchestrator.py over any sequence of dispatch turns and jobs that
-- end, in whatever order the workers end them. No task is registered or removed meanwhile.
use second_brain_art.Common.{
  suc, ◌+◌, ◌≡◌, ◌≤◌, refl, ap, Bool, not, ◌||◌, List, [], ◌∷◌, ◌++◌, String, eq_iff, if◌then◌else◌,
  arith,
}
use second_brain_art.Python.Dict.{lookup}
use second_brain_art.Python.Sets.{is_in}
use second_brain_art.Pipeline.Tasks.{BaseTask, tasks_snapshot, on_event}
use second_brain_art.Pipeline.World.{Env, World}
use second_brain_art.Pipeline.Orchestrator.{
  Job, path_job, run_job, job_task, Machine, services_ready, free_slots, release, dispatch_task,
  dispatch_run, dispatch_paths, dispatch_runs, sweep, dispatch_turn, execute_wrapper,
  execute_event_run_wrapper,
}
use second_brain_art.Pipeline.Orchestrator.Slots.{
  jobs_of, Turn, dispatches, ends, ends_run, Turns, idle, turn, slots, Even, Even-refl, Even-trans,
  Even-if, Even-with_slot, Even-with_run_slot, Even-world, free-insert, jobs_of-append,
}

module _ (env : Env) where
  Even-dispatch_task : (task : BaseTask) (m : Machine) → Even m (dispatch_task env task m)
  unfolding dispatch_task
  Even-dispatch_task task m =
      let ready = services_ready m.orch task m.world in
      Even-if (on_event task || is_in task.name m.orch.paused) m _ _ (Even-refl m) (
        Even-if ready.0 m _ _
          (Even-with_slot env task (lookup task.name m.orch.semaphores) ready.1 m refl)
          (Even-world m ready.1))

  Even-dispatch_run : (task : BaseTask) (m : Machine) → Even m (dispatch_run env task m)
  unfolding dispatch_run
  Even-dispatch_run task m =
      let ready = services_ready m.orch task m.world in
      Even-if (not (on_event task) || is_in task.name m.orch.paused) m _ _ (Even-refl m) (
        Even-if ready.0 m _ _
          (Even-with_run_slot env task (lookup task.name m.orch.semaphores) ready.1 m refl)
          (Even-world m ready.1))

  Even-dispatch_paths : (tasks : List BaseTask) (m : Machine) → Even m (dispatch_paths env tasks m)
  unfolding dispatch_paths
  Even-dispatch_paths [] m = Even-refl m
  Even-dispatch_paths (task ∷ tasks) m =
      let n = dispatch_task env task m in
      Even-if n.raised m _ _ (Even-dispatch_task task m) (
        Even-trans m n (dispatch_paths env tasks n) (Even-dispatch_task task m)
          (Even-dispatch_paths tasks n))

  Even-dispatch_runs : (tasks : List BaseTask) (m : Machine) → Even m (dispatch_runs env tasks m)
  unfolding dispatch_runs
  Even-dispatch_runs [] m = Even-refl m
  Even-dispatch_runs (task ∷ tasks) m =
      let n = dispatch_run env task m in
      Even-if n.raised m _ _ (Even-dispatch_run task m) (
        Even-trans m n (dispatch_runs env tasks n) (Even-dispatch_run task m)
          (Even-dispatch_runs tasks n))

  Even-turn : (due : Bool) (m : Machine) → Even m (dispatch_turn env due m)
  unfolding dispatch_turn
  Even-turn due m =
      let tasks = tasks_snapshot m.orch.tasks in
      let w = if due then sweep env tasks m.world else m.world in
      let swept = record m { world = w } in
      let first = dispatch_paths env tasks swept in
      let again = tasks_snapshot first.orch.tasks in
      let one = Even-trans m swept first (Even-world m w) (Even-dispatch_paths tasks swept) in
      Even-if first.raised m _ _ one
        (Even-trans m first (dispatch_runs env again first) one (Even-dispatch_runs again first))

-- The job that ends gives its slot back.
slots-ends :
    (task : BaseTask) (job : Job) (before after : List Job) (m : Machine) (w : World)
    (name : String)
    → job_task job ≡ task
    → m.jobs ≡ before ++ job ∷ after
    → slots name (record m { world = w; orch = release task.name m.orch; jobs = before ++ after })
      ≡ slots name m
unfolding slots jobs_of
slots-ends task job before after m w name j e = ground (
  arith,
  free-insert name task.name (suc (free_slots task.name m.orch)) m.orch,
  jobs_of-append name before after,
  jobs_of-append name before (job ∷ after),
  ap (jobs_of name) e,
  ap (λ t. t.name) j,
  eq_iff task.name name,
)

Turn-Even : (env : Env) {m n : Machine} → Turn env m n → Even m n
unfolding execute_wrapper execute_event_run_wrapper
Turn-Even env (dispatches {m} due) = Even-turn env due m
Turn-Even env (ends {m} task paths outcome before after e) = record {
  same = λ name. slots-ends task (path_job task paths) before after m _ name refl e;
}
Turn-Even env (ends_run {m} task id payload outcome before after e) = record {
  same = λ name. slots-ends task (run_job task id payload) before after m _ name refl e;
}

Turns-Even : (env : Env) {m n : Machine} → Turns env m n → Even m n
Turns-Even env (idle {m}) = Even-refl m
Turns-Even env (turn {l} {m} {n} t ts) = Even-trans l m n (Turn-Even env t) (Turns-Even env ts)

-- However turns of the dispatch loop and ends of jobs interleave, the free slots of a task and its
-- jobs with the workers add up to the same number, so that no slot is lost and there are never more
-- jobs of a task than its slots and jobs at the start.
pub Turns-slots :
    (env : Env) (m n : Machine) (name : String)
    → Turns env m n
    → (slots name n ≡ slots name m)
      × (jobs_of name n.jobs ≤ free_slots name m.orch + jobs_of name m.jobs)
unfolding slots
Turns-slots env m n name ts = let e = (Turns-Even env ts).same name in (e, omega (arith, e))
