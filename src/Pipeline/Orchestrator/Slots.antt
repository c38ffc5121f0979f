-- ===== src/Pipeline/Orchestrator/Slots.antt =====
-- The worker slots of pipeline/orchestrator.py: how turns of the dispatch loop take them and jobs
-- that end give them back. No task is registered or removed meanwhile.
use second_brain_art.Common.{
  ℕ, zero, suc, ◌+◌, ◌≡◌, refl, ap, ◌∙◌, Bool, true, false, Option, none, some, List, [], ◌∷◌, ◌++◌,
  String, str_eq, eq_iff, if◌then◌else◌, arith,
}
use second_brain_art.Python.Dict.{lookup, lookup-insert}
use second_brain_art.Pipeline.Tasks.{BaseTask}
use second_brain_art.Pipeline.World.{Env, World}
use second_brain_art.Pipeline.Execute.{Outcome}
use second_brain_art.Pipeline.EventRuns.{EventOutcome}
use second_brain_art.Pipeline.Orchestrator.{
  Orchestrator, Job, path_job, run_job, job_task, Machine, slots_in, free_slots, take_slot,
  claim_ready, submit, with_slot, claim_run, submit_run, with_run_slot, dispatch_turn,
  execute_wrapper, execute_event_run_wrapper,
}

-- How many jobs of the task named are with the workers.
unfoldable pub jobs_of : String → List Job → ℕ
jobs_of name [] = 0
jobs_of name (job ∷ jobs) =
    let rest = jobs_of name jobs in if str_eq (job_task job).name name then suc rest else rest

-- One thing that happens.
pub data Turn (env : Env) : Machine → Machine → Type 0 where
  dispatches : {m : Machine} (due : Bool) → Turn env m (dispatch_turn env due m)
  ends :
      {m : Machine} (task : BaseTask) (paths : List String) (outcome : Outcome)
      (before after : List Job)
      → m.jobs ≡ before ++ path_job task paths ∷ after
      → Turn env m (execute_wrapper env task paths outcome (before ++ after) m)
  ends_run :
      {m : Machine} (task : BaseTask) (run_id : String) (payload : Option String)
      (outcome : EventOutcome) (before after : List Job)
      → m.jobs ≡ before ++ run_job task run_id payload ∷ after
      → Turn env m (execute_event_run_wrapper env task run_id payload outcome (before ++ after) m)

pub data Turns (env : Env) : Machine → Machine → Type 0 where
  idle : {m : Machine} → Turns env m m
  turn : {l m n : Machine} → Turn env l m → Turns env m n → Turns env l n

-- The slots of a task, free or taken.
unfoldable pub slots : String → Machine → ℕ
slots name m = free_slots name m.orch + jobs_of name m.jobs

-- From `m` to `n` no slot is lost or made.
pub record Even (m n : Machine) : Type 0 where
  pub same : (name : String) → slots name n ≡ slots name m

pub Even-refl : (m : Machine) → Even m m
Even-refl m = record { same = λ name. refl }

pub Even-trans : (l m n : Machine) → Even l m → Even m n → Even l n
Even-trans l m n a b = record { same = λ name. omega (arith, a.same name, b.same name) }

pub Even-if : (b : Bool) (m u v : Machine) → Even m u → Even m v → Even m (if b then u else v)
Even-if true m u v x y = x
Even-if false m u v x y = y

pub jobs_of-append :
    (name : String) (xs ys : List Job) → jobs_of name (xs ++ ys) ≡ jobs_of name xs + jobs_of name ys
unfolding jobs_of
jobs_of-append name [] ys = omega arith
jobs_of-append name (x ∷ xs) ys = ground (arith, jobs_of-append name xs ys)

slots_in-if :
    (b : Bool) (free : ℕ) (o : Option ℕ)
    → slots_in (if b then some free else o) ≡ (if b then free else slots_in o)
slots_in-if true free o = refl
slots_in-if false free o = refl

pub free-insert :
    (name key : String) (free : ℕ) (o : Orchestrator)
    → free_slots name (take_slot key free o) ≡ (if str_eq key name then free else free_slots name o)
free-insert name key free o =
    ap slots_in (lookup-insert key name free o.semaphores)
    ∙ slots_in-if (str_eq key name) free (lookup name o.semaphores)

-- A job is submitted with the slot that was taken for it.
slots-submit :
    (task : BaseTask) (job : Job) (free : ℕ) (m : Machine) (w : World) (name : String)
    → job_task job ≡ task
    → lookup task.name m.orch.semaphores ≡ some (suc free)
    → slots name (record m {
      world = w;
      orch = take_slot task.name free m.orch;
      jobs = m.jobs ++ (job ∷ []);
    })
      ≡ slots name m
unfolding slots jobs_of
slots-submit task job free m w name j l = ground (
  arith,
  free-insert name task.name free m.orch,
  jobs_of-append name m.jobs (job ∷ []),
  ap (λ t. t.name) j,
  eq_iff task.name name,
  ap slots_in l,
)

Even-submit :
    (env : Env) (task : BaseTask) (free : ℕ) (m : Machine) (s : List String × World)
    → lookup task.name m.orch.semaphores ≡ some (suc free)
    → Even m (submit env task free s m)
unfolding slots
Even-submit env task free m ([], w) l = record { same = λ name. refl }
Even-submit env task free m (path ∷ paths, w) l = record {
  same = λ name. slots-submit task (path_job task (path ∷ paths)) free m w name refl l;
}

Even-submit_run :
    (env : Env) (task : BaseTask) (free : ℕ) (m : Machine)
    (s : List (String × Option String) × World)
    → lookup task.name m.orch.semaphores ≡ some (suc free)
    → Even m (submit_run env task free s m)
unfolding slots
Even-submit_run env task free m ([], w) l = record { same = λ name. refl }
Even-submit_run env task free m ((id, payload) ∷ runs, w) l = record {
  same = λ name. slots-submit task (run_job task id payload) free m w name refl l;
}

pub Even-with_slot :
    (env : Env) (task : BaseTask) (o : Option ℕ) (w : World) (m : Machine)
    → lookup task.name m.orch.semaphores ≡ o
    → Even m (with_slot env task o w m)
unfolding slots
Even-with_slot env task none w m l = record { same = λ name. refl }
Even-with_slot env task (some zero) w m l = record { same = λ name. refl }
Even-with_slot env task (some (suc free)) w m l =
    Even-submit env task free m (claim_ready env m.orch.graph task w) l

pub Even-with_run_slot :
    (env : Env) (task : BaseTask) (o : Option ℕ) (w : World) (m : Machine)
    → lookup task.name m.orch.semaphores ≡ o
    → Even m (with_run_slot env task o w m)
unfolding slots
Even-with_run_slot env task none w m l = record { same = λ name. refl }
Even-with_run_slot env task (some zero) w m l = record { same = λ name. refl }
Even-with_run_slot env task (some (suc free)) w m l =
    Even-submit_run env task free m (claim_run env task w) l

pub Even-world : (m : Machine) (w : World) → Even m (record m { world = w })
unfolding slots
Even-world m w = record { same = λ name. refl }
