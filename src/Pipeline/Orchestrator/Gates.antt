-- ===== src/Pipeline/Orchestrator/Gates.antt =====
-- What must hold before the dispatch loop of pipeline/orchestrator.py submits work.
use second_brain_art.Common.{
  ℕ, zero, suc, sym, ◌∙◌, not, str_eq, eq_iff, ◌≡◌, ◌<◌, refl, ap, ◌⊎◌, Bool, true, false, ◌||◌,
  Option, none, some, List, [], ◌∷◌, ◌++◌, String, inl, inr, Bool-cases, arith, All,
}
use second_brain_art.Python.Dict.{Dict, lookup}
use second_brain_art.Python.Sets.{is_in}
use second_brain_art.Pipeline.Rows.{TaskRow}
use second_brain_art.Pipeline.Tasks.{BaseTask, Graph, on_event, deps_met, is_empty}
use second_brain_art.Pipeline.World.{Env, World}
use second_brain_art.Pipeline.Orchestrator.{
  Orchestrator, path_job, Machine, services_ready, blocked, slots_in, free_slots, claim,
  claim_ready, ready_paths, recheck, submit, with_slot, dispatch_task,
}

-- The paths may be worked on: the task reads nothing, or the dependencies of each path are met.
abbrev pub Ready : Graph → BaseTask → List TaskRow → List String → Type 0
Ready g task q paths =
    (is_empty task.reads ≡ true) ⊎ All (λ path. deps_met g path task q ≡ true) paths

ready_paths-All :
    (g : Graph) (task : BaseTask) (q : List TaskRow) (paths : List String)
    → All (λ path. deps_met g path task q ≡ true) (ready_paths g task q paths)
unfolding ready_paths
ready_paths-All g task q [] = tt
ready_paths-All g task q (path ∷ paths) = elim (Bool-cases (deps_met g path task q)) [
  | inl b ↦ rw b (b, ready_paths-All g task q paths)
  | inr b ↦ rw b (ready_paths-All g task q paths)
]

recheck-Ready :
    (g : Graph) (task : BaseTask) (paths : List String) (w : World)
    → Ready g task w.queue (recheck g task paths w).0
unfolding recheck
recheck-Ready g task paths w = elim (Bool-cases (is_empty task.reads)) [
  | inl b ↦ inl b
  | inr b ↦ rw b (inr (ready_paths-All g task w.queue paths))
]

-- The rows that the task finds after its claim.
abbrev pub claimed_queue : Env → BaseTask → Machine → List TaskRow
claimed_queue env task m = (claim env task (services_ready m.orch task m.world).1).1.queue

-- One job of the task is submitted, and the five gates are open.
pub record Submits (env : Env) (task : BaseTask) (m n : Machine) : Type 0 where
  pub paths : List String
  pub submitted : n.jobs ≡ m.jobs ++ path_job task paths ∷ []
  pub some_path : is_empty paths ≡ false
  pub unpaused : is_in task.name m.orch.paused ≡ false
  pub loaded :
      (name : String)
      → is_in name task.requires_services ≡ true
      → lookup name m.orch.services ≡ some true
  pub slot : 0 < free_slots task.name m.orch
  pub ready : Ready m.orch.graph task (claimed_queue env task m) paths

abbrev pub Gated : Env → BaseTask → Machine → Machine → Type 0
Gated env task m n = (n.jobs ≡ m.jobs) ⊎ Submits env task m n

abbrev gate : Option Bool → Bool → Bool
gate none rest = true
gate (some loaded) rest = not loaded || rest

open_gate : (o : Option Bool) (rest : Bool) → gate o rest ≡ false → (o ≡ some true) × (rest ≡ false)
open_gate none rest h = absurd (ground arith)
open_gate (some true) rest h = (refl, h)
open_gate (some false) rest h = absurd (ground arith)

gate-blocked :
    (services : Dict Bool) (name : String) (names : List String)
    → blocked services (name ∷ names) ≡ gate (lookup name services) (blocked services names)
unfolding blocked
gate-blocked services name names =
    elim (lookup name services)
      as (λ o.
        (elim o [ none ↦ true | some loaded ↦ not loaded || blocked services names ])
        ≡ gate o (blocked services names)) [ none ↦ refl | some loaded ↦ refl ]

-- What does not block is there and loaded.
blocked-loaded :
    (services : Dict Bool) (names : List String) (name : String)
    → blocked services names ≡ false
    → is_in name names ≡ true
    → lookup name services ≡ some true
unfolding is_in
blocked-loaded services [] name b m = absurd (ground arith)
blocked-loaded services (n ∷ names) name b m =
    let (here, later) =
      open_gate (lookup n services) (blocked services names)
        (sym (gate-blocked services n names) ∙ b) in
    elim (Bool-cases (str_eq n name)) [
      | inl e ↦ ap (λ k. lookup k services) (sym ((eq_iff n name).0 e)) ∙ here
      | inr e ↦ blocked-loaded services names name later (ground arith)
    ]

none-blocked :
    (services : Dict Bool) (names : List String)
    → is_empty names ≡ true
    → blocked services names ≡ false
unfolding blocked
none-blocked services [] h = refl
none-blocked services (name ∷ names) h = absurd (ground arith)

services_ready-unblocked :
    (o : Orchestrator) (task : BaseTask) (w : World)
    → (services_ready o task w).0 ≡ true
    → blocked o.services task.requires_services ≡ false
services_ready-unblocked o task w h = elim (Bool-cases (is_empty task.requires_services)) [
  | inl e ↦ none-blocked o.services task.requires_services e
  | inr n ↦ ground arith
]

submit-Gated :
    (env : Env) (task : BaseTask) (free : ℕ) (s : List String × World) (m : Machine)
    → is_in task.name m.orch.paused ≡ false
    → blocked m.orch.services task.requires_services ≡ false
    → 0 < free_slots task.name m.orch
    → Ready m.orch.graph task (claimed_queue env task m) s.0
    → Gated env task m (submit env task free s m)
submit-Gated env task free ([], w) m p b f r = inl refl
submit-Gated env task free (path ∷ paths, w) m p b f r = inr record {
  paths = path ∷ paths;
  submitted = refl;
  some_path = refl;
  unpaused = p;
  loaded = λ name. blocked-loaded m.orch.services task.requires_services name b;
  slot = f;
  ready = r;
}

with_slot-Gated :
    (env : Env) (task : BaseTask) (o : Option ℕ) (m : Machine)
    → lookup task.name m.orch.semaphores ≡ o
    → is_in task.name m.orch.paused ≡ false
    → blocked m.orch.services task.requires_services ≡ false
    → Gated env task m (with_slot env task o (services_ready m.orch task m.world).1 m)
with_slot-Gated env task none m l p b = inl refl
with_slot-Gated env task (some zero) m l p b = inl refl
with_slot-Gated env task (some (suc free)) m l p b =
    let w = (services_ready m.orch task m.world).1 in
    let claimed = claim env task w in
    submit-Gated env task free (claim_ready env m.orch.graph task w) m p b
      (ground (arith, ap slots_in l)) (recheck-Ready m.orch.graph task claimed.0 claimed.1)

-- The dispatch of a path task submits nothing, or one job of some paths, and that only for a task
-- that is not paused, whose services are all loaded, that has a free slot, and whose dependencies
-- are met for each path of the job when it is checked after the claim.
pub dispatch_task-Gated :
    (env : Env) (task : BaseTask) (m : Machine) → Gated env task m (dispatch_task env task m)
unfolding dispatch_task
dispatch_task-Gated env task m =
    let tried =
      with_slot env task (lookup task.name m.orch.semaphores) (services_ready m.orch task m.world).1
        m in
    elim (Bool-cases (on_event task || is_in task.name m.orch.paused)) [
      | inl b ↦ rw b (inl refl)
      | inr b ↦ elim (Bool-cases (services_ready m.orch task m.world).0) [
        | inl r ↦
            rw (b, r)
              (with_slot-Gated env task (lookup task.name m.orch.semaphores) m refl (ground arith)
                (services_ready-unblocked m.orch task m.world r))
        | inr r ↦ rw (b, r) (inl refl)
      ]
    ]
