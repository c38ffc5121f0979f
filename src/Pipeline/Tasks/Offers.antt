-- ===== src/Pipeline/Tasks/Offers.antt =====
-- The scan of `Orchestrator.get_all_downstream` in pipeline/orchestrator.py: what one visit of a
-- task adds to the tasks found and to the frontier.
use second_brain_art.Common.{
  ℕ, suc, ◌+◌, ◌≡◌, ◌≤◌, Bool, true, false, not, ◌&&◌, ◌||◌, Option, none, some, List, [], ◌∷◌,
  ◌++◌, String, str_eq, eq_iff, if◌then◌else◌, arith, length, All, All-map,
}
use second_brain_art.Python.Dict.{lookup}
use second_brain_art.Python.Sets.{is_in, is_in-append}
use second_brain_art.Python.Worklist.{Grows, Grows-none, Grows-both}
use second_brain_art.Pipeline.Tasks.{
  BaseTask, Tasks, tasks_snapshot, on_path, offer_task, offer_tasks, offer_tables, visit_task,
  visit,
}

-- The path task named `name` reads the table.
abbrev pub reads_table : String → String → BaseTask → Bool
reads_table table name task = on_path task && (is_in table task.reads && str_eq task.name name)

unfoldable pub read_by : String → String → List BaseTask → Bool
read_by table name [] = false
read_by table name (task ∷ tasks) = reads_table table name task || read_by table name tasks

-- A path task named `name` reads one of the tables.
unfoldable pub one_read_by : List String → String → List BaseTask → Bool
one_read_by [] name tasks = false
one_read_by (table ∷ tables) name tasks = read_by table name tasks || one_read_by tables name tasks

abbrev feeds_from : List BaseTask → Option BaseTask → String → Bool
feeds_from tasks none name = false
feeds_from tasks (some task) name = one_read_by task.writes name tasks

-- The task named `a` writes a table that the path task named `b` reads.
unfoldable pub feeds : Tasks → String → String → Bool
feeds tasks a b = feeds_from (tasks_snapshot tasks) (lookup a tasks) b

offer_task-Grows :
    (table : String) (task : BaseTask) (s : List String × List String)
    → Grows (λ x. reads_table table x task) s (offer_task table task s)
unfolding offer_task is_in
offer_task-Grows table task (found, frontier) =
    let b = on_path task && (is_in table task.reads && not (is_in task.name found)) in
    record {
      found = λ x. ground (arith, is_in-append x found (task.name ∷ []), eq_iff task.name x);
      queued = λ x. ground (arith, is_in-append x found (task.name ∷ []), eq_iff task.name x);
    }

offer_tasks-Grows :
    (table : String) (tasks : List BaseTask) (s : List String × List String)
    → Grows (λ x. read_by table x tasks) s (offer_tasks table tasks s)
unfolding offer_tasks read_by
offer_tasks-Grows table [] s = Grows-none s
offer_tasks-Grows table (task ∷ tasks) s =
    Grows-both (λ x. reads_table table x task) (λ x. read_by table x tasks) s
      (offer_task table task s) (offer_tasks table tasks (offer_task table task s))
      (offer_task-Grows table task s) (offer_tasks-Grows table tasks (offer_task table task s))

offer_tables-Grows :
    (tables : List String) (tasks : List BaseTask) (s : List String × List String)
    → Grows (λ x. one_read_by tables x tasks) s (offer_tables tables tasks s)
unfolding offer_tables one_read_by
offer_tables-Grows [] tasks s = Grows-none s
offer_tables-Grows (table ∷ tables) tasks s =
    let t = offer_tasks table tasks s in
    Grows-both (λ x. read_by table x tasks) (λ x. one_read_by tables x tasks) s t
      (offer_tables tables tasks t) (offer_tasks-Grows table tasks s)
      (offer_tables-Grows tables tasks t)

visit_task-Grows :
    (tasks : List BaseTask) (o : Option BaseTask) (s : List String × List String)
    → Grows (λ x. feeds_from tasks o x) s (visit_task tasks o s)
visit_task-Grows tasks none s = Grows-none s
visit_task-Grows tasks (some task) s = offer_tables-Grows task.writes tasks s

-- A visit of `current` finds the tasks that it feeds.
pub visit-Grows :
    (tasks : Tasks) (current : String) (s : List String × List String)
    → Grows (λ x. feeds tasks current x) s (visit tasks current s)
unfolding feeds
visit-Grows tasks current s = visit_task-Grows (tasks_snapshot tasks) (lookup current tasks) s

-- The tasks whose names are not found yet.
unfoldable pub unseen : List String → List BaseTask → ℕ
unseen found [] = 0
unseen found (task ∷ tasks) =
    let rest = unseen found tasks in if is_in task.name found then rest else suc rest

unfoldable pub named : String → List BaseTask → Bool
named name [] = false
named name (task ∷ tasks) = str_eq task.name name || named name tasks

unseen-le :
    (name : String) (found : List String) (tasks : List BaseTask)
    → unseen (found ++ (name ∷ [])) tasks ≤ unseen found tasks
unfolding unseen is_in
unseen-le name found [] = omega arith
unseen-le name found (task ∷ tasks) =
    ground (arith, unseen-le name found tasks, is_in-append task.name found (name ∷ []))

unseen-lt :
    (name : String) (found : List String) (tasks : List BaseTask)
    → named name tasks ≡ true
    → is_in name found ≡ false
    → suc (unseen (found ++ (name ∷ [])) tasks) ≤ unseen found tasks
unfolding unseen is_in named
unseen-lt name found [] n f = absurd (ground arith)
unseen-lt name found (task ∷ tasks) n f = ground (
  arith,
  unseen-lt name found tasks,
  unseen-le name found tasks,
  is_in-append task.name found (name ∷ []),
  eq_iff task.name name,
  eq_iff name task.name,
)

-- The work left: the frontier and the tasks not found.
unfoldable pub work : List BaseTask → List String × List String → ℕ
work all s = length s.1 + unseen s.0 all

offer_task-work :
    (all : List BaseTask) (table : String) (task : BaseTask) (s : List String × List String)
    → named task.name all ≡ true
    → work all (offer_task table task s) ≤ work all s
unfolding work offer_task
offer_task-work all table task (found, frontier) n = ground (arith, unseen-lt task.name found all n)

offer_tasks-work :
    (all : List BaseTask) (table : String) (tasks : List BaseTask) (s : List String × List String)
    → All (λ task. named task.name all ≡ true) tasks
    → work all (offer_tasks table tasks s) ≤ work all s
unfolding offer_tasks
offer_tasks-work all table [] s h = omega arith
offer_tasks-work all table (task ∷ tasks) s h = omega (
  arith,
  offer_task-work all table task s h.0,
  offer_tasks-work all table tasks (offer_task table task s) h.1,
)

offer_tables-work :
    (all : List BaseTask) (tables : List String) (tasks : List BaseTask)
    (s : List String × List String)
    → All (λ task. named task.name all ≡ true) tasks
    → work all (offer_tables tables tasks s) ≤ work all s
unfolding offer_tables
offer_tables-work all [] tasks s h = omega arith
offer_tables-work all (table ∷ tables) tasks s h = omega (
  arith,
  offer_tasks-work all table tasks s h,
  offer_tables-work all tables tasks (offer_tasks table tasks s) h,
)

named-all : (tasks : List BaseTask) → All (λ task. named task.name tasks ≡ true) tasks
unfolding named
named-all [] = tt
named-all (task ∷ tasks) = (
  ground (arith, eq_iff task.name task.name),
  All-map (λ t. named t.name tasks ≡ true)
      (λ t. (str_eq task.name t.name || named t.name tasks) ≡ true) tasks (λ t h. ground arith)
      (named-all tasks),
)

visit_task-work :
    (tasks : List BaseTask) (o : Option BaseTask) (s : List String × List String)
    → work tasks (visit_task tasks o s) ≤ work tasks s
visit_task-work tasks none s = omega arith
visit_task-work tasks (some task) s = offer_tables-work tasks task.writes tasks s (named-all tasks)

-- A visit leaves no more work than there was.
pub visit-work :
    (tasks : Tasks) (current : String) (s : List String × List String)
    → work (tasks_snapshot tasks) (visit tasks current s) ≤ work (tasks_snapshot tasks) s
visit-work tasks current s = visit_task-work (tasks_snapshot tasks) (lookup current tasks) s
