-- ===== src/Pipeline/Tasks.antt =====
-- The tasks that the orchestrator of pipeline/orchestrator.py runs, with the attributes of BaseTask
-- that it reads, and the graphs it builds from what they read and write. A set of names is the list
-- of its members in the order in which they were added.
pub mod Offers
pub mod Downstream
pub mod Graphs
pub mod Deps
use second_brain_art.Common.{
  ℕ, zero, suc, Bool, true, false, not, ◌&&◌, Option, none, some, List, [], ◌∷◌, String, str_eq,
  ltb, ◌==◌, length, ◌++◌, if◌then◌else◌,
}
use second_brain_art.Python.Dict.{Dict, lookup, insert, has_key}
use second_brain_art.Python.Sets.{is_in, add}
use second_brain_art.Pipeline.Rows.{TaskRow}
use second_brain_art.Pipeline.Queue.{is_task_done}

pub record BaseTask : Type 0 where
  pub name : String
  pub trigger : String
  pub trigger_channels : List String
  pub modalities : List String
  pub reads : List String
  pub writes : List String
  pub require_all_inputs : Bool
  pub requires_services : List String
  pub batch_size : ℕ
  pub max_workers : ℕ
  pub timeout : ℕ

-- `Orchestrator.tasks`
abbrev pub Tasks : Type 0
Tasks = Dict BaseTask

-- `_tasks_snapshot`
unfoldable pub tasks_snapshot : Tasks → List BaseTask
tasks_snapshot [] = []
tasks_snapshot ((name, task) ∷ tasks) = task ∷ tasks_snapshot tasks

abbrev pub on_path : BaseTask → Bool
on_path task = str_eq task.trigger "path"

abbrev pub on_event : BaseTask → Bool
on_event task = str_eq task.trigger "event"

-- What `_build_graph` builds.
pub record Graph : Type 0 where
  pub table_producers : Dict String
  pub upstream : Dict (List String)
  pub event_upstream : Dict (List String)

-- Phase 1 for one task: a table keeps its first writer.
unfoldable pub claim_tables : String → List String → Dict String → Dict String
claim_tables name [] producers = producers
claim_tables name (table ∷ tables) producers =
    claim_tables name tables
      (if has_key table producers then producers else insert table name producers)

unfoldable pub first_writers : List BaseTask → Dict String → Dict String
first_writers [] producers = producers
first_writers (task ∷ tasks) producers =
    first_writers tasks (claim_tables task.name task.writes producers)

-- The producer of a table, when it is a registered task of the kind.
abbrev pub same_kind : Tasks → String → String → Bool
same_kind tasks kind name = elim (lookup name tasks) [
  | none ↦ false
  | some producer ↦ str_eq producer.trigger kind
]

abbrev pub add_dep : Tasks → String → Option String → List String → List String
add_dep tasks kind none deps = deps
add_dep tasks kind (some name) deps =
    if not (str_eq name "") && same_kind tasks kind name then add name deps else deps

-- Phase 2 for one task: `same_kind_deps`
unfoldable pub same_kind_deps :
    Tasks → Dict String → String → List String → List String → List String
same_kind_deps tasks producers kind [] deps = deps
same_kind_deps tasks producers kind (table ∷ tables) deps =
    same_kind_deps tasks producers kind tables (add_dep tasks kind (lookup table producers) deps)

abbrev pub deps_of : Tasks → Dict String → BaseTask → List String
deps_of tasks producers task = same_kind_deps tasks producers task.trigger task.reads []

-- The graph that the kind belongs to: `true` is for event tasks.
abbrev pub place : Bool → String → List String → Graph → Graph
place true name deps g = record g { event_upstream = insert name deps g.event_upstream }
place false name deps g = record g { upstream = insert name deps g.upstream }

abbrev pub link_task : Tasks → Dict String → BaseTask → Graph → Graph
link_task tasks producers task g = place (on_event task) task.name (deps_of tasks producers task) g

unfoldable pub link : Tasks → Dict String → List BaseTask → Graph → Graph
link tasks producers [] g = g
link tasks producers (task ∷ rest) g = link tasks producers rest (link_task tasks producers task g)

unfoldable pub build_graph : Tasks → Graph
build_graph tasks =
    let producers = first_writers (tasks_snapshot tasks) [] in
    link tasks producers (tasks_snapshot tasks)
      (record { table_producers = producers; upstream = []; event_upstream = [] })

abbrev pub names_in : Option (List String) → List String
names_in none = []
names_in (some names) = names

-- `self.upstream.get(task.name, [])`
abbrev pub upstream_of : Graph → BaseTask → List String
upstream_of g task = names_in (lookup task.name g.upstream)

unfoldable pub done_of : String → List TaskRow → List String → List String
done_of path q [] = []
done_of path q (dep ∷ deps) =
    let rest = done_of path q deps in if is_task_done path dep q then dep ∷ rest else rest

abbrev pub is_empty : List String → Bool
is_empty [] = true
is_empty (x ∷ xs) = false

-- `_deps_met`
unfoldable pub deps_met : Graph → String → BaseTask → List TaskRow → Bool
deps_met g path task q =
    let upstream_tasks = upstream_of g task in
    let found = done_of path q upstream_tasks in
    if is_empty upstream_tasks
    then true
    else if task.require_all_inputs
    then length found == length upstream_tasks
    else ltb 0 (length found)

-- `get_all_downstream`: the tasks found, and the frontier with the end of Python's list first.
unfoldable pub offer_task :
    String → BaseTask → List String × List String → List String × List String
offer_task table task (found, frontier) =
    if on_path task && (is_in table task.reads && not (is_in task.name found))
    then (found ++ (task.name ∷ []), task.name ∷ frontier)
    else (found, frontier)

unfoldable pub offer_tasks :
    String → List BaseTask → List String × List String → List String × List String
offer_tasks table [] s = s
offer_tasks table (task ∷ tasks) s = offer_tasks table tasks (offer_task table task s)

unfoldable pub offer_tables :
    List String → List BaseTask → List String × List String → List String × List String
offer_tables [] tasks s = s
offer_tables (table ∷ tables) tasks s = offer_tables tables tasks (offer_tasks table tasks s)

-- One turn of the loop, for a frontier from which `current` is popped.
abbrev pub visit_task :
    List BaseTask → Option BaseTask → List String × List String → List String × List String
visit_task tasks none s = s
visit_task tasks (some task) s = offer_tables task.writes tasks s

abbrev pub visit : Tasks → String → List String × List String → List String × List String
visit tasks current s = visit_task (tasks_snapshot tasks) (lookup current tasks) s

unfoldable pub downstream_loop : ℕ → Tasks → List String × List String → Option (List String)
downstream_loop fuel tasks (found, []) = some found
downstream_loop zero tasks (found, current ∷ frontier) = none
downstream_loop (suc fuel) tasks (found, current ∷ frontier) =
    downstream_loop fuel tasks (visit tasks current (found, frontier))

-- The trigger of the task named, "path" when there is none.
abbrev pub root_on_path : Tasks → String → Bool
root_on_path tasks name = elim (lookup name tasks) [ none ↦ true | some task ↦ on_path task ]

unfoldable pub get_all_downstream : Tasks → String → Option (List String)
get_all_downstream tasks task_name =
    if root_on_path tasks task_name
    then downstream_loop (suc (length (tasks_snapshot tasks))) tasks ([], task_name ∷ [])
    else some []
