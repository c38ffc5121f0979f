-- ===== src/Pipeline/Handlers.antt =====
-- The handlers of Orchestrator in pipeline/orchestrator.py that put path tasks into the queue: a
-- file found, a file deleted, a task completed, paths discovered, and the backfill. Each loop over
-- `_tasks_snapshot()` is one function.
pub mod Touches
pub mod Deletion
use second_brain_art.Common.{
  ℕ, zero, suc, Bool, true, false, ◌&&◌, Option, none, some, List, [], ◌∷◌, ◌++◌, String, str_eq,
  if◌then◌else◌,
}
use second_brain_art.Python.Sets.{is_in}
use second_brain_art.Pipeline.Rows.{Status, pending, processing, FileRow}
use second_brain_art.Pipeline.Queue.{
  get_task_status, invalidate_tasks_for_paths, get_paths_with_any_task_done,
}
use second_brain_art.Pipeline.Files.{upsert_file, get_files_by_modality, get_container_children}
use second_brain_art.Pipeline.Tasks.{
  BaseTask, Tasks, Graph, tasks_snapshot, on_path, upstream_of, deps_met, get_all_downstream,
  is_empty,
}
use second_brain_art.Pipeline.World.{Env, World, enqueue, re_enqueue, remove_file}

-- A search that is out of fuel counts as one that finds nothing.
abbrev pub downstream_of : Tasks → String → List String
downstream_of tasks name = elim (get_all_downstream tasks name) [ none ↦ [] | some names ↦ names ]

-- `_invalidate_downstream`
unfoldable pub invalidate_downstream : Tasks → String → List String → World → World
invalidate_downstream tasks name paths w =
    let downstream = downstream_of tasks name in
    if is_empty downstream
    then w
    else record w { queue = invalidate_tasks_for_paths downstream paths w.queue }

-- `in ("PENDING", "PROCESSING")`
abbrev pub under_way : Option Status → Bool
under_way (some pending) = true
under_way (some processing) = true
under_way _ = false

module _ (env : Env) (tasks : Tasks) (g : Graph) where
  abbrev pub discover_task : String → String → BaseTask → World → World
  discover_task path modality task w =
      if on_path task && (is_in modality task.modalities && deps_met g path task w.queue)
      then if under_way (get_task_status path task.name w.queue)
        then w
        else invalidate_downstream tasks task.name (path ∷ []) (re_enqueue env path task.name w)
      else w

  unfoldable pub discover_tasks : String → String → List BaseTask → World → World
  discover_tasks path modality [] w = w
  discover_tasks path modality (task ∷ rest) w =
      discover_tasks path modality rest (discover_task path modality task w)

  unfoldable pub on_file_discovered : String → String → World → World
  on_file_discovered path modality w = discover_tasks path modality (tasks_snapshot tasks) w

  abbrev pub trigger_task : String → String → BaseTask → World → World
  trigger_task path table task w =
      if on_path task && (is_in table task.reads && deps_met g path task w.queue)
      then re_enqueue env path task.name w
      else w

  unfoldable pub trigger_tasks : String → String → List BaseTask → World → World
  trigger_tasks path table [] w = w
  trigger_tasks path table (task ∷ rest) w =
      trigger_tasks path table rest (trigger_task path table task w)

  unfoldable pub trigger_tables : String → List String → World → World
  trigger_tables path [] w = w
  trigger_tables path (table ∷ tables) w =
      trigger_tables path tables (trigger_tasks path table (tasks_snapshot tasks) w)

  -- for a task that is still registered; `none` when it is not
  unfoldable pub on_task_completed : String → Option BaseTask → World → World
  on_task_completed path none w = w
  on_task_completed path (some task) w = trigger_tables path task.writes w

  abbrev pub contain_task : String → String → BaseTask → World → World
  contain_task path modality task w =
      if on_path task && (is_in modality task.modalities && deps_met g path task w.queue)
      then re_enqueue env path task.name w
      else w

  unfoldable pub contain_tasks : String → String → List BaseTask → World → World
  contain_tasks path modality [] w = w
  contain_tasks path modality (task ∷ rest) w =
      contain_tasks path modality rest (contain_task path modality task w)

  unfoldable pub on_also_contains : String → List String → World → World
  on_also_contains path [] w = w
  on_also_contains path (modality ∷ modalities) w =
      on_also_contains path modalities (contain_tasks path modality (tasks_snapshot tasks) w)

  -- `upsert_file` for a path that came out of a container
  abbrev pub register_path : String → World → World
  register_path path w =
      let ext = env.suffix path in
      let row : FileRow = record {
        path = path;
        file_name = env.file_name path;
        extension = ext;
        modality = env.modality ext;
        mtime = env.mtime path;
        discovered_at = 0;
        updated_at = 0;
        source = "container";
      } in
      record w { files = upsert_file (env.time w.ticks) row w.files; ticks = suc w.ticks }

  unfoldable pub on_paths_discovered : List String → World → World
  on_paths_discovered [] w = w
  on_paths_discovered (path ∷ paths) w = on_paths_discovered paths (
      if env.exists path && env.supported (env.suffix path)
      then on_file_discovered path (env.modality (env.suffix path)) (register_path path w)
      else w)

  unfoldable pub backfill_paths : BaseTask → List String → World → World
  backfill_paths task [] w = w
  backfill_paths task (path ∷ paths) w =
      backfill_paths task paths
        (if deps_met g path task w.queue then enqueue env path task.name w else w)

  unfoldable pub backfill_modalities : BaseTask → List String → World → World
  backfill_modalities task [] w = w
  backfill_modalities task (modality ∷ modalities) w =
      backfill_modalities task modalities
        (backfill_paths task (get_files_by_modality modality w.files) w)

  -- `_get_backfill_paths`
  abbrev pub get_backfill_paths : BaseTask → World → List String
  get_backfill_paths task w = get_paths_with_any_task_done (upstream_of g task) w.queue

  abbrev pub backfill_task : BaseTask → World → World
  backfill_task task w =
      if on_path task
      then if is_empty task.modalities
        then if is_empty task.reads then w else backfill_paths task (get_backfill_paths task w) w
        else backfill_modalities task task.modalities w
      else w

  unfoldable pub backfill_all : List BaseTask → World → World
  backfill_all [] w = w
  backfill_all (task ∷ rest) w = backfill_all rest (backfill_task task w)

  -- `_backfill_tasks`
  unfoldable pub backfill_tasks : World → World
  backfill_tasks w = backfill_all (tasks_snapshot tasks) w

abbrev pub all_writes : List BaseTask → List String
all_writes [] = []
all_writes (task ∷ rest) = task.writes ++ all_writes rest

-- `on_file_deleted`, with what is left of the recursion limit: a call beyond it raises, the caller
-- gives up its loop over the children and removes its own path. The Boolean says that the call
-- raised.
module _ (env : Env) (tasks : Tasks) where
  abbrev pub clean : String → World → World
  clean path w = record w {
    outputs = env.clean_output_tables path (all_writes (tasks_snapshot tasks)) w.outputs;
  }

  -- the extracted files of a path, when it was an archive
  abbrev pub children : String → World → List String
  children path w = elim (env.extract_dir path w.outputs) [
    | none ↦ []
    | some dir ↦ if str_eq dir "" then [] else get_container_children dir w.files
  ]

  -- the loop over the children, given what deletes one
  unfoldable pub delete_children :
      (String → World → World × Bool) → List String → World → World × Bool
  delete_children delete [] w = (w, false)
  delete_children delete (path ∷ paths) w =
      let others = delete_children delete paths (delete path w).0 in
      if (delete path w).1 then delete path w else others

  unfoldable pub on_file_deleted : ℕ → String → World → World × Bool
  on_file_deleted zero path w = (w, true)
  on_file_deleted (suc depth) path w =
      let cleaned = clean path w in
      let cascaded = delete_children (on_file_deleted depth) (children path cleaned) cleaned in
      (remove_file path cascaded.0, false)
