-- ===== src/Pipeline/Handlers/Touches.antt =====
-- The handlers of pipeline/orchestrator.py as chains of quiet steps on the queue.
use second_brain_art.Common.{
  Bool, true, false, ◌&&◌, Option, none, some, List, [], ◌∷◌, String, if◌then◌else◌,
}
use second_brain_art.Python.Sets.{is_in}
use second_brain_art.Pipeline.Queue.{get_task_status}
use second_brain_art.Pipeline.Files.{get_files_by_modality}
use second_brain_art.Pipeline.Tasks.{
  BaseTask, Tasks, Graph, tasks_snapshot, on_path, deps_met, is_empty,
}
use second_brain_art.Pipeline.World.{Env, World, enqueue, re_enqueue, complete, fail}
use second_brain_art.Pipeline.Queue.Steps.{
  Quiets, halt, Quiets-trans, once, enqueues, re_enqueues, completes, fails, invalidates,
}
use second_brain_art.Pipeline.Handlers.{
  downstream_of, invalidate_downstream, under_way, discover_task, discover_tasks,
  on_file_discovered, trigger_task, trigger_tasks, trigger_tables, on_task_completed, contain_task,
  contain_tasks, on_also_contains, register_path, on_paths_discovered, backfill_paths,
  backfill_modalities, get_backfill_paths, backfill_task, backfill_all,
}

-- `w` became `v` by quiet steps.
pub record Touch (w v : World) : Type 0 where
  pub steps : Quiets w.queue v.queue

pub Touch-refl : (w : World) → Touch w w
Touch-refl w = record { steps = halt }

pub Touch-trans : (u v w : World) → Touch u v → Touch v w → Touch u w
Touch-trans u v w a b = record { steps = Quiets-trans a.steps b.steps }

-- A test between two handlings of the same world.
pub Touch-if : (b : Bool) (w u v : World) → Touch w u → Touch w v → Touch w (if b then u else v)
Touch-if true w u v x y = x
Touch-if false w u v x y = y

pub Touch-invalidate :
    (tasks : Tasks) (name : String) (paths : List String) (w : World)
    → Touch w (invalidate_downstream tasks name paths w)
unfolding invalidate_downstream
Touch-invalidate tasks name paths w =
    Touch-if (is_empty (downstream_of tasks name)) w _ _ (Touch-refl w)
      (record { steps = once (invalidates (downstream_of tasks name) paths) })

module _ (env : Env) where
  pub Touch-re_enqueue : (path name : String) (w : World) → Touch w (re_enqueue env path name w)
  Touch-re_enqueue path name w = record {
    steps = once (re_enqueues env.roots (env.time w.ticks) path name);
  }

  pub Touch-complete : (path name : String) (w : World) → Touch w (complete env path name w)
  Touch-complete path name w = record { steps = once (completes (env.time w.ticks) path name) }

  pub Touch-fail : (path name error : String) (w : World) → Touch w (fail env path name error w)
  Touch-fail path name error w = record { steps = once (fails (env.time w.ticks) path name error) }

module _ (env : Env) (tasks : Tasks) (g : Graph) where
  Touch-discover_task :
      (path modality : String) (task : BaseTask) (w : World)
      → Touch w (discover_task env tasks g path modality task w)
  Touch-discover_task path modality task w =
      let again = re_enqueue env path task.name w in
      Touch-if (on_path task && (is_in modality task.modalities && deps_met g path task w.queue)) w
        _ _
        (Touch-if (under_way (get_task_status path task.name w.queue)) w _ _ (Touch-refl w) (
          Touch-trans w again (invalidate_downstream tasks task.name (path ∷ []) again)
            (Touch-re_enqueue env path task.name w)
            (Touch-invalidate tasks task.name (path ∷ []) again)))
        (Touch-refl w)

  Touch-discover_tasks :
      (path modality : String) (rest : List BaseTask) (w : World)
      → Touch w (discover_tasks env tasks g path modality rest w)
  unfolding discover_tasks
  Touch-discover_tasks path modality [] w = Touch-refl w
  Touch-discover_tasks path modality (task ∷ rest) w =
      let v = discover_task env tasks g path modality task w in
      Touch-trans w v (discover_tasks env tasks g path modality rest v)
        (Touch-discover_task path modality task w) (Touch-discover_tasks path modality rest v)

  pub Touch-discovered :
      (path modality : String) (w : World)
      → Touch w (on_file_discovered env tasks g path modality w)
  unfolding on_file_discovered
  Touch-discovered path modality w = Touch-discover_tasks path modality (tasks_snapshot tasks) w

  Touch-trigger_tasks :
      (path table : String) (rest : List BaseTask) (w : World)
      → Touch w (trigger_tasks env tasks g path table rest w)
  unfolding trigger_tasks
  Touch-trigger_tasks path table [] w = Touch-refl w
  Touch-trigger_tasks path table (task ∷ rest) w =
      let v = trigger_task env tasks g path table task w in
      Touch-trans w v (trigger_tasks env tasks g path table rest v)
        (Touch-if (on_path task && (is_in table task.reads && deps_met g path task w.queue)) w _ _
          (Touch-re_enqueue env path task.name w) (Touch-refl w))
        (Touch-trigger_tasks path table rest v)

  Touch-trigger_tables :
      (path : String) (tables : List String) (w : World)
      → Touch w (trigger_tables env tasks g path tables w)
  unfolding trigger_tables
  Touch-trigger_tables path [] w = Touch-refl w
  Touch-trigger_tables path (table ∷ tables) w =
      let v = trigger_tasks env tasks g path table (tasks_snapshot tasks) w in
      Touch-trans w v (trigger_tables env tasks g path tables v)
        (Touch-trigger_tasks path table (tasks_snapshot tasks) w)
        (Touch-trigger_tables path tables v)

  pub Touch-task_completed :
      (path : String) (o : Option BaseTask) (w : World)
      → Touch w (on_task_completed env tasks g path o w)
  unfolding on_task_completed
  Touch-task_completed path none w = Touch-refl w
  Touch-task_completed path (some task) w = Touch-trigger_tables path task.writes w

  Touch-contain_tasks :
      (path modality : String) (rest : List BaseTask) (w : World)
      → Touch w (contain_tasks env tasks g path modality rest w)
  unfolding contain_tasks
  Touch-contain_tasks path modality [] w = Touch-refl w
  Touch-contain_tasks path modality (task ∷ rest) w =
      let v = contain_task env tasks g path modality task w in
      Touch-trans w v (contain_tasks env tasks g path modality rest v)
        (Touch-if (on_path task && (is_in modality task.modalities && deps_met g path task w.queue))
          w _ _ (Touch-re_enqueue env path task.name w) (Touch-refl w))
        (Touch-contain_tasks path modality rest v)

  pub Touch-also_contains :
      (path : String) (modalities : List String) (w : World)
      → Touch w (on_also_contains env tasks g path modalities w)
  unfolding on_also_contains
  Touch-also_contains path [] w = Touch-refl w
  Touch-also_contains path (modality ∷ modalities) w =
      let v = contain_tasks env tasks g path modality (tasks_snapshot tasks) w in
      Touch-trans w v (on_also_contains env tasks g path modalities v)
        (Touch-contain_tasks path modality (tasks_snapshot tasks) w)
        (Touch-also_contains path modalities v)

  pub Touch-paths_discovered :
      (paths : List String) (w : World) → Touch w (on_paths_discovered env tasks g paths w)
  unfolding on_paths_discovered
  Touch-paths_discovered [] w = Touch-refl w
  Touch-paths_discovered (path ∷ paths) w =
      let found = env.exists path && env.supported (env.suffix path) in
      let kind = env.modality (env.suffix path) in
      let known = register_path env tasks g path w in
      let seen = on_file_discovered env tasks g path kind known in
      let v = if found then seen else w in
      Touch-trans w v (on_paths_discovered env tasks g paths v)
        (Touch-if found w seen w (record { steps = (Touch-discovered path kind known).steps })
          (Touch-refl w))
        (Touch-paths_discovered paths v)

  Touch-backfill_paths :
      (task : BaseTask) (paths : List String) (w : World)
      → Touch w (backfill_paths env tasks g task paths w)
  unfolding backfill_paths
  Touch-backfill_paths task [] w = Touch-refl w
  Touch-backfill_paths task (path ∷ paths) w =
      let v = if deps_met g path task w.queue then enqueue env path task.name w else w in
      Touch-trans w v (backfill_paths env tasks g task paths v)
        (Touch-if (deps_met g path task w.queue) w _ _
          (record { steps = once (enqueues env.roots (env.time w.ticks) path task.name) })
          (Touch-refl w))
        (Touch-backfill_paths task paths v)

  Touch-backfill_modalities :
      (task : BaseTask) (modalities : List String) (w : World)
      → Touch w (backfill_modalities env tasks g task modalities w)
  unfolding backfill_modalities
  Touch-backfill_modalities task [] w = Touch-refl w
  Touch-backfill_modalities task (modality ∷ modalities) w =
      let paths = get_files_by_modality modality w.files in
      let v = backfill_paths env tasks g task paths w in
      Touch-trans w v (backfill_modalities env tasks g task modalities v)
        (Touch-backfill_paths task paths w) (Touch-backfill_modalities task modalities v)

  Touch-backfill_task : (task : BaseTask) (w : World) → Touch w (backfill_task env tasks g task w)
  Touch-backfill_task task w =
      let found = get_backfill_paths env tasks g task w in
      Touch-if (on_path task) w _ _
        (Touch-if (is_empty task.modalities) w _ _
          (Touch-if (is_empty task.reads) w _ _ (Touch-refl w) (Touch-backfill_paths task found w))
          (Touch-backfill_modalities task task.modalities w))
        (Touch-refl w)

  pub Touch-backfill_all :
      (rest : List BaseTask) (w : World) → Touch w (backfill_all env tasks g rest w)
  unfolding backfill_all
  Touch-backfill_all [] w = Touch-refl w
  Touch-backfill_all (task ∷ rest) w =
      let v = backfill_task env tasks g task w in
      Touch-trans w v (backfill_all env tasks g rest v) (Touch-backfill_task task w)
        (Touch-backfill_all rest v)
