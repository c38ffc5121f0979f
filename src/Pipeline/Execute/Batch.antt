-- ===== src/Pipeline/Execute/Batch.antt =====
-- A whole batch under `_execute` of pipeline/orchestrator.py: its paths, with the results that the
-- task's code returned for them.
use second_brain_art.Common.{
  ◌≡◌, ◌≤◌, true, false, ◌||◌, Option, none, some, List, [], ◌∷◌, String, eq_iff, inl, inr,
  Bool-cases, length, arith,
}
use second_brain_art.Python.Sets.{is_in}
use second_brain_art.Pipeline.Rows.{TaskRow}
use second_brain_art.Pipeline.Queue.{unclaimed, unclaim_tasks, unclaim_path}
use second_brain_art.Pipeline.Tasks.{BaseTask, Tasks, Graph, is_empty}
use second_brain_art.Pipeline.World.{Env, World, Row, emit, task_started}
use second_brain_art.Pipeline.Queue.Steps.{Settles-unclaimed, once, unclaims, busy, busy-keyed}
use second_brain_art.Pipeline.Queue.Keys.{Quiets-busy}
use second_brain_art.Pipeline.Handlers.{invalidate_downstream}
use second_brain_art.Pipeline.Execute.{
  TaskResult, Outcome, ran, crashed, after_write, store, write_tables, no_rows, settle_stored,
  fail_path, write_failed, handle_success, process_result, process_results, fail_paths,
  execute_outcome, execute,
}
use second_brain_art.Pipeline.Handlers.Touches.{
  Touch, Touch-refl, Touch-trans, Touch-if, Touch-invalidate,
}
use second_brain_art.Pipeline.Execute.Settled.{
  Touch-busy, Frees, after-Frees, Frees-fail_path, Frees-settle,
}

-- The code answers for every path: it crashed, or returned at least as many results as paths.
abbrev pub Answers : List String → Outcome → Type 0
Answers paths (crashed error) = Unit
Answers paths (ran results) = length paths ≤ length results

-- A member that is not in the rest is the first.
same-of :
    (p path : String) (paths : List String)
    → is_in path (p ∷ paths) ≡ true
    → is_in path paths ≡ false
    → path ≡ p
unfolding is_in
same-of p path paths m h = ground (arith, eq_iff p path)

unclaimed-calm :
    (name path : String) (paths : List String) (q : List TaskRow)
    → busy path name q ≡ false
    → busy path name (unclaim_tasks name paths q) ≡ false
unclaimed-calm name path paths q h =
    Quiets-busy q (unclaim_tasks name paths q) path name (once (unclaims name paths)) h

unclaimed-busy :
    (name path : String) (paths : List String) (q : List TaskRow)
    → is_in path paths ≡ true
    → busy path name (unclaim_tasks name paths q) ≡ false
unfolding unclaim_tasks is_in
unclaimed-busy name path [] q m = absurd (ground arith)
unclaimed-busy name path (p ∷ paths) q m = elim (Bool-cases (is_in path paths)) [
  | inl later ↦ unclaimed-busy name path paths (unclaim_path name p q) later
  | inr first ↦
      unclaimed-calm name path paths (unclaim_path name p q)
        (rw (same-of p path paths m first) (busy-keyed p name unclaimed q Settles-unclaimed))
]

module _ (env : Env) (tasks : Tasks) (g : Graph) where
  Touch-after :
      (o : Option String) (w after : World) (others : World × Option String)
      → Touch w after
      → Touch w others.0
      → Touch w (after_write env tasks g o after others).0
  Touch-after none w after others a b = b
  Touch-after (some error) w after others a b = a

  -- The writes do not touch the queue.
  Touch-write :
      (tables : List String) (rows : List Row) (w : World)
      → Touch w (write_tables env tasks g tables rows w).0
  unfolding write_tables
  Touch-write [] rows w = Touch-refl w
  Touch-write (table ∷ tables) rows w =
      let written = env.write_outputs table rows w.outputs in
      let after = record w { outputs = written.0 } in
      Touch-after written.1 w after (write_tables env tasks g tables rows after)
        (record { steps = (Touch-refl w).steps })
        (record { steps = (Touch-write tables rows after).steps })

  Touch-store :
      (task : BaseTask) (result : TaskResult) (w : World)
      → Touch w (store env tasks g task result w).0
  Touch-store task result w = elim (Bool-cases (no_rows result.rows || is_empty task.writes)) [
    | inl b ↦ rw b (Touch-refl w)
    | inr b ↦ rw b (Touch-write task.writes result.rows w)
  ]

  Frees-stored :
      (task : BaseTask) (path : String) (result : TaskResult) (s : World × Option String)
      → Frees path task.name s.0 (settle_stored env tasks g task path result s).0
  Frees-stored task path result (w, none) = Frees-settle env tasks g task path result w
  Frees-stored task path result (w, some error) =
      Frees-fail_path env tasks g task path (write_failed env tasks g error) w

  Frees-process :
      (task : BaseTask) (path : String) (result : TaskResult) (w : World)
      → Frees path task.name w (process_result env tasks g task path result w).0
  unfolding process_result handle_success
  Frees-process task path result w =
      let stored = store env tasks g task result w in
      elim (Bool-cases result.success) [
        | inl b ↦ rw b (
            after-Frees path task.name w stored.0
              (settle_stored env tasks g task path result stored).0 (Touch-store task result w)
              (Frees-stored task path result stored))
        | inr b ↦ rw b (Frees-fail_path env tasks g task path result.error w)
      ]

  Touch-process_results :
      (task : BaseTask) (paths : List String) (results : List TaskResult) (w : World)
      → Touch w (process_results env tasks g task paths results w).0
  unfolding process_results
  Touch-process_results task [] results w = Touch-refl w
  Touch-process_results task (path ∷ paths) [] w = Touch-refl w
  Touch-process_results task (path ∷ paths) (result ∷ results) w =
      let v = (process_result env tasks g task path result w).0 in
      Touch-trans w v (process_results env tasks g task paths results v).0
        (Frees-process task path result w).touch (Touch-process_results task paths results v)

  Touch-fail_paths :
      (task : BaseTask) (paths : List String) (error : String) (w : World)
      → Touch w (fail_paths env tasks g task paths error w)
  unfolding fail_paths
  Touch-fail_paths task [] error w = Touch-refl w
  Touch-fail_paths task (path ∷ paths) error w =
      let v = fail_path env tasks g task path error w in
      Touch-trans w v (fail_paths env tasks g task paths error v)
        (Frees-fail_path env tasks g task path error w).touch (Touch-fail_paths task paths error v)

  processed-busy :
      (task : BaseTask) (paths : List String) (results : List TaskResult) (w : World)
      (path : String)
      → length paths ≤ length results
      → is_in path paths ≡ true
      → busy path task.name (process_results env tasks g task paths results w).0.queue ≡ false
  unfolding process_results is_in
  processed-busy task [] results w path h m = absurd (ground arith)
  processed-busy task (p ∷ paths) [] w path h m = absurd (omega arith)
  processed-busy task (p ∷ paths) (result ∷ results) w path h m =
      let v = (process_result env tasks g task p result w).0 in
      elim (Bool-cases (is_in path paths)) [
        | inl later ↦ processed-busy task paths results v path (omega arith) later
        | inr first ↦
            Touch-busy path task.name v (process_results env tasks g task paths results v).0
              (Touch-process_results task paths results v)
              (rw (same-of p path paths m first) (Frees-process task p result w).free)
      ]

  failed-busy :
      (task : BaseTask) (paths : List String) (error : String) (w : World) (path : String)
      → is_in path paths ≡ true
      → busy path task.name (fail_paths env tasks g task paths error w).queue ≡ false
  unfolding fail_paths is_in
  failed-busy task [] error w path m = absurd (ground arith)
  failed-busy task (p ∷ paths) error w path m =
      let v = fail_path env tasks g task p error w in
      elim (Bool-cases (is_in path paths)) [
        | inl later ↦ failed-busy task paths error v path later
        | inr first ↦
            Touch-busy path task.name v (fail_paths env tasks g task paths error v)
              (Touch-fail_paths task paths error v)
              (rw (same-of p path paths m first) (Frees-fail_path env tasks g task p error w).free)
      ]

  outcome-busy :
      (task : BaseTask) (paths : List String) (outcome : Outcome) (w : World) (path : String)
      → Answers paths outcome
      → is_in path paths ≡ true
      → busy path task.name (execute_outcome env tasks g task paths outcome w).queue ≡ false
  outcome-busy task paths (crashed error) w path h m =
      let v = fail_paths env tasks g task paths error w in
      Touch-busy path task.name v (invalidate_downstream tasks task.name paths v)
        (Touch-invalidate tasks task.name paths v) (failed-busy task paths error w path m)
  outcome-busy task paths (ran results) w path h m =
      let processed = process_results env tasks g task paths results w in
      Touch-busy path task.name processed.0 _
        (Touch-if (is_empty processed.1) processed.0 _ _ (Touch-refl processed.0)
          (Touch-invalidate tasks task.name processed.1 processed.0))
        (processed-busy task paths results w path h m)

-- When `_execute` is over, no path of its batch is left PROCESSING, whether the task was paused
-- meanwhile, its code crashed, a write failed, or it returned: provided that it returned at least
-- as many results as there are paths.
pub execute-settles :
    (env : Env) (tasks : Tasks) (g : Graph) (paused : List String) (task : BaseTask)
    (paths : List String) (outcome : Outcome) (w : World) (path : String)
    → Answers paths outcome
    → is_in path paths ≡ true
    → busy path task.name (execute env tasks g paused task paths outcome w).queue ≡ false
unfolding execute
execute-settles env tasks g paused task paths outcome w path h m =
    elim (Bool-cases (is_in task.name paused)) [
      | inl b ↦ rw b (unclaimed-busy task.name path paths w.queue m)
      | inr b ↦ rw b (
          outcome-busy env tasks g task paths outcome (emit (task_started task.name paths) w) path h
            m)
    ]

Touch-outcome :
    (env : Env) (tasks : Tasks) (g : Graph) (task : BaseTask) (paths : List String)
    (outcome : Outcome) (w : World)
    → Touch w (execute_outcome env tasks g task paths outcome w)
Touch-outcome env tasks g task paths (crashed error) w =
    let v = fail_paths env tasks g task paths error w in
    Touch-trans w v (invalidate_downstream tasks task.name paths v)
      (Touch-fail_paths env tasks g task paths error w) (Touch-invalidate tasks task.name paths v)
Touch-outcome env tasks g task paths (ran results) w =
    let processed = process_results env tasks g task paths results w in
    Touch-trans w processed.0 _ (Touch-process_results env tasks g task paths results w) (
      Touch-if (is_empty processed.1) processed.0 _ _ (Touch-refl processed.0)
        (Touch-invalidate tasks task.name processed.1 processed.0))

pub Touch-execute :
    (env : Env) (tasks : Tasks) (g : Graph) (paused : List String) (task : BaseTask)
    (paths : List String) (outcome : Outcome) (w : World)
    → Touch w (execute env tasks g paused task paths outcome w)
unfolding execute
Touch-execute env tasks g paused task paths outcome w =
    let told = emit (task_started task.name paths) w in
    Touch-if (is_in task.name paused) w _ _ (record { steps = once (unclaims task.name paths) })
      (record { steps = (Touch-outcome env tasks g task paths outcome told).steps })

-- `_execute` starts no work: a row of the queue, of whichever task, is PROCESSING afterwards only
-- when it was so before.
pub execute-calm :
    (env : Env) (tasks : Tasks) (g : Graph) (paused : List String) (task : BaseTask)
    (paths : List String) (outcome : Outcome) (w : World) (path name : String)
    → busy path name w.queue ≡ false
    → busy path name (execute env tasks g paused task paths outcome w).queue ≡ false
execute-calm env tasks g paused task paths outcome w path name h =
    Touch-busy path name w (execute env tasks g paused task paths outcome w)
      (Touch-execute env tasks g paused task paths outcome w) h
