-- ===== src/Pipeline/EventRuns/RunSettled.antt =====
-- What `_execute_event_run` of pipeline/orchestrator.py leaves of the run it executes, and of the
-- other runs.
use mathlib.Core.Path.{subst}
use second_brain_art.Common.{
  suc, ◌≡◌, refl, Bool, true, false, Option, none, some, List, String, eq_iff, if◌then◌else◌,
  length, arith,
}
use second_brain_art.Python.Sets.{is_in}
use second_brain_art.Pipeline.Rows.{RunRow, pending, done, failed, is_processing, update_where}
use second_brain_art.Pipeline.Runs.{same_run, complete_run, fail_run, unclaim_run, run_busy}
use second_brain_art.Pipeline.Tasks.{BaseTask, Tasks, Graph}
use second_brain_art.Pipeline.World.{Env, World, emit, run_started, run_completed}
use second_brain_art.Pipeline.Execute.{TaskResult, store, write_failed}
use second_brain_art.Pipeline.EventRuns.{
  EventOutcome, returned, broke, fail_event, finish_run, event_outcome, execute_event_run,
}
use second_brain_art.Pipeline.EventRuns.RunCalm.{
  Calm, Calm-trans, Calm-chain_tables, runs-store, Calm-run_update, busy-run_update,
}

-- `Calm`, and the run is over.
record Ended (id : String) (rs ss : List RunRow) : Type 0 where
  pub quiet : Calm rs ss
  pub over : run_busy id ss ≡ false

Ended-update :
    (id : String) (f : RunRow → RunRow) (rs : List RunRow)
    → ((r : RunRow) → (f r).run_id ≡ r.run_id)
    → ((r : RunRow) → is_processing (f r).status ≡ false)
    → Ended id rs (update_where (same_run id) f rs)
Ended-update id f rs k i = record {
  quiet = Calm-run_update id f rs k i;
  over = ground (arith, busy-run_update id id f rs k i, eq_iff id id);
}

Ended-if :
    (b : Bool) (id : String) (rs : List RunRow) (u v : World × Bool)
    → Ended id rs u.0.runs
    → Ended id rs v.0.runs
    → Ended id rs (if b then u else v).0.runs
Ended-if true id rs u v x y = x
Ended-if false id rs u v x y = y

module _ (env : Env) (tasks : Tasks) (g : Graph) where
  Ended-fail :
      (task : BaseTask) (id error : String) (w : World)
      → Ended id w.runs (fail_event env tasks g task id error w).runs
  unfolding fail_run
  Ended-fail task id error w =
      Ended-update id
        (λ r. record r {
          status = failed;
          finished_at = some (env.time w.ticks);
          error = some error;
        })
        w.runs (λ r. refl) (λ r. refl)

  Ended-finish :
      (task : BaseTask) (id : String) (payload : Option String) (result : TaskResult)
      (s : World × Option String)
      → Ended id s.0.runs (finish_run env tasks g task id payload result s).0.runs
  unfolding complete_run
  Ended-finish task id payload result (w, some error) =
      Ended-fail task id (write_failed env tasks g error) w
  Ended-finish task id payload result (w, none) =
      let runs = complete_run (env.time w.ticks) id w.runs in
      let completed = record w { runs = runs; ticks = suc w.ticks } in
      let told = emit (run_completed task.name id (length result.rows)) completed in
      let first =
        Ended-update id (λ r. record r { status = done; finished_at = some (env.time w.ticks) })
          w.runs (λ r. refl) (λ r. refl) in
      let others = Calm-chain_tables env tasks g task id payload task.writes told in
      record {
        quiet = Calm-trans w.runs runs _ first.quiet others;
        over = others.calm id first.over;
      }

  Ended-outcome :
      (task : BaseTask) (id : String) (payload : Option String) (outcome : EventOutcome) (w : World)
      → Ended id w.runs (event_outcome env tasks g task id payload outcome w).0.runs
  Ended-outcome task id payload (broke error) w = Ended-fail task id error w
  Ended-outcome task id payload (returned result) w =
      let stored = store env tasks g task result w in
      Ended-if result.success id w.runs _ _
        (subst (λ rs. Ended id rs (finish_run env tasks g task id payload result stored).0.runs)
          (runs-store env tasks g task result w) (Ended-finish task id payload result stored))
        (Ended-fail task id result.error w)

-- When `_execute_event_run` is over, its run is not left PROCESSING, whether the task was paused
-- meanwhile, its code broke, a write failed, or the runs of the tasks downstream could not be
-- created; and no other run was started.
pub execute_event_run-settles :
    (env : Env) (tasks : Tasks) (g : Graph) (paused : List String) (task : BaseTask) (id : String)
    (payload : Option String) (outcome : EventOutcome) (w : World)
    → (run_busy id (execute_event_run env tasks g paused task id payload outcome w).0.runs ≡ false)
      × Calm w.runs (execute_event_run env tasks g paused task id payload outcome w).0.runs
unfolding execute_event_run unclaim_run
execute_event_run-settles env tasks g paused task id payload outcome w =
    let told = emit (run_started task.name id) w in
    let e =
      Ended-if (is_in task.name paused) id w.runs (record w { runs = unclaim_run id w.runs }, false)
        _
        (Ended-update id (λ r. record r { status = pending; started_at = none }) w.runs (λ r. refl)
          (λ r. refl))
        (Ended-outcome env tasks g task id payload outcome told) in
    (e.over, e.quiet)
