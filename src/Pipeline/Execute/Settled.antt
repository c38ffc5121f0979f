-- ===== src/Pipeline/Execute/Settled.antt =====
-- What the parts of `_execute` of pipeline/orchestrator.py leave of the row of one path.
use second_brain_art.Common.{
  ℕ, ◌≡◌, Bool, true, false, not, ◌&&◌, List, [], ◌∷◌, ◌++◌, String, inl, inr, if◌then◌else◌,
  Bool-cases, length, arith,
}
use second_brain_art.Python.Dict.{lookup}
use second_brain_art.Pipeline.Rows.{TaskRow}
use second_brain_art.Pipeline.Queue.{
  completed, failed_with, requeued, has_row, new_row, re_enqueue_task, complete_task, fail_task,
}
use second_brain_art.Pipeline.Tasks.{BaseTask, Tasks, Graph, deps_met, is_empty}
use second_brain_art.Pipeline.World.{Env, World, re_enqueue, complete, fail, emit, task_completed}
use second_brain_art.Pipeline.Queue.Steps.{
  Settles-completed, Settles-failed_with, Settles-requeued, busy, busy-keyed,
}
use second_brain_art.Pipeline.Queue.Keys.{Quiets-busy}
use second_brain_art.Pipeline.Handlers.{on_task_completed, on_also_contains, on_paths_discovered}
use second_brain_art.Pipeline.Execute.{TaskResult, settle, fail_path}
use second_brain_art.Pipeline.Handlers.Touches.{
  Touch, Touch-trans, Touch-re_enqueue, Touch-complete, Touch-fail, Touch-task_completed,
  Touch-also_contains, Touch-paths_discovered,
}

-- `v` follows `w` by quiet steps, and the key is not being worked on in `v`.
pub record Frees (path name : String) (w v : World) : Type 0 where
  pub touch : Touch w v
  pub free : busy path name v.queue ≡ false

-- What is free stays free.
pub Touch-busy :
    (path name : String) (w v : World)
    → Touch w v
    → busy path name w.queue ≡ false
    → busy path name v.queue ≡ false
Touch-busy path name w v t h = Quiets-busy w.queue v.queue path name t.steps h

pub Frees-then :
    (path name : String) (u v w : World) → Frees path name u v → Touch v w → Frees path name u w
Frees-then path name u v w f t = record {
  touch = Touch-trans u v w f.touch t;
  free = Touch-busy path name v w t f.free;
}

pub after-Frees :
    (path name : String) (u v w : World) → Touch u v → Frees path name v w → Frees path name u w
after-Frees path name u v w t f = record { touch = Touch-trans u v w t f.touch; free = f.free }

pub Frees-if :
    (b : Bool) (path name : String) (w u v : World)
    → Frees path name w u
    → Frees path name w v
    → Frees path name w (if b then u else v)
Frees-if true path name w u v x y = x
Frees-if false path name w u v x y = y

absent-busy :
    (roots : List String) (now : ℕ) (path name : String) (q : List TaskRow)
    → has_row path name q ≡ false
    → busy path name (q ++ (new_row roots now path name ∷ [])) ≡ false
unfolding has_row busy
absent-busy roots now path name [] h = ground arith
absent-busy roots now path name (r ∷ rs) h = ground (arith, absent-busy roots now path name rs)

re_enqueue-busy :
    (roots : List String) (now : ℕ) (path name : String) (q : List TaskRow)
    → busy path name (re_enqueue_task roots now path name q) ≡ false
unfolding re_enqueue_task
re_enqueue-busy roots now path name q = elim (Bool-cases (has_row path name q)) [
  | inl b ↦ rw b (busy-keyed path name (requeued roots path) q (Settles-requeued roots path))
  | inr b ↦ rw b (absent-busy roots now path name q b)
]

module _ (env : Env) where
  Frees-re_enqueue :
      (path name : String) (w : World) → Frees path name w (re_enqueue env path name w)
  Frees-re_enqueue path name w = record {
    touch = Touch-re_enqueue env path name w;
    free = re_enqueue-busy env.roots (env.time w.ticks) path name w.queue;
  }

  Frees-complete : (path name : String) (w : World) → Frees path name w (complete env path name w)
  unfolding complete_task
  Frees-complete path name w = record {
    touch = Touch-complete env path name w;
    free =
        busy-keyed path name (completed (env.time w.ticks)) w.queue
          (Settles-completed (env.time w.ticks));
  }

  Frees-fail :
      (path name error : String) (w : World) → Frees path name w (fail env path name error w)
  unfolding fail_task
  Frees-fail path name error w = record {
    touch = Touch-fail env path name error w;
    free =
        busy-keyed path name (failed_with (env.time w.ticks) error) w.queue
          (Settles-failed_with (env.time w.ticks) error);
  }

module _ (env : Env) (tasks : Tasks) (g : Graph) where
  pub Frees-fail_path :
      (task : BaseTask) (path error : String) (w : World)
      → Frees path task.name w (fail_path env tasks g task path error w)
  Frees-fail_path task path error w =
      let f = Frees-fail env path task.name error w in
      record { touch = record { steps = f.touch.steps }; free = f.free }

  pub Frees-settle :
      (task : BaseTask) (path : String) (result : TaskResult) (w : World)
      → Frees path task.name w (settle env tasks g task path result w)
  Frees-settle task path result w =
      let finished = complete env path task.name w in
      let triggered = on_task_completed env tasks g path (lookup task.name tasks) finished in
      let told = emit (task_completed task.name path (length result.rows)) triggered in
      let contained = on_also_contains env tasks g path result.also_contains told in
      let last = on_paths_discovered env tasks g result.discovered_paths contained in
      Frees-if (not (is_empty task.reads) && not (deps_met g path task w.queue)) path task.name w _
        _ (Frees-re_enqueue env path task.name w)
        (Frees-then path task.name w finished last (Frees-complete env path task.name w) (
          Touch-trans finished triggered last
            (Touch-task_completed env tasks g path (lookup task.name tasks) finished)
            (Touch-trans triggered contained last
              (record {
                steps = (Touch-also_contains env tasks g path result.also_contains told).steps;
              })
              (Touch-paths_discovered env tasks g result.discovered_paths contained))))
