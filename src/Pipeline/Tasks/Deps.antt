-- ===== src/Pipeline/Tasks/Deps.antt =====
-- `_deps_met` of pipeline/orchestrator.py, which counts the upstream tasks that are done, against
-- what it decides.
use second_brain_art.Common.{
  ◌≡◌, ◌≤◌, refl, Bool, true, false, ◌&&◌, ◌||◌, List, [], ◌∷◌, String, length, ltb, ◌==◌,
  if◌then◌else◌, arith,
}
use second_brain_art.Pipeline.Rows.{TaskRow}
use second_brain_art.Pipeline.Queue.{is_task_done}
use second_brain_art.Pipeline.Tasks.{BaseTask, Graph, upstream_of, done_of, deps_met, is_empty}

-- Every one, some one of the tasks is done for the path.
unfoldable pub all_done : String → List TaskRow → List String → Bool
all_done path q [] = true
all_done path q (dep ∷ deps) = is_task_done path dep q && all_done path q deps

unfoldable pub one_done : String → List TaskRow → List String → Bool
one_done path q [] = false
one_done path q (dep ∷ deps) = is_task_done path dep q || one_done path q deps

done_of-le :
    (path : String) (q : List TaskRow) (deps : List String)
    → length (done_of path q deps) ≤ length deps
unfolding done_of
done_of-le path q [] = omega arith
done_of-le path q (dep ∷ deps) = ground (arith, done_of-le path q deps)

done_of-all :
    (path : String) (q : List TaskRow) (deps : List String)
    → (length (done_of path q deps) == length deps) ≡ all_done path q deps
unfolding done_of all_done
done_of-all path q [] = refl
done_of-all path q (dep ∷ deps) = ground (arith, done_of-all path q deps, done_of-le path q deps)

done_of-one :
    (path : String) (q : List TaskRow) (deps : List String)
    → ltb 0 (length (done_of path q deps)) ≡ one_done path q deps
unfolding done_of one_done
done_of-one path q [] = refl
done_of-one path q (dep ∷ deps) = ground (arith, done_of-one path q deps)

-- The dependencies of a task are met for a path when it has no upstream task, or, as the task
-- demands, when every one or some one of them is done for that path.
pub deps_met-eq :
    (g : Graph) (path : String) (task : BaseTask) (q : List TaskRow)
    → deps_met g path task q ≡ (
        is_empty (upstream_of g task)
        || (if task.require_all_inputs
            then all_done path q (upstream_of g task)
            else one_done path q (upstream_of g task)))
unfolding deps_met
deps_met-eq g path task q =
    ground (arith, done_of-all path q (upstream_of g task), done_of-one path q (upstream_of g task))
