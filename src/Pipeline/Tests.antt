-- ===== src/Pipeline/Tests.antt =====
-- Runs of the model of the queue and the graph of pipeline/ on small inputs.
use mathlib.Core.List.Memᴰ
use second_brain_art.Common.{
  ◌+◌, ◌≡◌, ◌↔◌, min, refl, true, ◌||◌, some, List, [], ◌∷◌, String, length, if◌then◌else◌, arith,
}
use second_brain_art.Python.Dict.{lookup}
use second_brain_art.Python.Sets.{is_in}
use second_brain_art.Pipeline.Rows.{update_where, select_where, count_where}
use second_brain_art.Pipeline.Queue.{
  enqueue_task, has_row, claim_tasks, first_waiting, order_rows, insert_row, before, waiting,
  priority_for,
}
use second_brain_art.Common.{◌<◌, ◌≤◌, ◌⊎◌}
use second_brain_art.Pipeline.Queue.Steps.{KeysOnce, Run, stop, next, quiet, enqueues}
use second_brain_art.Pipeline.Queue.Keys.{Run-KeysOnce}
use second_brain_art.Pipeline.Queue.Claimed.{claim_tasks-count, claim_tasks-before}
use second_brain_art.Pipeline.Queue.Fifo.{Flat, Run-Flat}
use second_brain_art.Pipeline.Tasks.{
  tasks_snapshot, build_graph, get_all_downstream, deps_met, upstream_of, is_empty,
}
use second_brain_art.Pipeline.Tasks.Deps.{deps_met-eq, all_done, one_done}
use second_brain_art.Pipeline.Tasks.Graphs.{build_graph-upstream, produces_one}
use second_brain_art.Pipeline.Tasks.Offers.{named}
use second_brain_art.Pipeline.Tasks.Downstream.{Downstream, get_all_downstream_lem}
use second_brain_art.Pipeline.Fixtures.{
  parse, embed, digest, registry, queue, waiting_row, two_rows, graph,
}

queue-Run : Run [] queue
queue-Run =
    next (quiet (enqueues [] 3 "a" "parse"))
      (next (quiet (enqueues [] 2 "b" "parse")) (next (quiet (enqueues [] 1 "c" "parse")) stop))

Run-KeysOnce_example : KeysOnce queue
unfolding count_where
Run-KeysOnce_example = Run-KeysOnce queue-Run (record { at_most_one = λ p t. omega arith })

Run-Flat_example : Flat queue
Run-Flat_example = Run-Flat queue-Run tt

claims_oldest : (claim_tasks 7 "parse" 2 queue).0 ≡ "b" ∷ "c" ∷ []
unfolding claim_tasks enqueue_task has_row first_waiting order_rows insert_row before select_where
    update_where is_in priority_for
claims_oldest = refl

once : KeysOnce queue
unfolding count_where
once = Run-KeysOnce queue-Run (record { at_most_one = λ p t. omega arith })

claim_tasks-count_example :
    (length (claim_tasks 7 "parse" 2 queue).0 ≡ min 2 (count_where (waiting "parse") queue))
    × (count_where (waiting "parse") (claim_tasks 7 "parse" 2 queue).1
          + length (claim_tasks 7 "parse" 2 queue).0
        ≡ count_where (waiting "parse") queue)
claim_tasks-count_example = claim_tasks-count 7 "parse" 2 queue once

claim_tasks-before_example :
    ((waiting_row "a" 3).priority < (waiting_row "c" 1).priority)
    ⊎ (((waiting_row "c" 1).priority ≡ (waiting_row "a" 3).priority)
        × ((waiting_row "c" 1).created_at ≤ (waiting_row "a" 3).created_at))
unfolding first_waiting order_rows insert_row before select_where is_in
claim_tasks-before_example =
    claim_tasks-before "parse" 1 two_rows (waiting_row "c" 1) (waiting_row "a" 3) (Memᴰ.head refl)
      (Memᴰ.head refl) refl refl

build_graph-upstream_example :
    is_in "parse" (upstream_of (build_graph registry) embed)
    ≡ produces_one registry "path" ("chunks" ∷ []) "parse"
unfolding tasks_snapshot named
build_graph-upstream_example =
    build_graph-upstream registry (parse ∷ []) (digest ∷ []) embed "parse" refl refl refl

deps_met-eq_example : deps_met graph "a" embed queue ≡ (
    is_empty (upstream_of graph embed)
    || (if true
        then all_done "a" queue (upstream_of graph embed)
        else one_done "a" queue (upstream_of graph embed)))
deps_met-eq_example = deps_met-eq graph "a" embed queue

get_all_downstream_lem_example :
    (t : List String) × (get_all_downstream registry "parse" ≡ some t)
    × ((x : String) → (is_in x t ≡ true) ↔ Downstream registry "parse" x)
unfolding lookup
get_all_downstream_lem_example = get_all_downstream_lem registry "parse" refl
