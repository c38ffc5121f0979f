-- ===== src/Pipeline/Queue/Fifo.antt =====
-- The priority of the rows in the queue of pipeline/database.py, under its methods.
use second_brain_art.Common.{
  ℕ, ◌-◌, ◌≡◌, Bool, not, ◌&&◌, List, [], ◌∷◌, ◌++◌, map, inl, inr, String, str_eq, arith,
  Bool-cases, All, All-append,
}
use second_brain_art.Pipeline.Rows.{is_pending, is_failed, TaskRow, update_where, delete_where}
use second_brain_art.Pipeline.Queue.{
  completed, failed_with, unclaimed, retried, requeued, same_key, has_row, new_row, priority_for,
  enqueue_task, re_enqueue_task, claim_tasks, complete_task, fail_task, reset_stuck_tasks_for,
  reset_failed_tasks, reset_task, cleared, stuck, of_task, given, invalidate_path, invalidate_paths,
  invalidate_tasks_for_paths, invalidate_tasks_bulk, unclaim_path, unclaim_tasks, remove_rows,
  picked, started, first_waiting, path_of,
}
use second_brain_art.Pipeline.Queue.Steps.{
  Quiet, enqueues, re_enqueues, completes, fails, frees, retries, resets, invalidates,
  invalidates_all, unclaims, removes, Step, quiet, claims, Run, stop, next,
}

-- No row has a priority.
abbrev pub Flat : List TaskRow → Type 0
Flat q = All (λ r. r.priority ≡ 0) q

priority_for-zero : (roots : List String) (path : String) → priority_for roots path ≡ 0
unfolding priority_for
priority_for-zero roots path = ground arith

Flat-update :
    (p : TaskRow → Bool) (f : TaskRow → TaskRow) (q : List TaskRow)
    → ((r : TaskRow) → r.priority ≡ 0 → (f r).priority ≡ 0)
    → Flat q
    → Flat (update_where p f q)
unfolding update_where
Flat-update p f [] k h = tt
Flat-update p f (r ∷ rs) k h = elim (Bool-cases (p r)) [
  | inl b ↦ rw b (k r h.0, Flat-update p f rs k h.1)
  | inr b ↦ rw b (h.0, Flat-update p f rs k h.1)
]

Flat-delete : (p : TaskRow → Bool) (q : List TaskRow) → Flat q → Flat (delete_where p q)
unfolding delete_where
Flat-delete p [] h = tt
Flat-delete p (r ∷ rs) h = elim (Bool-cases (p r)) [
  | inl b ↦ rw b (Flat-delete p rs h.1)
  | inr b ↦ rw b (h.0, Flat-delete p rs h.1)
]

Flat-new :
    (roots : List String) (now : ℕ) (path task_name : String) (q : List TaskRow)
    → Flat q
    → Flat (q ++ (new_row roots now path task_name ∷ []))
Flat-new roots now path task_name q h =
    All-append (λ r. r.priority ≡ 0) q (new_row roots now path task_name ∷ []) h
      (priority_for-zero roots path, tt)

Flat-invalidate :
    (name : String) (paths : List String) (q : List TaskRow)
    → Flat q
    → Flat (invalidate_paths name paths q)
unfolding invalidate_path
Flat-invalidate name [] q h = h
Flat-invalidate name (path ∷ paths) q h =
    Flat-invalidate name paths (invalidate_path name path q)
      (Flat-update (λ r. same_key path name r && not (is_pending r.status)) cleared q (λ r k. k) h)

Flat-invalidates :
    (names paths : List String) (q : List TaskRow)
    → Flat q
    → Flat (invalidate_tasks_for_paths names paths q)
unfolding invalidate_tasks_for_paths
Flat-invalidates [] paths q h = h
Flat-invalidates (name ∷ names) paths q h =
    Flat-invalidates names paths (invalidate_paths name paths q) (Flat-invalidate name paths q h)

Flat-invalidates_all :
    (names : List String) (q : List TaskRow) → Flat q → Flat (invalidate_tasks_bulk names q)
unfolding invalidate_tasks_bulk
Flat-invalidates_all [] q h = h
Flat-invalidates_all (name ∷ names) q h =
    let p = λ (r : TaskRow). str_eq r.task_name name && not (is_pending r.status) in
    Flat-invalidates_all names (update_where p cleared q) (Flat-update p cleared q (λ r k. k) h)

Flat-unclaims :
    (name : String) (paths : List String) (q : List TaskRow)
    → Flat q
    → Flat (unclaim_tasks name paths q)
unfolding unclaim_tasks
Flat-unclaims name [] q h = h
Flat-unclaims name (path ∷ paths) q h =
    Flat-unclaims name paths (unclaim_path name path q)
      (Flat-update (same_key path name) unclaimed q (λ r k. k) h)

Flat-Quiet : {q r : List TaskRow} → Quiet q r → Flat q → Flat r
unfolding enqueue_task re_enqueue_task complete_task fail_task reset_stuck_tasks_for
    reset_failed_tasks reset_task remove_rows
Flat-Quiet (enqueues {q} roots now path name) h = elim (Bool-cases (has_row path name q)) [
  | inl b ↦ rw b h
  | inr b ↦ rw b (Flat-new roots now path name q h)
]
Flat-Quiet (re_enqueues {q} roots now path name) h = elim (Bool-cases (has_row path name q)) [
  | inl b ↦ rw b (
      Flat-update (same_key path name) (requeued roots path) q (λ r k. priority_for-zero roots path)
        h)
  | inr b ↦ rw b (Flat-new roots now path name q h)
]
Flat-Quiet (completes {q} now path name) h =
    Flat-update (same_key path name) (completed now) q (λ r k. k) h
Flat-Quiet (fails {q} now path name error) h =
    Flat-update (same_key path name) (failed_with now error) q (λ r k. k) h
Flat-Quiet (frees {q} now name timeout) h =
    Flat-update (stuck name (now - timeout)) unclaimed q (λ r k. k) h
Flat-Quiet (retries {q} name) h =
    Flat-update (λ r. is_failed r.status && of_task (given name) r) retried q (λ r k. k) h
Flat-Quiet (resets {q} name) h = Flat-update (λ r. str_eq r.task_name name) cleared q (λ r k. k) h
Flat-Quiet (invalidates {q} names paths) h = Flat-invalidates names paths q h
Flat-Quiet (invalidates_all {q} names) h = Flat-invalidates_all names q h
Flat-Quiet (unclaims {q} name paths) h = Flat-unclaims name paths q h
Flat-Quiet (removes {q} path) h = Flat-delete (λ r. str_eq r.path path) q h

Flat-Step : {q r : List TaskRow} → Step q r → Flat q → Flat r
unfolding claim_tasks
Flat-Step (quiet x) h = Flat-Quiet x h
Flat-Step (claims {q} now name n) h =
    Flat-update (picked name (map path_of (first_waiting name n q))) (started now) q (λ r k. k) h

-- If every row of the queue has priority 0, every row has priority 0 after any run of the methods of
-- the database, whatever the priority roots are and whatever is queued under them.
pub Run-Flat : {q r : List TaskRow} → Run q r → Flat q → Flat r
Run-Flat stop h = h
Run-Flat (next x run) h = Run-Flat run (Flat-Step x h)
