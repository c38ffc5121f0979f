-- ===== src/Pipeline/Queue/Keys.antt =====
-- The primary key of `task_queue` and the rows being worked on, under every method of
-- pipeline/database.py that changes the queue.
use second_brain_art.Common.{
  ℕ, ◌+◌, ◌≡◌, ◌≤◌, refl, Bool, false, not, ◌&&◌, List, [], ◌∷◌, ◌++◌, String, str_eq, eq_iff,
  if◌then◌else◌, arith, Bool-cases, inl, inr, ◌-◌, map,
}
use second_brain_art.Pipeline.Rows.{
  is_pending, is_failed, is_processing, TaskRow, update_where, delete_where, count_where,
}
use second_brain_art.Pipeline.Queue.{
  completed, failed_with, unclaimed, retried, requeued, same_key, has_row, new_row, enqueue_task,
  re_enqueue_task, claim_tasks, complete_task, fail_task, reset_stuck_tasks_for, reset_failed_tasks,
  reset_task, cleared, stuck, of_task, given, invalidate_path, invalidate_paths,
  invalidate_tasks_for_paths, invalidate_tasks_bulk, unclaim_path, unclaim_tasks, remove_rows,
  picked, started, path_of, first_waiting,
}
use second_brain_art.Pipeline.Queue.Steps.{
  Settles-completed, Settles-failed_with, Settles-requeued, Settles-retried, Settles-unclaimed,
  Settles-cleared, Quiet, enqueues, re_enqueues, completes, fails, frees, retries, resets,
  invalidates, invalidates_all, unclaims, removes, Step, quiet, claims, Run, stop, next, Quiets,
  halt, after, rows_at, KeysOnce, busy, Tame, Tame-refl, Tame-trans, Tame-update,
}

count-append :
    (path task_name : String) (xs ys : List TaskRow)
    → rows_at path task_name (xs ++ ys) ≡ rows_at path task_name xs + rows_at path task_name ys
unfolding count_where
count-append path task_name [] ys = ground arith
count-append path task_name (r ∷ rs) ys = ground (arith, count-append path task_name rs ys)

busy-append :
    (path task_name : String) (xs : List TaskRow) (r : TaskRow)
    → is_processing r.status ≡ false
    → busy path task_name xs ≡ false
    → busy path task_name (xs ++ (r ∷ [])) ≡ false
unfolding busy
busy-append path task_name [] r k h = ground arith
busy-append path task_name (x ∷ xs) r k h = ground (arith, busy-append path task_name xs r k)

no_row-count :
    (path task_name : String) (q : List TaskRow)
    → has_row path task_name q ≡ false
    → rows_at path task_name q ≡ 0
unfolding has_row count_where
no_row-count path task_name [] h = refl
no_row-count path task_name (r ∷ rs) h = ground (arith, no_row-count path task_name rs)

Tame-append :
    (path task_name : String) (q : List TaskRow) (r : TaskRow)
    → r.path ≡ path
    → r.task_name ≡ task_name
    → is_processing r.status ≡ false
    → has_row path task_name q ≡ false
    → Tame q (q ++ (r ∷ []))
unfolding count_where
Tame-append path task_name q r p t i h = record {
  keys = λ p' t' k. ground (
    arith,
    count-append p' t' q (r ∷ []),
    no_row-count path task_name q h,
    eq_iff r.path p',
    eq_iff r.task_name t',
    p,
    t,
  );
  calm = λ p' t' k. busy-append p' t' q r i k;
}

Tame-enqueue :
    (roots : List String) (now : ℕ) (path task_name : String) (q : List TaskRow)
    → Tame q (enqueue_task roots now path task_name q)
unfolding enqueue_task
Tame-enqueue roots now path task_name q = elim (Bool-cases (has_row path task_name q)) [
  | inl h ↦ rw h (Tame-refl q)
  | inr h ↦ rw h (Tame-append path task_name q (new_row roots now path task_name) refl refl refl h)
]

Tame-re_enqueue :
    (roots : List String) (now : ℕ) (path task_name : String) (q : List TaskRow)
    → Tame q (re_enqueue_task roots now path task_name q)
unfolding re_enqueue_task
Tame-re_enqueue roots now path task_name q = elim (Bool-cases (has_row path task_name q)) [
  | inl h ↦
      rw h (
        Tame-update (same_key path task_name) (requeued roots path) q (Settles-requeued roots path))
  | inr h ↦ rw h (Tame-append path task_name q (new_row roots now path task_name) refl refl refl h)
]

Tame-invalidate :
    (task_name : String) (paths : List String) (q : List TaskRow)
    → Tame q (invalidate_paths task_name paths q)
unfolding invalidate_path
Tame-invalidate task_name [] q = Tame-refl q
Tame-invalidate task_name (path ∷ paths) q =
    Tame-trans
      (Tame-update (λ r. same_key path task_name r && not (is_pending r.status)) cleared q
        Settles-cleared)
      (Tame-invalidate task_name paths (invalidate_path task_name path q))

Tame-invalidates :
    (task_names paths : List String) (q : List TaskRow)
    → Tame q (invalidate_tasks_for_paths task_names paths q)
unfolding invalidate_tasks_for_paths
Tame-invalidates [] paths q = Tame-refl q
Tame-invalidates (name ∷ names) paths q =
    Tame-trans (Tame-invalidate name paths q)
      (Tame-invalidates names paths (invalidate_paths name paths q))

Tame-invalidates_all :
    (task_names : List String) (q : List TaskRow) → Tame q (invalidate_tasks_bulk task_names q)
unfolding invalidate_tasks_bulk
Tame-invalidates_all [] q = Tame-refl q
Tame-invalidates_all (name ∷ names) q =
    let p = λ (r : TaskRow). str_eq r.task_name name && not (is_pending r.status) in
    Tame-trans (Tame-update p cleared q Settles-cleared)
      (Tame-invalidates_all names (update_where p cleared q))

Tame-unclaims :
    (task_name : String) (paths : List String) (q : List TaskRow)
    → Tame q (unclaim_tasks task_name paths q)
unfolding unclaim_tasks
Tame-unclaims task_name [] q = Tame-refl q
Tame-unclaims task_name (path ∷ paths) q =
    Tame-trans (Tame-update (same_key path task_name) unclaimed q Settles-unclaimed)
      (Tame-unclaims task_name paths (unclaim_path task_name path q))

count-remove :
    (gone path task_name : String) (q : List TaskRow)
    → rows_at path task_name (remove_rows gone q) ≤ rows_at path task_name q
unfolding remove_rows delete_where count_where
count-remove gone path task_name [] = omega arith
count-remove gone path task_name (r ∷ rs) = ground (arith, count-remove gone path task_name rs)

busy-remove :
    (gone path task_name : String) (q : List TaskRow)
    → busy path task_name (remove_rows gone q)
      ≡ (if str_eq gone path then false else busy path task_name q)
unfolding remove_rows delete_where busy
busy-remove gone path task_name [] = ground arith
busy-remove gone path task_name (r ∷ rs) = ground (
  arith,
  busy-remove gone path task_name rs,
  eq_iff r.path gone,
  eq_iff r.path path,
  eq_iff gone path,
)

Tame-removes : (path : String) (q : List TaskRow) → Tame q (remove_rows path q)
Tame-removes gone q = record {
  keys = λ p t h. omega (arith, count-remove gone p t q);
  calm = λ p t h. ground (arith, busy-remove gone p t q);
}

-- Every quiet step keeps the keys and starts nothing.
Quiet-Tame : {q r : List TaskRow} → Quiet q r → Tame q r
unfolding complete_task fail_task reset_stuck_tasks_for reset_failed_tasks reset_task
Quiet-Tame (enqueues {q} roots now path task_name) = Tame-enqueue roots now path task_name q
Quiet-Tame (re_enqueues {q} roots now path task_name) = Tame-re_enqueue roots now path task_name q
Quiet-Tame (completes {q} now path task_name) =
    Tame-update (same_key path task_name) (completed now) q (Settles-completed now)
Quiet-Tame (fails {q} now path task_name error) =
    Tame-update (same_key path task_name) (failed_with now error) q (Settles-failed_with now error)
Quiet-Tame (frees {q} now task_name timeout) =
    Tame-update (stuck task_name (now - timeout)) unclaimed q Settles-unclaimed
Quiet-Tame (retries {q} task_name) =
    Tame-update (λ r. is_failed r.status && of_task (given task_name) r) retried q Settles-retried
Quiet-Tame (resets {q} task_name) =
    Tame-update (λ r. str_eq r.task_name task_name) cleared q Settles-cleared
Quiet-Tame (invalidates {q} names paths) = Tame-invalidates names paths q
Quiet-Tame (invalidates_all {q} names) = Tame-invalidates_all names q
Quiet-Tame (unclaims {q} task_name paths) = Tame-unclaims task_name paths q
Quiet-Tame (removes {q} path) = Tame-removes path q

pub Quiets-Tame : {q r : List TaskRow} → Quiets q r → Tame q r
Quiets-Tame (halt {q}) = Tame-refl q
Quiets-Tame (after x a) = Tame-trans (Quiet-Tame x) (Quiets-Tame a)

count-claim :
    (p : TaskRow → Bool) (now : ℕ) (path task_name : String) (q : List TaskRow)
    → rows_at path task_name (update_where p (started now) q) ≡ rows_at path task_name q
unfolding update_where count_where
count-claim p now path task_name [] = refl
count-claim p now path task_name (r ∷ rs) = ground (arith, count-claim p now path task_name rs)

Step-KeysOnce : {q r : List TaskRow} → Step q r → KeysOnce q → KeysOnce r
unfolding claim_tasks
Step-KeysOnce (quiet x) h = record {
  at_most_one = λ p t. (Quiet-Tame x).keys p t (h.at_most_one p t);
}
Step-KeysOnce (claims {q} now task_name n) h =
    let paths = map path_of (first_waiting task_name n q) in
    record {
      at_most_one =
          λ p t. omega (arith, count-claim (picked task_name paths) now p t q, h.at_most_one p t);
    }

-- Whatever methods of the database run, in whatever order and number, no two rows of the queue have
-- the same path and task, if this is so before.
pub Run-KeysOnce : {q r : List TaskRow} → Run q r → KeysOnce q → KeysOnce r
Run-KeysOnce stop h = h
Run-KeysOnce (next x run) h = Run-KeysOnce run (Step-KeysOnce x h)

-- Only `claim_tasks` starts work: after any number of the other methods a row is PROCESSING only
-- when it was PROCESSING before.
pub Quiets-busy :
    (q r : List TaskRow) (path task_name : String)
    → Quiets q r
    → busy path task_name q ≡ false
    → busy path task_name r ≡ false
Quiets-busy q r path task_name run h = (Quiets-Tame run).calm path task_name h
