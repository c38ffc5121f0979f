-- ===== src/Pipeline/Queue/Steps.antt =====
-- What the methods of Database in pipeline/database.py do to the queue, as a step relation: `Quiet`
-- has a constructor for every method that changes `task_queue` except `claim_tasks`, and `Step`
-- adds that one. `KeysOnce` is the primary key of the table.
use second_brain_art.Common.{
  ℕ, ◌≡◌, ◌≤◌, refl, Bool, false, Option, List, [], ◌∷◌, String, eq_iff, if◌then◌else◌, arith,
}
use second_brain_art.Pipeline.Rows.{is_processing, TaskRow, update_where, count_where}
use second_brain_art.Pipeline.Queue.{
  cleared, requeued, completed, failed_with, unclaimed, retried, same_key, enqueue_task,
  re_enqueue_task, claim_tasks, complete_task, fail_task, reset_stuck_tasks_for, reset_failed_tasks,
  reset_task, invalidate_tasks_for_paths, invalidate_tasks_bulk, unclaim_tasks, remove_rows,
}

pub data Quiet : List TaskRow → List TaskRow → Type 0 where
  enqueues :
      {q : List TaskRow} (roots : List String) (now : ℕ) (path task_name : String)
      → Quiet q (enqueue_task roots now path task_name q)
  re_enqueues :
      {q : List TaskRow} (roots : List String) (now : ℕ) (path task_name : String)
      → Quiet q (re_enqueue_task roots now path task_name q)
  completes :
      {q : List TaskRow} (now : ℕ) (path task_name : String)
      → Quiet q (complete_task now path task_name q)
  fails :
      {q : List TaskRow} (now : ℕ) (path task_name error : String)
      → Quiet q (fail_task now path task_name error q)
  frees :
      {q : List TaskRow} (now : ℕ) (task_name : String) (timeout : ℕ)
      → Quiet q (reset_stuck_tasks_for now task_name timeout q).1
  retries :
      {q : List TaskRow} (task_name : Option String) → Quiet q (reset_failed_tasks task_name q)
  resets : {q : List TaskRow} (task_name : String) → Quiet q (reset_task task_name q)
  invalidates :
      {q : List TaskRow} (task_names paths : List String)
      → Quiet q (invalidate_tasks_for_paths task_names paths q)
  invalidates_all :
      {q : List TaskRow} (task_names : List String) → Quiet q (invalidate_tasks_bulk task_names q)
  unclaims :
      {q : List TaskRow} (task_name : String) (paths : List String)
      → Quiet q (unclaim_tasks task_name paths q)
  removes : {q : List TaskRow} (path : String) → Quiet q (remove_rows path q)

pub data Step : List TaskRow → List TaskRow → Type 0 where
  quiet : {q r : List TaskRow} → Quiet q r → Step q r
  claims :
      {q : List TaskRow} (now : ℕ) (task_name : String) (batch_size : ℕ)
      → Step q (claim_tasks now task_name batch_size q).1

-- Any number of steps.
pub data Run : List TaskRow → List TaskRow → Type 0 where
  stop : {q : List TaskRow} → Run q q
  next : {q r s : List TaskRow} → Step q r → Run r s → Run q s

-- Any number of quiet steps.
pub data Quiets : List TaskRow → List TaskRow → Type 0 where
  halt : {q : List TaskRow} → Quiets q q
  after : {q r s : List TaskRow} → Quiet q r → Quiets r s → Quiets q s

pub Quiets-trans : {q r s : List TaskRow} → Quiets q r → Quiets r s → Quiets q s
Quiets-trans halt b = b
Quiets-trans (after x a) b = after x (Quiets-trans a b)

pub once : {q r : List TaskRow} → Quiet q r → Quiets q r
once x = after x halt

-- How many rows have the key (path, task_name).
abbrev pub rows_at : String → String → List TaskRow → ℕ
rows_at path task_name q = count_where (same_key path task_name) q

-- No two rows have the same key.
pub record KeysOnce (q : List TaskRow) : Type 0 where
  pub at_most_one : (path task_name : String) → rows_at path task_name q ≤ 1

-- The row of the key is being worked on.
unfoldable pub busy : String → String → List TaskRow → Bool
busy path task_name [] = false
busy path task_name (r ∷ rs) =
    let rest = busy path task_name rs in
    if same_key path task_name r then is_processing r.status else rest

-- An assignment of an UPDATE that leaves the key alone and does not start the row.
pub record Settles (f : TaskRow → TaskRow) : Type 0 where
  pub keeps_path : (r : TaskRow) → (f r).path ≡ r.path
  pub keeps_task : (r : TaskRow) → (f r).task_name ≡ r.task_name
  pub idle : (r : TaskRow) → is_processing (f r).status ≡ false

pub Settles-cleared : Settles cleared
Settles-cleared = record { keeps_path = λ r. refl; keeps_task = λ r. refl; idle = λ r. refl }

pub Settles-requeued : (roots : List String) (path : String) → Settles (requeued roots path)
Settles-requeued roots path = record {
  keeps_path = λ r. refl;
  keeps_task = λ r. refl;
  idle = λ r. refl;
}

pub Settles-completed : (now : ℕ) → Settles (completed now)
Settles-completed now = record { keeps_path = λ r. refl; keeps_task = λ r. refl; idle = λ r. refl }

pub Settles-failed_with : (now : ℕ) (error : String) → Settles (failed_with now error)
Settles-failed_with now error = record {
  keeps_path = λ r. refl;
  keeps_task = λ r. refl;
  idle = λ r. refl;
}

pub Settles-unclaimed : Settles unclaimed
Settles-unclaimed = record { keeps_path = λ r. refl; keeps_task = λ r. refl; idle = λ r. refl }

pub Settles-retried : Settles retried
Settles-retried = record { keeps_path = λ r. refl; keeps_task = λ r. refl; idle = λ r. refl }

-- What every quiet step does, for one key: it adds a row only where there is none, and it starts
-- no row.
pub record Tame (q r : List TaskRow) : Type 0 where
  pub keys : (path task_name : String) → rows_at path task_name q ≤ 1 → rows_at path task_name r ≤ 1
  pub calm :
      (path task_name : String) → busy path task_name q ≡ false → busy path task_name r ≡ false

pub Tame-refl : (q : List TaskRow) → Tame q q
Tame-refl q = record { keys = λ p t h. h; calm = λ p t h. h }

pub Tame-trans : {q r s : List TaskRow} → Tame q r → Tame r s → Tame q s
Tame-trans a b = record {
  keys = λ p t h. b.keys p t (a.keys p t h);
  calm = λ p t h. b.calm p t (a.calm p t h);
}

count-update :
    (p : TaskRow → Bool) (f : TaskRow → TaskRow) (path task_name : String) (q : List TaskRow)
    → Settles f
    → rows_at path task_name (update_where p f q) ≡ rows_at path task_name q
unfolding update_where count_where
count-update p f path task_name [] s = refl
count-update p f path task_name (r ∷ rs) s = ground (
  arith,
  count-update p f path task_name rs s,
  s.keeps_path r,
  s.keeps_task r,
  eq_iff r.path path,
  eq_iff r.task_name task_name,
  eq_iff (f r).path path,
  eq_iff (f r).task_name task_name,
)

busy-update :
    (p : TaskRow → Bool) (f : TaskRow → TaskRow) (path task_name : String) (q : List TaskRow)
    → Settles f
    → busy path task_name q ≡ false
    → busy path task_name (update_where p f q) ≡ false
unfolding update_where busy
busy-update p f path task_name [] s h = refl
busy-update p f path task_name (r ∷ rs) s h = ground (
  arith,
  busy-update p f path task_name rs s,
  s.keeps_path r,
  s.keeps_task r,
  s.idle r,
  eq_iff r.path path,
  eq_iff r.task_name task_name,
  eq_iff (f r).path path,
  eq_iff (f r).task_name task_name,
)

pub busy-keyed :
    (path task_name : String) (f : TaskRow → TaskRow) (q : List TaskRow)
    → Settles f
    → busy path task_name (update_where (same_key path task_name) f q) ≡ false
unfolding update_where busy
busy-keyed path task_name f [] s = refl
busy-keyed path task_name f (r ∷ rs) s = ground (
  arith,
  busy-keyed path task_name f rs s,
  s.keeps_path r,
  s.keeps_task r,
  s.idle r,
  eq_iff r.path path,
  eq_iff r.task_name task_name,
  eq_iff (f r).path path,
  eq_iff (f r).task_name task_name,
)

pub Tame-update :
    (p : TaskRow → Bool) (f : TaskRow → TaskRow) (q : List TaskRow)
    → Settles f
    → Tame q (update_where p f q)
Tame-update p f q s = record {
  keys = λ path t h. omega (arith, count-update p f path t q s);
  calm = λ path t h. busy-update p f path t q s h;
}
