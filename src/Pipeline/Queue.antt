-- ===== src/Pipeline/Queue.antt =====
-- The queue of path tasks: the methods of Database in pipeline/database.py on `task_queue`. The
-- queue is the list of the table's rows in rowid order; `now` is what `time.time()` returns and
-- `roots` is `_PRIORITY_ROOTS`. A subquery on rowid names rows by their key, which the primary key
-- makes the same.
pub mod Steps
pub mod Keys
pub mod Claim
pub mod Claimed
pub mod Fifo
use second_brain_art.Common.{
  ℕ, ◌-◌, Bool, true, false, not, ◌&&◌, ◌||◌, Option, none, some, List, [], ◌∷◌, ◌++◌, map, String,
  str_eq, ltb, leb, ◌==◌, take, if◌then◌else◌,
}
use second_brain_art.Python.Numerals.{codes}
use second_brain_art.Python.Sets.{is_in}
use second_brain_art.Pipeline.Rows.{
  Status, pending, processing, done, failed, is_pending, is_processing, is_done, is_failed, TaskRow,
  update_where, delete_where, select_where, count_where,
}

-- `_HIGH_PRIORITY` as `_priority_for` finds it when it is called: the assignment for the lock,
-- further down in the module, is the last one.
abbrev pub high_priority : ℕ
high_priority = 0

abbrev pub default_priority : ℕ
default_priority = 0

-- `.replace("\\", "/")`
abbrev forward : List ℕ → List ℕ
forward [] = []
forward (c ∷ cs) = (if c == 92 then 47 else c) ∷ forward cs

-- `.rstrip("/")`
abbrev strip_slashes : List ℕ → List ℕ
strip_slashes [] = []
strip_slashes (c ∷ cs) = elim (strip_slashes cs) [
  | [] ↦ if c == 47 then [] else c ∷ []
  | d ∷ ds ↦ c ∷ d ∷ ds
]

abbrev starts_with : List ℕ → List ℕ → Bool
starts_with [] cs = true
starts_with (p ∷ ps) [] = false
starts_with (p ∷ ps) (c ∷ cs) = p == c && starts_with ps cs

abbrev same_codes : List ℕ → List ℕ → Bool
same_codes [] [] = true
same_codes (x ∷ xs) (y ∷ ys) = x == y && same_codes xs ys
same_codes _ _ = false

abbrev under_root : List ℕ → List String → Bool
under_root norm [] = false
under_root norm (root ∷ roots) =
    let root_n = strip_slashes (forward (codes root)) in
    (same_codes norm root_n || starts_with (root_n ++ (47 ∷ [])) norm) || under_root norm roots

unfoldable pub priority_for : List String → String → ℕ
priority_for roots path =
    if under_root (strip_slashes (forward (codes path))) roots
    then high_priority
    else default_priority

-- `WHERE path = ? AND task_name = ?`
abbrev pub same_key : String → String → TaskRow → Bool
same_key path task_name r = str_eq r.path path && str_eq r.task_name task_name

unfoldable pub has_row : String → String → List TaskRow → Bool
has_row path task_name [] = false
has_row path task_name (r ∷ rs) = same_key path task_name r || has_row path task_name rs

abbrev pub new_row : List String → ℕ → String → String → TaskRow
new_row roots now path task_name = record {
  path = path;
  task_name = task_name;
  status = pending;
  priority = priority_for roots path;
  created_at = now;
  started_at = none;
  completed_at = none;
  error = none;
}

-- `INSERT OR IGNORE`
unfoldable pub enqueue_task : List String → ℕ → String → String → List TaskRow → List TaskRow
enqueue_task roots now path task_name q =
    if has_row path task_name q then q else q ++ (new_row roots now path task_name ∷ [])

-- The assignments of the UPDATE statements on `task_queue`.
abbrev pub cleared : TaskRow → TaskRow
cleared r = record r { status = pending; started_at = none; completed_at = none; error = none }

abbrev pub requeued : List String → String → TaskRow → TaskRow
requeued roots path r = record (cleared r) { priority = priority_for roots path }

abbrev pub completed : ℕ → TaskRow → TaskRow
completed now r = record r { status = done; completed_at = some now }

abbrev pub failed_with : ℕ → String → TaskRow → TaskRow
failed_with now error r = record r { status = failed; completed_at = some now; error = some error }

abbrev pub unclaimed : TaskRow → TaskRow
unclaimed r = record r { status = pending; started_at = none }

abbrev pub retried : TaskRow → TaskRow
retried r = record r { status = pending; error = none }

-- `INSERT … ON CONFLICT(path, task_name) DO UPDATE`
unfoldable pub re_enqueue_task : List String → ℕ → String → String → List TaskRow → List TaskRow
re_enqueue_task roots now path task_name q =
    if has_row path task_name q
    then update_where (same_key path task_name) (requeued roots path) q
    else q ++ (new_row roots now path task_name ∷ [])

-- `task_name = ? AND status = 'PENDING'`
abbrev pub waiting : String → TaskRow → Bool
waiting task_name r = str_eq r.task_name task_name && is_pending r.status

-- `ORDER BY priority DESC, created_at ASC`
unfoldable pub before : TaskRow → TaskRow → Bool
before r s =
    ltb s.priority r.priority || (s.priority == r.priority && leb r.created_at s.created_at)

unfoldable pub insert_row : TaskRow → List TaskRow → List TaskRow
insert_row r [] = r ∷ []
insert_row r (s ∷ ss) = let rest = insert_row r ss in if before r s then r ∷ s ∷ ss else s ∷ rest

unfoldable pub order_rows : List TaskRow → List TaskRow
order_rows [] = []
order_rows (r ∷ rs) = insert_row r (order_rows rs)

abbrev pub path_of : TaskRow → String
path_of r = r.path

-- The subquery of `claim_tasks`: the first rows that wait, in order, at most `batch_size`.
unfoldable pub first_waiting : String → ℕ → List TaskRow → List TaskRow
first_waiting task_name batch_size q =
    take batch_size (order_rows (select_where (waiting task_name) q))

abbrev pub picked : String → List String → TaskRow → Bool
picked task_name paths r = waiting task_name r && is_in r.path paths

abbrev pub started : ℕ → TaskRow → TaskRow
started now r = record r { status = processing; started_at = some now }

unfoldable pub claim_tasks : ℕ → String → ℕ → List TaskRow → List String × List TaskRow
claim_tasks now task_name batch_size q =
    let paths = map path_of (first_waiting task_name batch_size q) in
    (
      map path_of (select_where (picked task_name paths) q),
      update_where (picked task_name paths) (started now) q,
    )

unfoldable pub complete_task : ℕ → String → String → List TaskRow → List TaskRow
complete_task now path task_name = update_where (same_key path task_name) (completed now)

unfoldable pub fail_task : ℕ → String → String → String → List TaskRow → List TaskRow
fail_task now path task_name error = update_where (same_key path task_name) (failed_with now error)

unfoldable pub get_task_status : String → String → List TaskRow → Option Status
get_task_status path task_name [] = none
get_task_status path task_name (r ∷ rs) =
    let rest = get_task_status path task_name rs in
    if same_key path task_name r then some r.status else rest

unfoldable pub is_task_done : String → String → List TaskRow → Bool
is_task_done path task_name q = elim (get_task_status path task_name q) [
  | none ↦ false
  | some s ↦ is_done s
]

-- A task name that Python takes as true.
abbrev pub given : Option String → Option String
given none = none
given (some name) = if str_eq name "" then none else some name

abbrev pub of_task : Option String → TaskRow → Bool
of_task none r = true
of_task (some name) r = str_eq r.task_name name

unfoldable pub get_pending_tasks : Option String → List TaskRow → List (String × String)
get_pending_tasks task_name q =
    map (λ r. (r.path, r.task_name))
      (select_where (λ r. is_pending r.status && of_task (given task_name) r) q)

-- `started_at < ?`; a comparison with NULL selects nothing.
abbrev pub earlier : Option ℕ → ℕ → Bool
earlier none cutoff = false
earlier (some at) cutoff = ltb at cutoff

abbrev pub stuck : String → ℕ → TaskRow → Bool
stuck task_name cutoff r =
    str_eq r.task_name task_name && (is_processing r.status && earlier r.started_at cutoff)

unfoldable pub reset_stuck_tasks_for : ℕ → String → ℕ → List TaskRow → ℕ × List TaskRow
reset_stuck_tasks_for now task_name timeout q =
    let late = stuck task_name (now - timeout) in
    (count_where late q, update_where late unclaimed q)

unfoldable pub reset_failed_tasks : Option String → List TaskRow → List TaskRow
reset_failed_tasks task_name =
    update_where (λ r. is_failed r.status && of_task (given task_name) r) retried

unfoldable pub reset_task : String → List TaskRow → List TaskRow
reset_task task_name = update_where (λ r. str_eq r.task_name task_name) cleared

unfoldable pub invalidate_path : String → String → List TaskRow → List TaskRow
invalidate_path task_name path =
    update_where (λ r. same_key path task_name r && not (is_pending r.status)) cleared

abbrev pub invalidate_paths : String → List String → List TaskRow → List TaskRow
invalidate_paths task_name [] q = q
invalidate_paths task_name (path ∷ paths) q =
    invalidate_paths task_name paths (invalidate_path task_name path q)

-- The early return on an empty list is the loop's own result.
unfoldable pub invalidate_tasks_for_paths : List String → List String → List TaskRow → List TaskRow
invalidate_tasks_for_paths [] paths q = q
invalidate_tasks_for_paths (task_name ∷ task_names) paths q =
    invalidate_tasks_for_paths task_names paths (invalidate_paths task_name paths q)

unfoldable pub invalidate_tasks_bulk : List String → List TaskRow → List TaskRow
invalidate_tasks_bulk [] q = q
invalidate_tasks_bulk (task_name ∷ task_names) q =
    invalidate_tasks_bulk task_names
      (update_where (λ r. str_eq r.task_name task_name && not (is_pending r.status)) cleared q)

abbrev pub unclaim_path : String → String → List TaskRow → List TaskRow
unclaim_path task_name path = update_where (same_key path task_name) unclaimed

unfoldable pub unclaim_tasks : String → List String → List TaskRow → List TaskRow
unclaim_tasks task_name [] q = q
unclaim_tasks task_name (path ∷ paths) q =
    unclaim_tasks task_name paths (unclaim_path task_name path q)

abbrev pub has_status : Status → TaskRow → Bool
has_status pending r = is_pending r.status
has_status processing r = is_processing r.status
has_status done r = is_done r.status
has_status failed r = is_failed r.status

unfoldable pub get_paths_for_task_status : String → Status → List TaskRow → List String
get_paths_for_task_status task_name status q =
    map path_of (select_where (λ r. str_eq r.task_name task_name && has_status status r) q)

-- `SELECT DISTINCT path`
abbrev pub distinct : List String → List String
distinct [] = []
distinct (p ∷ ps) = let rest = distinct ps in if is_in p rest then rest else p ∷ rest

unfoldable pub get_paths_with_any_task_done : List String → List TaskRow → List String
get_paths_with_any_task_done [] q = []
get_paths_with_any_task_done (name ∷ names) q =
    distinct
      (map path_of (select_where (λ r. is_in r.task_name (name ∷ names) && is_done r.status) q))

-- `DELETE FROM task_queue WHERE path = ?`
unfoldable pub remove_rows : String → List TaskRow → List TaskRow
remove_rows path = delete_where (λ r. str_eq r.path path)
