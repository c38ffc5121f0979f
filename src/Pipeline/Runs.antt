-- ===== src/Pipeline/Runs.antt =====
-- The runs of event tasks: the methods of Database in pipeline/database.py on `task_runs`, in the
-- order of the table's rows. `create_run` has no result when the primary key refuses the row.
use second_brain_art.Common.{
  ℕ, suc, ◌-◌, Bool, true, false, ◌&&◌, ◌||◌, Option, none, some, List, [], ◌∷◌, ◌++◌, map, String,
  str_eq, leb, take, if◌then◌else◌,
}
use second_brain_art.Python.Dict.{Dict, lookup, insert}
use second_brain_art.Python.Sets.{is_in}
use second_brain_art.Pipeline.Rows.{
  Status, pending, processing, done, failed, is_pending, is_processing, RunRow, update_where,
  select_where, count_where,
}
use second_brain_art.Pipeline.Queue.{earlier, given}

-- `WHERE run_id = ?`
abbrev pub same_run : String → RunRow → Bool
same_run run_id r = str_eq r.run_id run_id

unfoldable pub has_run : String → List RunRow → Bool
has_run run_id [] = false
has_run run_id (r ∷ rs) = same_run run_id r || has_run run_id rs

abbrev pub new_run : ℕ → String → String → Option String → Option String → Option String → RunRow
new_run now run_id task_name triggered_by payload_json parent_run_id = record {
  run_id = run_id;
  task_name = task_name;
  status = pending;
  triggered_by = triggered_by;
  parent_run_id = parent_run_id;
  payload_json = payload_json;
  created_at = now;
  started_at = none;
  finished_at = none;
  error = none;
}

unfoldable pub create_run :
    ℕ
    → String
    → String
    → Option String
    → Option String
    → Option String
    → List RunRow
    → Option (List RunRow)
create_run now run_id task_name triggered_by payload_json parent_run_id rs =
    if has_run run_id rs
    then none
    else some (rs ++ (new_run now run_id task_name triggered_by payload_json parent_run_id ∷ []))

abbrev pub run_waiting : String → RunRow → Bool
run_waiting task_name r = str_eq r.task_name task_name && is_pending r.status

-- `ORDER BY created_at ASC`
unfoldable pub insert_oldest : RunRow → List RunRow → List RunRow
insert_oldest r [] = r ∷ []
insert_oldest r (s ∷ ss) =
    let rest = insert_oldest r ss in if leb r.created_at s.created_at then r ∷ s ∷ ss else s ∷ rest

unfoldable pub oldest_first : List RunRow → List RunRow
oldest_first [] = []
oldest_first (r ∷ rs) = insert_oldest r (oldest_first rs)

abbrev pub id_of : RunRow → String
id_of r = r.run_id

abbrev pub run_picked : String → List String → RunRow → Bool
run_picked task_name ids r = run_waiting task_name r && is_in r.run_id ids

abbrev pub run_started_at : ℕ → RunRow → RunRow
run_started_at now r = record r { status = processing; started_at = some now }

abbrev pub claimed_run : RunRow → String × Option String
claimed_run r = (r.run_id, r.payload_json)

unfoldable pub claim_runs :
    ℕ → String → ℕ → List RunRow → List (String × Option String) × List RunRow
claim_runs now task_name batch_size rs =
    let chosen = take batch_size (oldest_first (select_where (run_waiting task_name) rs)) in
    let ids = map id_of chosen in
    (
      map claimed_run (select_where (run_picked task_name ids) rs),
      update_where (run_picked task_name ids) (run_started_at now) rs,
    )

unfoldable pub complete_run : ℕ → String → List RunRow → List RunRow
complete_run now run_id =
    update_where (same_run run_id) (λ r. record r { status = done; finished_at = some now })

unfoldable pub fail_run : ℕ → String → String → List RunRow → List RunRow
fail_run now run_id error =
    update_where (same_run run_id)
      (λ r. record r { status = failed; finished_at = some now; error = some error })

unfoldable pub unclaim_run : String → List RunRow → List RunRow
unclaim_run run_id =
    update_where (same_run run_id) (λ r. record r { status = pending; started_at = none })

abbrev pub run_stuck : String → ℕ → RunRow → Bool
run_stuck task_name cutoff r =
    str_eq r.task_name task_name && (is_processing r.status && earlier r.started_at cutoff)

unfoldable pub reset_stuck_runs_for : ℕ → String → ℕ → List RunRow → ℕ × List RunRow
reset_stuck_runs_for now task_name timeout rs =
    let late = run_stuck task_name (now - timeout) in
    (
      count_where late rs,
      update_where late (λ r. record r { status = pending; started_at = none }) rs,
    )

-- `ORDER BY created_at DESC`
unfoldable pub insert_newest : RunRow → List RunRow → List RunRow
insert_newest r [] = r ∷ []
insert_newest r (s ∷ ss) =
    let rest = insert_newest r ss in if leb s.created_at r.created_at then r ∷ s ∷ ss else s ∷ rest

unfoldable pub newest_first : List RunRow → List RunRow
newest_first [] = []
newest_first (r ∷ rs) = insert_newest r (newest_first rs)

abbrev pub of_run_task : Option String → RunRow → Bool
of_run_task none r = true
of_run_task (some name) r = str_eq r.task_name name

unfoldable pub get_runs : Option String → ℕ → List RunRow → List RunRow
get_runs task_name limit rs =
    take limit (newest_first (select_where (of_run_task (given task_name)) rs))

-- The counts of one task in `get_run_stats`
pub record Counts : Type 0 where
  pub pendings : ℕ
  pub processings : ℕ
  pub dones : ℕ
  pub faileds : ℕ

abbrev pub count_status : Status → Counts → Counts
count_status pending c = record c { pendings = suc c.pendings }
count_status processing c = record c { processings = suc c.processings }
count_status done c = record c { dones = suc c.dones }
count_status failed c = record c { faileds = suc c.faileds }

abbrev pub counts_at : String → Dict Counts → Counts
counts_at name stats = elim (lookup name stats) [
  | none ↦ record { pendings = 0; processings = 0; dones = 0; faileds = 0 }
  | some c ↦ c
]

-- `GROUP BY task_name, status`, one row at a time
unfoldable pub get_run_stats : List RunRow → Dict Counts
get_run_stats [] = []
get_run_stats (r ∷ rs) =
    let stats = get_run_stats rs in
    insert r.task_name (count_status r.status (counts_at r.task_name stats)) stats

-- The run is being worked on.
unfoldable pub run_busy : String → List RunRow → Bool
run_busy run_id [] = false
run_busy run_id (r ∷ rs) = (same_run run_id r && is_processing r.status) || run_busy run_id rs
