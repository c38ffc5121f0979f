-- ===== src/Pipeline/Rows.antt =====
-- The tables of pipeline/database.py that the pipeline moves its work through: the files found on
-- disk, the queue of (path, task) pairs and the runs of event tasks. A time is the number that the
-- clock reads, an absent column is `none`.
use second_brain_art.Common.{
  ℕ, suc, Bool, true, false, Option, List, [], ◌∷◌, String, if◌then◌else◌,
}

-- `status TEXT`
pub data Status : Type 0 where
  pending processing done failed : Status

abbrev pub is_pending : Status → Bool
is_pending pending = true
is_pending _ = false

abbrev pub is_processing : Status → Bool
is_processing processing = true
is_processing _ = false

abbrev pub is_done : Status → Bool
is_done done = true
is_done _ = false

abbrev pub is_failed : Status → Bool
is_failed failed = true
is_failed _ = false

-- `files`
pub record FileRow : Type 0 where
  pub path : String
  pub file_name : String
  pub extension : String
  pub modality : String
  pub mtime : ℕ
  pub discovered_at : ℕ
  pub updated_at : ℕ
  pub source : String

-- `task_queue`, with primary key (path, task_name)
pub record TaskRow : Type 0 where
  pub path : String
  pub task_name : String
  pub status : Status
  pub priority : ℕ
  pub created_at : ℕ
  pub started_at : Option ℕ
  pub completed_at : Option ℕ
  pub error : Option String

-- `task_runs`, with primary key run_id
pub record RunRow : Type 0 where
  pub run_id : String
  pub task_name : String
  pub status : Status
  pub triggered_by : Option String
  pub parent_run_id : Option String
  pub payload_json : Option String
  pub created_at : ℕ
  pub started_at : Option ℕ
  pub finished_at : Option ℕ
  pub error : Option String

-- `UPDATE … SET … WHERE …`
module _ {ℓ} {R : Type ℓ} where
  unfoldable pub update_where : (R → Bool) → (R → R) → List R → List R
  update_where p f [] = []
  update_where p f (r ∷ rs) = (if p r then f r else r) ∷ update_where p f rs

  -- `DELETE … WHERE …`
  unfoldable pub delete_where : (R → Bool) → List R → List R
  delete_where p [] = []
  delete_where p (r ∷ rs) = let rest = delete_where p rs in if p r then rest else r ∷ rest

  -- `SELECT … WHERE …`
  unfoldable pub select_where : (R → Bool) → List R → List R
  select_where p [] = []
  select_where p (r ∷ rs) = let rest = select_where p rs in if p r then r ∷ rest else rest

  -- The row count of `UPDATE … WHERE …`
  unfoldable pub count_where : (R → Bool) → List R → ℕ
  count_where p [] = 0
  count_where p (r ∷ rs) = let rest = count_where p rs in if p r then suc rest else rest
