-- ===== src/Pipeline/World.antt =====
-- What the orchestrator of pipeline/orchestrator.py acts on: the tables of the database, the bus,
-- and the outside world, which is a parameter. The task-owned output tables stand behind two
-- functions, since their columns and triggers come from the plugins' own SQL.
use second_brain_art.Common.{ℕ, suc, Bool, Option, List, [], ◌∷◌, ◌++◌, String}
use second_brain_art.Python.{Value}
use second_brain_art.Python.Dict.{Dict}
use second_brain_art.Pipeline.Rows.{FileRow, TaskRow, RunRow, delete_where}
use second_brain_art.Pipeline.Files.{same_file}
use second_brain_art.Pipeline.Queue.{
  enqueue_task, re_enqueue_task, complete_task, fail_task, remove_rows,
}

-- A row that a task hands over for its output tables, and the tables.
abbrev pub Row : Type 0
Row = Dict Value

abbrev pub Outputs : Type 0
Outputs = Dict (List Row)

-- `emit`ted by the orchestrator
pub data Notice : Type 0 where
  task_started : String → List String → Notice
  task_failed : String → String → String → Notice
  task_completed : String → String → ℕ → Notice
  run_started : String → String → Notice
  run_failed : String → String → String → Notice
  run_completed : String → String → ℕ → Notice

pub record World : Type 0 where
  pub files : List FileRow
  pub queue : List TaskRow
  pub runs : List RunRow
  pub outputs : Outputs
  pub notices : List Notice
  -- tasks that were found blocked
  pub skip_cache : List String
  -- how often the clock has been read
  pub ticks : ℕ
  -- how many random identifiers have been drawn
  pub ids : ℕ

-- The outside world.
pub record Env : Type 0 where
  -- `_PRIORITY_ROOTS`
  pub roots : List String
  -- the n-th reading of `time.time()`
  pub time : ℕ → ℕ
  -- the identifier `uuid4().hex[:12]` drawn n-th
  pub hex : ℕ → String
  -- `json.dumps` of what `json.loads` reads in a payload, `{}` when that is nothing
  pub pass_on : Option String → String
  -- `write_outputs`: the tables afterwards, and the text of the exception if it raised
  pub write_outputs : String → List Row → Outputs → Outputs × Option String
  -- `clean_output_tables`
  pub clean_output_tables : String → List String → Outputs → Outputs
  -- `extract_dir` in the row of the path in `extracted_containers`, a table that a plugin makes
  pub extract_dir : String → Outputs → Option String
  -- `os.path.exists`, and the parts of a path
  pub exists : String → Bool
  pub file_name : String → String
  pub suffix : String → String
  pub mtime : String → ℕ
  -- `get_supported_extensions` and `get_modality`
  pub supported : String → Bool
  pub modality : String → String

module _ (env : Env) where
  pub now : World → ℕ
  now w = env.time w.ticks

  abbrev pub enqueue : String → String → World → World
  enqueue path name w = record w {
    queue = enqueue_task env.roots (env.time w.ticks) path name w.queue;
    ticks = suc w.ticks;
  }

  abbrev pub re_enqueue : String → String → World → World
  re_enqueue path name w = record w {
    queue = re_enqueue_task env.roots (env.time w.ticks) path name w.queue;
    ticks = suc w.ticks;
  }

  abbrev pub complete : String → String → World → World
  complete path name w = record w {
    queue = complete_task (env.time w.ticks) path name w.queue;
    ticks = suc w.ticks;
  }

  abbrev pub fail : String → String → String → World → World
  fail path name error w = record w {
    queue = fail_task (env.time w.ticks) path name error w.queue;
    ticks = suc w.ticks;
  }

-- `bus.emit`
abbrev pub emit : Notice → World → World
emit n w = record w { notices = w.notices ++ (n ∷ []) }

-- `remove_file`
unfoldable pub remove_file : String → World → World
remove_file path w = record w {
  queue = remove_rows path w.queue;
  files = delete_where (same_file path) w.files;
}
