-- ===== src/Pipeline/Fixtures.antt =====
-- Small inputs for the model of pipeline/: two path tasks, one of which reads what the other writes,
-- an event task, three files in the queue, and a machine with free slots.
use second_brain_art.Common.{
  ℕ, true, false, none, some, List, [], ◌∷◌, String, str_eq, if◌then◌else◌,
}
use second_brain_art.Pipeline.Rows.{pending, processing, TaskRow, RunRow, FileRow}
use second_brain_art.Pipeline.Queue.{enqueue_task}
use second_brain_art.Pipeline.Tasks.{BaseTask, Tasks, Graph}
use second_brain_art.Pipeline.World.{Env, World}
use second_brain_art.Pipeline.Execute.{TaskResult}
use second_brain_art.Pipeline.Orchestrator.{Orchestrator, Machine}
use second_brain_art.Pipeline.Trigger.{EventTrigger, subscription}

abbrev pub parse : BaseTask
parse = record {
  name = "parse";
  trigger = "path";
  trigger_channels = [];
  modalities = "text" ∷ [];
  reads = [];
  writes = "chunks" ∷ [];
  require_all_inputs = true;
  requires_services = [];
  batch_size = 2;
  max_workers = 1;
  timeout = 60;
}

abbrev pub embed : BaseTask
embed = record {
  name = "embed";
  trigger = "path";
  trigger_channels = [];
  modalities = [];
  reads = "chunks" ∷ [];
  writes = "vectors" ∷ [];
  require_all_inputs = true;
  requires_services = [];
  batch_size = 2;
  max_workers = 0;
  timeout = 60;
}

abbrev pub digest : BaseTask
digest = record {
  name = "digest";
  trigger = "event";
  trigger_channels = "daily" ∷ [];
  modalities = [];
  reads = [];
  writes = [];
  require_all_inputs = true;
  requires_services = [];
  batch_size = 1;
  max_workers = 1;
  timeout = 60;
}

abbrev pub registry : Tasks
registry = ("parse", parse) ∷ ("embed", embed) ∷ ("digest", digest) ∷ []

-- Three files for the first task, the last of which is the oldest.
abbrev pub queue : List TaskRow
queue =
    enqueue_task [] 1 "c" "parse" (enqueue_task [] 2 "b" "parse" (enqueue_task [] 3 "a" "parse" []))

abbrev pub waiting_row : String → ℕ → TaskRow
waiting_row path created_at = record {
  path = path;
  task_name = "parse";
  status = pending;
  priority = 0;
  created_at = created_at;
  started_at = none;
  completed_at = none;
  error = none;
}

abbrev pub two_rows : List TaskRow
two_rows = waiting_row "a" 3 ∷ waiting_row "c" 1 ∷ []

abbrev pub graph : Graph
graph = record {
  table_producers = [];
  upstream = ("parse", []) ∷ ("embed", "parse" ∷ []) ∷ [];
  event_upstream = [];
}

abbrev pub outside_world : Env
outside_world = record {
  roots = "/attachments" ∷ [];
  time = λ n. n;
  hex = λ n. "0f";
  pass_on = λ payload. "{}";
  write_outputs = λ table rows outputs. (outputs, none);
  clean_output_tables = λ path tables outputs. outputs;
  extract_dir = λ path outputs. if str_eq path "/z/a.zip" then some "/x/a" else none;
  exists = λ path. true;
  file_name = λ path. path;
  suffix = λ path. ".txt";
  mtime = λ path. 0;
  supported = λ ext. true;
  modality = λ ext. "text";
}

abbrev pub file : String → String → FileRow
file path source = record {
  path = path;
  file_name = path;
  extension = ".txt";
  modality = "text";
  mtime = 0;
  discovered_at = 0;
  updated_at = 0;
  source = source;
}

abbrev pub claimed_row : String → TaskRow
claimed_row path = record (waiting_row path 1) { status = processing; started_at = some 2 }

abbrev pub digest_run : RunRow
digest_run = record {
  run_id = "digest:01";
  task_name = "digest";
  status = processing;
  triggered_by = some "daily";
  parent_run_id = none;
  payload_json = none;
  created_at = 1;
  started_at = some 2;
  finished_at = none;
  error = none;
}

abbrev pub world : World
world = record {
  files =
      file "/z/a.zip" "watched"
      ∷ file "/x/a/1.txt" "container"
      ∷ file "/x/ab/2.txt" "container"
      ∷ [];
  queue = claimed_row "a" ∷ claimed_row "b" ∷ [];
  runs = digest_run ∷ [];
  outputs = [];
  notices = [];
  skip_cache = [];
  ticks = 5;
  ids = 0;
}

abbrev pub result : TaskResult
result = record { success = true; error = ""; rows = []; also_contains = []; discovered_paths = [] }

abbrev pub orchestrator : Orchestrator
orchestrator = record {
  tasks = registry;
  graph = graph;
  semaphores = ("parse", 1) ∷ ("embed", 4) ∷ ("digest", 1) ∷ [];
  paused = [];
  max_workers = 4;
  services = [];
}

abbrev pub machine : Machine
machine = record {
  orch = orchestrator;
  world = record world { queue = queue };
  jobs = [];
  raised = false;
}

abbrev pub trigger : EventTrigger
trigger = record {
  bus = ("daily", 0 ∷ 1 ∷ []) ∷ [];
  unsubs = subscription "daily" 1 digest ∷ [];
  started = true;
  made = 2;
}
