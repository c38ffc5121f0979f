-- ===== src/Pipeline/Lifecycle/Cascades.antt =====
-- For which pairs of tables `_create_cascade_triggers` of pipeline/orchestrator.py makes a trigger.
use mathlib.Core.List.{Memᴰ}
use second_brain_art.Common.{
  ◌≡◌, ◌⊎◌, Bool, true, false, ◌&&◌, ◌||◌, List, [], ◌∷◌, ◌++◌, String, str_eq, leb,
}
use second_brain_art.Python.Sets.{is_in}
use second_brain_art.Pipeline.Tasks.{BaseTask, on_path}
use second_brain_art.Pipeline.Orchestrator.{Orchestrator}
use second_brain_art.Pipeline.Lifecycle.{mentions, writers}

abbrev pub has_pair : String → String → List (String × String) → Bool
has_pair i o [] = false
has_pair i o ((a, b) ∷ pairs) = str_eq a i && str_eq b o || has_pair i o pairs

-- Some path task reads the one table and writes the other.
abbrev joins : String → String → List BaseTask → Bool
joins i o [] = false
joins i o (task ∷ tasks) =
    on_path task && (is_in i task.reads && is_in o task.writes) || joins i o tasks

-- A path task, the only one of all that writes the output, and once, reads the input, which a path
-- task writes; both tables have the column.
pub record Cascade (keyed : String → Bool) (all : List BaseTask) (input output : String)
    : Type 0 where
  pub before : List BaseTask
  pub task : BaseTask
  pub after : List BaseTask
  pub split : all ≡ before ++ task ∷ after
  pub path_task : on_path task ≡ true
  pub reader : is_in input task.reads ≡ true
  pub once : mentions output task.writes ≡ 1
  pub others :
      (t : BaseTask)
      → Memᴰ t before ⊎ Memᴰ t after
      → on_path t ≡ true
      → is_in output t.writes ≡ false
  pub source : BaseTask
  pub source_known : Memᴰ source all
  pub source_path : on_path source ≡ true
  pub source_writes : is_in input source.writes ≡ true
  pub have_column : (keyed input && keyed output) ≡ true

module _ (keyed : String → Bool) (all : List BaseTask) (i o : String) where
  -- The output is not shared, and both tables have the column.
  abbrev fit : Bool
  fit = leb (writers o all) 1 && (keyed i && keyed o)
