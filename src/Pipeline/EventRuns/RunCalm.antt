-- ===== src/Pipeline/EventRuns/RunCalm.antt =====
-- The handlers of pipeline/orchestrator.py that create runs of event tasks, and the writes of a
-- result, as far as the runs being worked on are concerned.
use Prim.Native.String.{◌++◌ as str_append}
use second_brain_art.Common.{
  ◌≡◌, refl, Bool, true, false, not, ◌&&◌, ◌||◌, Option, none, some, List, [], ◌∷◌, ◌++◌, String,
  str_eq, eq_iff, inl, inr, if◌then◌else◌, Bool-cases, arith,
}
use second_brain_art.Python.Sets.{is_in}
use second_brain_art.Pipeline.Rows.{RunRow, is_processing, update_where}
use second_brain_art.Pipeline.Runs.{has_run, same_run, new_run, create_run, run_busy}
use second_brain_art.Pipeline.Tasks.{BaseTask, Tasks, Graph, tasks_snapshot, on_event, is_empty}
use second_brain_art.Pipeline.World.{Env, World, Row}
use second_brain_art.Pipeline.Execute.{TaskResult, store, write_tables, after_write, no_rows}
use second_brain_art.Pipeline.EventRuns.{
  unless_raised, chain_run, run_id_for, chain_task, chain_tasks, chain_tables,
}

-- No run is started between `rs` and `ss`.
pub record Calm (rs ss : List RunRow) : Type 0 where
  pub calm : (x : String) → run_busy x rs ≡ false → run_busy x ss ≡ false

Calm-refl : (rs : List RunRow) → Calm rs rs
Calm-refl rs = record { calm = λ x h. h }

pub Calm-trans : (rs ss ts : List RunRow) → Calm rs ss → Calm ss ts → Calm rs ts
Calm-trans rs ss ts a b = record { calm = λ x h. b.calm x (a.calm x h) }

Calm-if :
    (b : Bool) (rs : List RunRow) (u v : World × Bool)
    → Calm rs u.0.runs
    → Calm rs v.0.runs
    → Calm rs (if b then u else v).0.runs
Calm-if true rs u v x y = x
Calm-if false rs u v x y = y

pub busy-run_update :
    (id x : String) (f : RunRow → RunRow) (rs : List RunRow)
    → ((r : RunRow) → (f r).run_id ≡ r.run_id)
    → ((r : RunRow) → is_processing (f r).status ≡ false)
    → run_busy x (update_where (same_run id) f rs) ≡ (if str_eq id x then false else run_busy x rs)
unfolding update_where run_busy
busy-run_update id x f [] k i = ground arith
busy-run_update id x f (r ∷ rs) k i = ground (
  arith,
  busy-run_update id x f rs k i,
  k r,
  i r,
  eq_iff r.run_id id,
  eq_iff r.run_id x,
  eq_iff id x,
  eq_iff (f r).run_id x,
)

busy-append :
    (x : String) (rs : List RunRow) (r : RunRow)
    → is_processing r.status ≡ false
    → run_busy x (rs ++ (r ∷ [])) ≡ run_busy x rs
unfolding run_busy
busy-append x [] r i = ground arith
busy-append x (s ∷ rs) r i = ground (arith, busy-append x rs r i)

pub Calm-run_update :
    (id : String) (f : RunRow → RunRow) (rs : List RunRow)
    → ((r : RunRow) → (f r).run_id ≡ r.run_id)
    → ((r : RunRow) → is_processing (f r).status ≡ false)
    → Calm rs (update_where (same_run id) f rs)
Calm-run_update id f rs k i = record { calm = λ x h. ground (arith, busy-run_update id x f rs k i) }

module _ (env : Env) (tasks : Tasks) (g : Graph) where
  Calm-chain_run :
      (parent : BaseTask) (parent_run : String) (payload : Option String) (task : BaseTask)
      (w : World)
      → Calm w.runs (chain_run env tasks g parent parent_run payload task w).0.runs
  unfolding create_run
  Calm-chain_run parent parent_run payload task w =
      let id = run_id_for env tasks g task w in
      elim (Bool-cases (has_run id w.runs)) [
        | inl b ↦ rw b (Calm-refl w.runs)
        | inr b ↦ rw b (record {
          calm = λ x h. ground (
            arith,
            busy-append x w.runs
                (new_run (env.time w.ticks) id task.name (some (str_append "upstream:" parent.name))
                  (some (env.pass_on payload)) (some parent_run))
                refl,
          );
        })
      ]

  Calm-unless :
      (s : World × Bool) (next : World → World × Bool) (rs : List RunRow)
      → Calm rs s.0.runs
      → ((w : World) → Calm w.runs (next w).0.runs)
      → Calm rs (unless_raised env tasks g s next).0.runs
  Calm-unless (w, true) next rs a b = a
  Calm-unless (w, false) next rs a b = Calm-trans rs w.runs (next w).0.runs a (b w)

  Calm-chain_tasks :
      (parent : BaseTask) (parent_run : String) (payload : Option String) (table : String)
      (rest : List BaseTask) (w : World)
      → Calm w.runs (chain_tasks env tasks g parent parent_run payload table rest w).0.runs
  unfolding chain_tasks
  Calm-chain_tasks parent parent_run payload table [] w = Calm-refl w.runs
  Calm-chain_tasks parent parent_run payload table (task ∷ rest) w =
      Calm-unless (chain_task env tasks g parent parent_run payload table task w)
        (chain_tasks env tasks g parent parent_run payload table rest) w.runs
        (Calm-if (on_event task && (not (str_eq task.name parent.name) && is_in table task.reads))
          w.runs _ _ (Calm-chain_run parent parent_run payload task w) (Calm-refl w.runs))
        (Calm-chain_tasks parent parent_run payload table rest)

  pub Calm-chain_tables :
      (parent : BaseTask) (parent_run : String) (payload : Option String) (tables : List String)
      (w : World)
      → Calm w.runs (chain_tables env tasks g parent parent_run payload tables w).0.runs
  unfolding chain_tables
  Calm-chain_tables parent parent_run payload [] w = Calm-refl w.runs
  Calm-chain_tables parent parent_run payload (table ∷ tables) w =
      Calm-unless (chain_tasks env tasks g parent parent_run payload table (tasks_snapshot tasks) w)
        (chain_tables env tasks g parent parent_run payload tables) w.runs
        (Calm-chain_tasks parent parent_run payload table (tasks_snapshot tasks) w)
        (Calm-chain_tables parent parent_run payload tables)

  -- The writes do not touch the runs.
  runs-after :
      (o : Option String) (after : World) (others : World × Option String) (rs : List RunRow)
      → after.runs ≡ rs
      → others.0.runs ≡ rs
      → (after_write env tasks g o after others).0.runs ≡ rs
  runs-after none after others rs a b = b
  runs-after (some error) after others rs a b = a

  runs-write :
      (tables : List String) (rows : List Row) (w : World)
      → (write_tables env tasks g tables rows w).0.runs ≡ w.runs
  unfolding write_tables
  runs-write [] rows w = refl
  runs-write (table ∷ tables) rows w =
      let written = env.write_outputs table rows w.outputs in
      let after = record w { outputs = written.0 } in
      runs-after written.1 after (write_tables env tasks g tables rows after) w.runs refl
        (runs-write tables rows after)

  pub runs-store :
      (task : BaseTask) (result : TaskResult) (w : World)
      → (store env tasks g task result w).0.runs ≡ w.runs
  runs-store task result w = elim (Bool-cases (no_rows result.rows || is_empty task.writes)) [
    | inl b ↦ rw b refl
    | inr b ↦ rw b (runs-write task.writes result.rows w)
  ]
