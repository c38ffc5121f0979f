-- ===== src/Pipeline/Tasks/Downstream.antt =====
-- What `Orchestrator.get_all_downstream` of pipeline/orchestrator.py returns: the tasks that depend
-- on a task, through any number of tables.
use second_brain_art.Common.{
  ℕ, zero, suc, ◌≡◌, ◌≤◌, refl, sym, ◌↔◌, ◌⊎◌, inl, inr, true, some, List, [], ◌∷◌, String, eq_iff,
  arith, Bool-cases, length,
}
use second_brain_art.Python.Sets.{is_in}
use second_brain_art.Pipeline.Tasks.{
  BaseTask, Tasks, tasks_snapshot, visit, downstream_loop, get_all_downstream, root_on_path,
}
use second_brain_art.Pipeline.Tasks.Offers.{feeds, visit-Grows, unseen, work, visit-work}

-- The task `b` depends on the task `a`: a chain of tasks leads from `a` to `b`, each of which
-- writes a table that the next one reads.
pub data Downstream (tasks : Tasks) : String → String → Type 0 where
  direct : {a b : String} → feeds tasks a b ≡ true → Downstream tasks a b
  further : {a b c : String} → Downstream tasks a b → feeds tasks b c ≡ true → Downstream tasks a c

module _ (tasks : Tasks) (root : String) where
  -- The invariant of the loop.
  record Inv (s : List String × List String) : Type 0 where
    pub sound : (x : String) → is_in x s.0 ≡ true → Downstream tasks root x
    pub fringe : (x : String) → is_in x s.1 ≡ true → (x ≡ root) ⊎ (is_in x s.0 ≡ true)
    pub closed_root :
        (y : String) → feeds tasks root y ≡ true → (is_in root s.1 ≡ true) ⊎ (is_in y s.0 ≡ true)
    pub closed :
        (x y : String)
        → is_in x s.0 ≡ true
        → feeds tasks x y ≡ true
        → (is_in x s.1 ≡ true) ⊎ (is_in y s.0 ≡ true)

  Inv-start : Inv ([], root ∷ [])
  unfolding is_in
  Inv-start = record {
    sound = λ x h. absurd (ground arith);
    fringe = λ x h. inl (ground (arith, eq_iff root x));
    closed_root = λ y h. inl (ground (arith, eq_iff root root));
    closed = λ x y h k. absurd (ground arith);
  }

  reach :
      (current y : String) (s : List String × List String)
      → Inv s
      → is_in current s.1 ≡ true
      → feeds tasks current y ≡ true
      → Downstream tasks root y
  reach current y s i q e = elim (i.fringe current q) [
    | inl same ↦ direct (rw (sym same) e)
    | inr seen ↦ further (i.sound current seen) e
  ]

  Inv-visit :
      (current : String) (found frontier : List String)
      → Inv (found, current ∷ frontier)
      → Inv (visit tasks current (found, frontier))
  unfolding is_in
  Inv-visit current found frontier i =
      let g = visit-Grows tasks current (found, frontier) in
      let here : is_in current (current ∷ frontier) ≡ true =
        ground (arith, eq_iff current current) in
      record {
        sound = λ x h. elim (Bool-cases (is_in x found)) [
          | inl old ↦ i.sound x old
          | inr new ↦ reach current x (found, current ∷ frontier) i here (ground (arith, g.found x))
        ];
        fringe = λ x h. ground (arith, g.found x, g.queued x, i.fringe x);
        closed_root =
            λ y h. ground (arith, g.found y, g.queued root, i.closed_root y h, eq_iff current root);
        closed = λ x y h k.
            ground (arith, g.found x, g.found y, g.queued x, i.closed x y, eq_iff current x);
      }

  -- What the loop finds: the invariant holds, and the frontier is empty.
  Found : ℕ → List String × List String → Type 0
  Found fuel s = (t : List String) × (downstream_loop fuel tasks s ≡ some t) × Inv (t, [])

  loop-Found :
      (fuel : ℕ) (found frontier : List String)
      → work (tasks_snapshot tasks) (found, frontier) ≤ fuel
      → Inv (found, frontier)
      → Found fuel (found, frontier)
  unfolding downstream_loop work Found
  loop-Found fuel found [] h i = (found, refl, i)
  loop-Found zero found (current ∷ frontier) h i = absurd (omega arith)
  loop-Found (suc fuel) found (current ∷ frontier) h i =
      let s = visit tasks current (found, frontier) in
      loop-Found fuel s.0 s.1 (omega (arith, visit-work tasks current (found, frontier)))
        (Inv-visit current found frontier i)

  -- Every task downstream of the root is found, once the frontier is empty.
  complete :
      (t : List String) (x : String) → Inv (t, []) → Downstream tasks root x → is_in x t ≡ true
  unfolding is_in
  complete t x i (direct e) = ground (arith, i.closed_root x e)
  complete t x i (further {b} d e) =
      let before = complete t b i d in ground (arith, i.closed b x before e)

unseen-nil : (tasks : List BaseTask) → unseen [] tasks ≡ length tasks
unfolding unseen is_in
unseen-nil [] = refl
unseen-nil (task ∷ tasks) = omega (arith, unseen-nil tasks)

-- For a path task, or a name that is not registered, the search for the tasks downstream ends
-- within its fuel and returns exactly the names of the tasks that depend on it through a chain of
-- tables that one task writes and the next one reads.
pub get_all_downstream_lem :
    (tasks : Tasks) (root : String)
    → root_on_path tasks root ≡ true
    → (t : List String) × (get_all_downstream tasks root ≡ some t)
      × ((x : String) → (is_in x t ≡ true) ↔ Downstream tasks root x)
unfolding get_all_downstream work Found
get_all_downstream_lem tasks root h =
    let all = tasks_snapshot tasks in
    let (t, e, i) =
      loop-Found tasks root (suc (length all)) [] (root ∷ []) (omega (arith, unseen-nil all))
        (Inv-start tasks root) in
    (t, rw h e, λ x. (i.sound x, complete tasks root t x i))
