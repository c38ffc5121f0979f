-- ===== src/Pipeline/Tasks/Graphs.antt =====
-- What the graph that `_build_graph` of pipeline/orchestrator.py builds says about a path task.
use second_brain_art.Common.{
  ◌≡◌, refl, ap, ◌∙◌, Bool, true, false, not, ◌&&◌, ◌||◌, Option, none, some, List, [], ◌∷◌, ◌++◌,
  String, str_eq, eq_iff, if◌then◌else◌, arith, Option-cases, inl, inr,
}
use second_brain_art.Python.Dict.{Dict, lookup, insert, has_key, found, lookup-insert}
use second_brain_art.Python.Sets.{is_in, is_in-add}
use second_brain_art.Pipeline.Tasks.{
  BaseTask, Tasks, Graph, tasks_snapshot, on_event, claim_tables, first_writers, same_kind, add_dep,
  same_kind_deps, deps_of, place, link_task, link, build_graph, names_in, upstream_of,
}
use second_brain_art.Pipeline.Tasks.Offers.{named}

-- The first task that writes the table.
unfoldable pub writer_of : String → List BaseTask → Option String
writer_of table [] = none
writer_of table (task ∷ tasks) =
    let rest = writer_of table tasks in if is_in table task.writes then some task.name else rest

abbrev or_else : Option String → Option String → Option String
or_else none o = o
or_else (some v) o = some v

-- A registered task of the kind with this name is the first writer.
abbrev is_producer : Tasks → String → Option String → String → Bool
is_producer tasks kind none dep = false
is_producer tasks kind (some name) dep =
    str_eq name dep && (not (str_eq name "") && same_kind tasks kind name)

-- `dep` is the first writer of one of the tables, and a registered task of the kind.
unfoldable pub produces_one : Tasks → String → List String → String → Bool
produces_one tasks kind [] dep = false
produces_one tasks kind (table ∷ tables) dep =
    is_producer tasks kind (writer_of table (tasks_snapshot tasks)) dep
    || produces_one tasks kind tables dep

claim_table :
    (x name table : String) (p : Dict String)
    → lookup x (if has_key table p then p else insert table name p)
      ≡ or_else (lookup x p) (if str_eq table x then some name else none)
claim_table x name table p = elim (Option-cases (lookup table p)) [
  | inl e ↦ rw (ap found e) (ground (arith, lookup-insert table x name p, eq_iff table x, e))
  | inr (v, e) ↦ rw (ap found e) (ground (arith, eq_iff table x, e))
]

or_else_assoc : (a b c : Option String) → or_else (or_else a b) c ≡ or_else a (or_else b c)
or_else_assoc none b c = refl
or_else_assoc (some v) b c = refl

or_else-none : (a : Option String) → a ≡ or_else a none
or_else-none none = refl
or_else-none (some v) = refl

lookup-claim_tables :
    (x name : String) (tables : List String) (p : Dict String)
    → lookup x (claim_tables name tables p)
      ≡ or_else (lookup x p) (if is_in x tables then some name else none)
unfolding claim_tables is_in
lookup-claim_tables x name [] p = or_else-none (lookup x p)
lookup-claim_tables x name (table ∷ tables) p =
    let q = if has_key table p then p else insert table name p in
    ground (arith, lookup-claim_tables x name tables q, claim_table x name table p)

lookup-first_writers :
    (x : String) (tasks : List BaseTask) (p : Dict String)
    → lookup x (first_writers tasks p) ≡ or_else (lookup x p) (writer_of x tasks)
unfolding first_writers writer_of
lookup-first_writers x [] p = or_else-none (lookup x p)
lookup-first_writers x (task ∷ tasks) p =
    let q = claim_tables task.name task.writes p in
    ground (arith, lookup-first_writers x tasks q, lookup-claim_tables x task.name task.writes p)

writer-lookup :
    (x : String) (tasks : List BaseTask) → lookup x (first_writers tasks []) ≡ writer_of x tasks
unfolding lookup
writer-lookup x tasks = lookup-first_writers x tasks []

is_in-add_dep :
    (tasks : Tasks) (kind : String) (o : Option String) (deps : List String) (dep : String)
    → is_in dep (add_dep tasks kind o deps) ≡ (is_in dep deps || is_producer tasks kind o dep)
is_in-add_dep tasks kind none deps dep = ground arith
is_in-add_dep tasks kind (some name) deps dep =
    ground (arith, is_in-add name dep deps, eq_iff name dep)

is_in-same_kind_deps :
    (tasks : Tasks) (kind : String) (tables deps : List String) (dep : String)
    → is_in dep (same_kind_deps tasks (first_writers (tasks_snapshot tasks) []) kind tables deps)
      ≡ (is_in dep deps || produces_one tasks kind tables dep)
unfolding same_kind_deps produces_one
is_in-same_kind_deps tasks kind [] deps dep = ground arith
is_in-same_kind_deps tasks kind (table ∷ tables) deps dep =
    let all = tasks_snapshot tasks in
    let first = lookup table (first_writers all []) in
    rw (writer-lookup table all) (
      ground (
        arith,
        is_in-same_kind_deps tasks kind tables (add_dep tasks kind (writer_of table all) deps) dep,
        is_in-add_dep tasks kind (writer_of table all) deps dep,
      ))

if-other {ℓ} :
    {A : Type ℓ} (b : Bool) (x : A) (o : Option A) → b ≡ false → (if b then some x else o) ≡ o
if-other true x o h = absurd (ground arith)
if-other false x o h = refl

if-same {ℓ} :
    {A : Type ℓ} (b : Bool) (x : A) (o : Option A) → b ≡ true → (if b then some x else o) ≡ some x
if-same true x o h = refl
if-same false x o h = absurd (ground arith)

place-other :
    (kind : Bool) (name other : String) (deps : List String) (g : Graph)
    → str_eq other name ≡ false
    → lookup name (place kind other deps g).upstream ≡ lookup name g.upstream
place-other true name other deps g h = refl
place-other false name other deps g h =
    lookup-insert other name deps g.upstream
    ∙ if-other (str_eq other name) deps (lookup name g.upstream) h

place-same :
    (kind : Bool) (name : String) (deps : List String) (g : Graph)
    → kind ≡ false
    → lookup name (place kind name deps g).upstream ≡ some deps
place-same true name deps g h = absurd (ground arith)
place-same false name deps g h =
    lookup-insert name name deps g.upstream
    ∙ if-same (str_eq name name) deps (lookup name g.upstream) ((eq_iff name name).1 refl)

-- A task with another name does not change what the graph says of a name.
link-other :
    (tasks : Tasks) (p : Dict String) (rest : List BaseTask) (g : Graph) (name : String)
    → named name rest ≡ false
    → lookup name (link tasks p rest g).upstream ≡ lookup name g.upstream
unfolding link named
link-other tasks p [] g name h = refl
link-other tasks p (task ∷ rest) g name h =
    link-other tasks p rest (link_task tasks p task g) name (ground arith)
    ∙ place-other (on_event task) name task.name (deps_of tasks p task) g (ground arith)

link-task :
    (tasks : Tasks) (p : Dict String) (before after : List BaseTask) (task : BaseTask) (g : Graph)
    → on_event task ≡ false
    → named task.name after ≡ false
    → lookup task.name (link tasks p (before ++ task ∷ after) g).upstream
      ≡ some (deps_of tasks p task)
unfolding link
link-task tasks p [] after task g e h =
    link-other tasks p after (link_task tasks p task g) task.name h
    ∙ place-same (on_event task) task.name (deps_of tasks p task) g e
link-task tasks p (t ∷ before) after task g e h =
    link-task tasks p before after task (link_task tasks p t g) e h

-- What a path task depends on in the graph: a name is among its upstream tasks exactly when it is
-- the first of the registered tasks that writes one of the tables that the task reads, and that
-- task has the same trigger; for a task that no later one in the registry shares its name with.
pub build_graph-upstream :
    (tasks : Tasks) (before after : List BaseTask) (task : BaseTask) (dep : String)
    → tasks_snapshot tasks ≡ before ++ task ∷ after
    → on_event task ≡ false
    → named task.name after ≡ false
    → is_in dep (upstream_of (build_graph tasks) task)
      ≡ produces_one tasks task.trigger task.reads dep
unfolding build_graph is_in
build_graph-upstream tasks before after task dep s e h =
    let all = tasks_snapshot tasks in
    let p = first_writers all [] in
    let g : Graph = record { table_producers = p; upstream = []; event_upstream = [] } in
    ap (λ ts. is_in dep (names_in (lookup task.name (link tasks p ts g).upstream))) s
    ∙ ap (λ o. is_in dep (names_in o)) (link-task tasks p before after task g e h)
    ∙ is_in-same_kind_deps tasks task.trigger task.reads [] dep
