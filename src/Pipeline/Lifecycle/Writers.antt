-- ===== src/Pipeline/Lifecycle/Writers.antt =====
-- The path tasks that write a table, as `_create_cascade_triggers` of pipeline/orchestrator.py counts
-- them.
use mathlib.Core.List.{Memᴰ}
use mathlib.Core.List.Memᴰ
use second_brain_art.Common.{
  ◌+◌, ◌≡◌, ◌≤◌, ◌∙◌, refl, sym, ap, true, false, ◌&&◌, List, [], ◌∷◌, ◌++◌, String, ltb,
  Bool-cases, inl, inr, arith,
}
use second_brain_art.Python.Sets.{is_in}
use second_brain_art.Pipeline.Tasks.{BaseTask, on_path}
use second_brain_art.Pipeline.Lifecycle.{mentions, writers}

pub is_in-mentions :
    (t : String) (tables : List String) → is_in t tables ≡ ltb 0 (mentions t tables)
unfolding is_in mentions
is_in-mentions t [] = ground arith
is_in-mentions t (x ∷ xs) = ground (arith, is_in-mentions t xs)

writers-append :
    (t : String) (xs ys : List BaseTask) → writers t (xs ++ ys) ≡ writers t xs + writers t ys
unfolding writers
writers-append t [] ys = omega arith
writers-append t (x ∷ xs) ys = ground (arith, writers-append t xs ys)

pub some-writers :
    (t : String) (task : BaseTask) (all : List BaseTask)
    → Memᴰ task all
    → on_path task ≡ true
    → is_in t task.writes ≡ true
    → 1 ≤ writers t all
unfolding writers
some-writers t task [] m p w = absurd (Memᴰ.not-nil m)
some-writers t task (x ∷ xs) (Memᴰ.head e) p w =
    let same_path = ap on_path (sym e) ∙ p in
    let same_writes = ap (λ u. is_in t u.writes) (sym e) ∙ w in
    ground (arith, same_path, same_writes, is_in-mentions t x.writes)
some-writers t task (x ∷ xs) (Memᴰ.tail m) p w = ground (arith, some-writers t task xs m p w)

pub writers-some :
    (t : String) (all : List BaseTask)
    → 1 ≤ writers t all
    → (task : BaseTask) × Memᴰ task all × (on_path task ≡ true) × (is_in t task.writes ≡ true)
unfolding writers
writers-some t [] h = absurd (ground arith)
writers-some t (x ∷ xs) h = elim (Bool-cases (on_path x && is_in t x.writes)) [
  | inl b ↦ (x, Memᴰ.head refl, ground (arith, b), ground (arith, b))
  | inr b ↦
      let (task, m, p, w) = writers-some t xs (ground (arith, b, is_in-mentions t x.writes)) in
      (task, Memᴰ.tail m, p, w)
]

pub no-writers :
    (t : String) (all : List BaseTask)
    → ((u : BaseTask) → Memᴰ u all → on_path u ≡ true → is_in t u.writes ≡ false)
    → writers t all ≡ 0
unfolding writers
no-writers t [] h = refl
no-writers t (x ∷ xs) h = ground (
  arith,
  h x (Memᴰ.head refl),
  is_in-mentions t x.writes,
  no-writers t xs (λ u m. h u (Memᴰ.tail m)),
)

pub writers-at :
    (t : String) (before : List BaseTask) (task : BaseTask) (after : List BaseTask)
    → on_path task ≡ true
    → writers t (before ++ task ∷ after)
      ≡ writers t before + (mentions t task.writes + writers t after)
unfolding writers
writers-at t before task after p = ground (arith, p, writers-append t before (task ∷ after))

-- A table that nothing in the list writes, by the count of its writers.
pub unwritten :
    (t : String) (all : List BaseTask) (u : BaseTask)
    → writers t all ≡ 0
    → Memᴰ u all
    → on_path u ≡ true
    → is_in t u.writes ≡ false
unwritten t all u z m p = elim (Bool-cases (is_in t u.writes)) [
  | inl b ↦ absurd (omega (arith, z, some-writers t u all m p b))
  | inr b ↦ b
]
