-- ===== src/Pipeline/Queue/Claim.antt =====
-- Which rows `Database.claim_tasks` of pipeline/database.py takes from the queue: how many, and in
-- which order of priority and age.
use second_brain_art.Common.{
  ℕ, zero, suc, ◌≡◌, ◌≤◌, refl, min, Bool, true, false, ◌&&◌, List, [], ◌∷◌, inl, inr, String,
  str_eq, arith, Bool-cases, length, take, All,
}
use second_brain_art.Pipeline.Rows.{TaskRow, select_where, count_where}
use second_brain_art.Pipeline.Queue.{before, insert_row, order_rows, waiting}
use second_brain_art.Pipeline.Queue.Steps.{rows_at}

-- Each row may come before all that follow it.
abbrev pub Ordered : List TaskRow → Type 0
Ordered [] = Unit
Ordered (r ∷ rs) = All (λ s. before r s ≡ true) rs × Ordered rs

before-total : (r s : TaskRow) → before r s ≡ false → before s r ≡ true
unfolding before
before-total r s h = ground arith

before_trans : (r s t : TaskRow) → before r s ≡ true → before s t ≡ true → before r t ≡ true
unfolding before
before_trans r s t h k = ground arith

before-All :
    (r s : TaskRow) (rs : List TaskRow)
    → before r s ≡ true
    → All (λ t. before s t ≡ true) rs
    → All (λ t. before r t ≡ true) rs
before-All r s [] h a = tt
before-All r s (t ∷ ts) h a = (before_trans r s t h a.0, before-All r s ts h a.1)

All-insert :
    (x r : TaskRow) (rs : List TaskRow)
    → before x r ≡ true
    → All (λ t. before x t ≡ true) rs
    → All (λ t. before x t ≡ true) (insert_row r rs)
unfolding insert_row
All-insert x r [] h a = (h, tt)
All-insert x r (s ∷ ss) h a = elim (Bool-cases (before r s)) [
  | inl b ↦ rw b (h, a)
  | inr b ↦ rw b (a.0, All-insert x r ss h a.1)
]

Ordered-insert : (r : TaskRow) (rs : List TaskRow) → Ordered rs → Ordered (insert_row r rs)
unfolding insert_row
Ordered-insert r [] o = (tt, tt)
Ordered-insert r (s ∷ ss) o = elim (Bool-cases (before r s)) [
  | inl b ↦ rw b ((b, before-All r s ss b o.0), o)
  | inr b ↦ rw b (All-insert s r ss (before-total r s b) o.0, Ordered-insert r ss o.1)
]

pub Ordered-order_rows : (rs : List TaskRow) → Ordered (order_rows rs)
unfolding order_rows
Ordered-order_rows [] = tt
Ordered-order_rows (r ∷ rs) = Ordered-insert r (order_rows rs) (Ordered-order_rows rs)

-- Sorting and limiting keep counts.
count-insert :
    (p : TaskRow → Bool) (r : TaskRow) (rs : List TaskRow)
    → count_where p (insert_row r rs) ≡ count_where p (r ∷ rs)
unfolding insert_row count_where
count-insert p r [] = refl
count-insert p r (s ∷ ss) = ground (arith, count-insert p r ss)

pub count-order_rows :
    (p : TaskRow → Bool) (rs : List TaskRow) → count_where p (order_rows rs) ≡ count_where p rs
unfolding order_rows count_where
count-order_rows p [] = refl
count-order_rows p (r ∷ rs) =
    ground (arith, count-insert p r (order_rows rs), count-order_rows p rs)

pub count-take :
    (p : TaskRow → Bool) (n : ℕ) (rs : List TaskRow) → count_where p (take n rs) ≤ count_where p rs
unfolding count_where
count-take p zero rs = omega arith
count-take p (suc n) [] = omega arith
count-take p (suc n) (r ∷ rs) = ground (arith, count-take p n rs)

pub length-count : (rs : List TaskRow) → length rs ≡ count_where (λ r. true) rs
unfolding count_where
length-count [] = refl
length-count (r ∷ rs) = omega (arith, length-count rs)

pub length-take-min : (n : ℕ) (rs : List TaskRow) → length (take n rs) ≡ min n (length rs)
length-take-min zero rs = omega arith
length-take-min (suc n) [] = omega arith
length-take-min (suc n) (r ∷ rs) = omega (arith, length-take-min n rs)

pub length-select :
    (p : TaskRow → Bool) (rs : List TaskRow) → length (select_where p rs) ≡ count_where p rs
unfolding select_where count_where
length-select p [] = refl
length-select p (r ∷ rs) = ground (arith, length-select p rs)

-- A row of the task at a path, waiting or not.
abbrev pub at_path : String → TaskRow → Bool
at_path path r = str_eq r.path path

abbrev pub waits_at : String → String → TaskRow → Bool
waits_at task_name path r = waiting task_name r && str_eq r.path path

pub count-select :
    (task_name path : String) (rs : List TaskRow)
    → count_where (at_path path) (select_where (waiting task_name) rs)
      ≡ count_where (waits_at task_name path) rs
unfolding select_where count_where
count-select task_name path [] = refl
count-select task_name path (r ∷ rs) = elim (Bool-cases (waiting task_name r)) [
  | inl w ↦ rw w (ground (arith, count-select task_name path rs))
  | inr w ↦ rw w (count-select task_name path rs)
]

pub waits-rows_at :
    (task_name path : String) (q : List TaskRow)
    → count_where (waits_at task_name path) q ≤ rows_at path task_name q
unfolding count_where
waits-rows_at task_name path [] = omega arith
waits-rows_at task_name path (r ∷ rs) = ground (arith, waits-rows_at task_name path rs)
