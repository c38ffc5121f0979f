-- ===== src/Pipeline/Queue/Claimed.antt =====
-- How much work `Database.claim_tasks` of pipeline/database.py claims, and what it leaves
-- behind.
use mathlib.Core.Path.{subst}
use mathlib.Core.List.{Memᴰ}
use mathlib.Core.List.Memᴰ
use second_brain_art.Common.{
  ℕ, zero, suc, ◌+◌, ◌≡◌, ◌≤◌, ◌<◌, ◌⊎◌, ltb, refl, sym, ap, ◌∙◌, min, Bool, true, false, List, [],
  ◌∷◌, map, inl, inr, String, eq_iff, arith, Bool-cases, length, take, All,
}
use second_brain_art.Python.Sets.{is_in}
use second_brain_art.Pipeline.Rows.{TaskRow, update_where, select_where, count_where}
use second_brain_art.Pipeline.Queue.{
  claim_tasks, before, insert_row, order_rows, first_waiting, waiting, picked, started, path_of,
}
use second_brain_art.Pipeline.Queue.Steps.{KeysOnce}
use second_brain_art.Pipeline.Queue.Claim.{
  Ordered, Ordered-order_rows, count-order_rows, count-take, count-select, waits-rows_at, at_path,
  waits_at, length-select, length-count, length-take-min,
}

-- One more path to pick: the rows at it and the rows at the others.
count-picked :
    (task_name path : String) (paths : List String) (q : List TaskRow)
    → is_in path paths ≡ false
    → count_where (picked task_name (path ∷ paths)) q
      ≡ count_where (waits_at task_name path) q + count_where (picked task_name paths) q
unfolding count_where is_in
count-picked task_name path paths [] h = refl
count-picked task_name path paths (r ∷ rs) h =
    ground (arith, count-picked task_name path paths rs, eq_iff path r.path, eq_iff r.path path)

count-none : (task_name : String) (q : List TaskRow) → count_where (picked task_name []) q ≡ 0
unfolding count_where is_in
count-none task_name [] = refl
count-none task_name (r ∷ rs) = ground (arith, count-none task_name rs)

not_in-paths :
    (path : String) (rs : List TaskRow)
    → count_where (at_path path) rs ≡ 0
    → is_in path (map path_of rs) ≡ false
unfolding count_where is_in
not_in-paths path [] h = refl
not_in-paths path (r ∷ rs) h = ground (arith, not_in-paths path rs)

-- Rows with different paths, each path standing for one row that waits, pick just as many.
count-rows :
    (task_name : String) (q rs : List TaskRow)
    → ((path : String) → count_where (at_path path) rs ≤ count_where (waits_at task_name path) q)
    → ((path : String) → count_where (waits_at task_name path) q ≤ 1)
    → count_where (picked task_name (map path_of rs)) q ≡ length rs
unfolding count_where
count-rows task_name q [] le one = count-none task_name q
count-rows task_name q (r ∷ rs) le one =
    let here = le r.path in
    let most = one r.path in
    let fresh = not_in-paths r.path rs (ground (arith, here, most, eq_iff r.path r.path)) in
    let others = count-rows task_name q rs (λ path. ground (arith, le path)) one in
    ground (
      arith,
      count-picked task_name r.path (map path_of rs) q fresh,
      others,
      here,
      most,
      eq_iff r.path r.path,
    )

count-left :
    (now : ℕ) (task_name : String) (paths : List String) (q : List TaskRow)
    → count_where (waiting task_name) (update_where (picked task_name paths) (started now) q)
        + count_where (picked task_name paths) q
      ≡ count_where (waiting task_name) q
unfolding count_where update_where
count-left now task_name paths [] = refl
count-left now task_name paths (r ∷ rs) = ground (arith, count-left now task_name paths rs)

first_waiting-le :
    (task_name : String) (n : ℕ) (q : List TaskRow) (path : String)
    → count_where (at_path path) (first_waiting task_name n q)
      ≤ count_where (waits_at task_name path) q
unfolding first_waiting
first_waiting-le task_name n q path =
    let chosen = select_where (waiting task_name) q in
    omega (
      arith,
      count-take (at_path path) n (order_rows chosen),
      count-order_rows (at_path path) chosen,
      count-select task_name path q,
    )

length-first_waiting :
    (task_name : String) (n : ℕ) (q : List TaskRow)
    → length (first_waiting task_name n q) ≡ min n (count_where (waiting task_name) q)
unfolding first_waiting
length-first_waiting task_name n q =
    let chosen = select_where (waiting task_name) q in
    omega (
      arith,
      length-take-min n (order_rows chosen),
      length-count (order_rows chosen),
      count-order_rows (λ r. true) chosen,
      length-count chosen,
      length-select (waiting task_name) q,
    )

length-map : (rs : List TaskRow) → length (map path_of rs) ≡ length rs
length-map [] = refl
length-map (r ∷ rs) = ap suc (length-map rs)

-- `claim_tasks` claims `batch_size` rows of the task, or all that wait when there are fewer, and
-- each of them stops waiting, when no two rows have the same path and task.
pub claim_tasks-count :
    (now : ℕ) (task_name : String) (n : ℕ) (q : List TaskRow)
    → KeysOnce q
    → (length (claim_tasks now task_name n q).0 ≡ min n (count_where (waiting task_name) q))
      × (count_where (waiting task_name) (claim_tasks now task_name n q).1
            + length (claim_tasks now task_name n q).0
          ≡ count_where (waiting task_name) q)
unfolding claim_tasks
claim_tasks-count now task_name n q h =
    let rows = first_waiting task_name n q in
    let paths = map path_of rows in
    let size =
      count-rows task_name q rows (first_waiting-le task_name n q)
        (λ path. omega (arith, waits-rows_at task_name path q, h.at_most_one path task_name)) in
    let chosen = select_where (picked task_name paths) q in
    (
      omega (
        arith,
        length-map chosen,
        length-select (picked task_name paths) q,
        size,
        length-first_waiting task_name n q,
      ),
      omega (
        arith,
        length-map chosen,
        length-select (picked task_name paths) q,
        count-left now task_name paths q,
      ),
    )

All-elim : (P : TaskRow → Type 0) (rs : List TaskRow) (r : TaskRow) → All P rs → Memᴰ r rs → P r
All-elim P [] r a m = absurd (Memᴰ.not-nil m)
All-elim P (x ∷ xs) r a (Memᴰ.head e) = subst P (sym e) a.0
All-elim P (x ∷ xs) r a (Memᴰ.tail m) = All-elim P xs r a.1 m

-- A row that is among the ones limited to, and a row that is not.
take-before :
    (n : ℕ) (rs : List TaskRow) (c r : TaskRow)
    → Ordered rs
    → Memᴰ c (take n rs)
    → Memᴰ r rs
    → is_in r.path (map path_of (take n rs)) ≡ false
    → before c r ≡ true
unfolding is_in
take-before zero rs c r o m k h = absurd (Memᴰ.not-nil m)
take-before (suc n) [] c r o m k h = absurd (Memᴰ.not-nil m)
take-before (suc n) (x ∷ xs) c r o m (Memᴰ.head e) h =
    absurd (ground (arith, eq_iff x.path r.path, ap path_of e))
take-before (suc n) (x ∷ xs) c r o (Memᴰ.head e) (Memᴰ.tail k) h =
    rw e (All-elim (λ s. before x s ≡ true) xs r o.0 k)
take-before (suc n) (x ∷ xs) c r o (Memᴰ.tail m) (Memᴰ.tail k) h =
    take-before n xs c r o.1 m k (ground arith)

Memᴰ-insert : (r s : TaskRow) (rs : List TaskRow) → Memᴰ r (s ∷ rs) → Memᴰ r (insert_row s rs)
unfolding insert_row
Memᴰ-insert r s [] m = m
Memᴰ-insert r s (x ∷ xs) m =
    let later : Memᴰ r (x ∷ insert_row s xs) = elim m [
      | Memᴰ.head e ↦ Memᴰ.tail (Memᴰ-insert r s xs (Memᴰ.head e))
      | Memᴰ.tail (Memᴰ.head e) ↦ Memᴰ.head e
      | Memᴰ.tail (Memᴰ.tail k) ↦ Memᴰ.tail (Memᴰ-insert r s xs (Memᴰ.tail k))
    ] in
    elim (Bool-cases (before s x)) [ inl b ↦ rw b m | inr b ↦ rw b later ]

Memᴰ-order_rows : (r : TaskRow) (rs : List TaskRow) → Memᴰ r rs → Memᴰ r (order_rows rs)
unfolding order_rows
Memᴰ-order_rows r [] m = absurd (Memᴰ.not-nil m)
Memᴰ-order_rows r (x ∷ xs) (Memᴰ.head e) = Memᴰ-insert r x (order_rows xs) (Memᴰ.head e)
Memᴰ-order_rows r (x ∷ xs) (Memᴰ.tail m) =
    Memᴰ-insert r x (order_rows xs) (Memᴰ.tail (Memᴰ-order_rows r xs m))

Memᴰ-select :
    (p : TaskRow → Bool) (r : TaskRow) (rs : List TaskRow)
    → p r ≡ true
    → Memᴰ r rs
    → Memᴰ r (select_where p rs)
unfolding select_where
Memᴰ-select p r [] h m = absurd (Memᴰ.not-nil m)
Memᴰ-select p r (x ∷ xs) h (Memᴰ.head e) = rw (ap p (sym e) ∙ h) (Memᴰ.head e)
Memᴰ-select p r (x ∷ xs) h (Memᴰ.tail m) = elim (Bool-cases (p x)) [
  | inl b ↦ rw b (Memᴰ.tail (Memᴰ-select p r xs h m))
  | inr b ↦ rw b (Memᴰ-select p r xs h m)
]

-- The order of the rows: first the higher priority, then the older row.
before-older :
    (c r : TaskRow)
    → before c r ≡ true
    → (r.priority < c.priority) ⊎ ((c.priority ≡ r.priority) × (c.created_at ≤ r.created_at))
unfolding before
before-older c r b = elim (Bool-cases (ltb r.priority c.priority)) [
  | inl more ↦ inl (ground arith)
  | inr less ↦ inr (ground arith, ground arith)
]

-- Nothing better is left: a row that `claim_tasks` limits itself to has a higher priority than every
-- row of the queue that waits for the task at a path that was not picked, or the same priority and is
-- no younger.
pub claim_tasks-before :
    (task_name : String) (n : ℕ) (q : List TaskRow) (c r : TaskRow)
    → Memᴰ c (first_waiting task_name n q)
    → Memᴰ r q
    → waiting task_name r ≡ true
    → is_in r.path (map path_of (first_waiting task_name n q)) ≡ false
    → (r.priority < c.priority) ⊎ ((c.priority ≡ r.priority) × (c.created_at ≤ r.created_at))
unfolding first_waiting
claim_tasks-before task_name n q c r m k w h =
    let chosen = select_where (waiting task_name) q in
    before-older c r (
      take-before n (order_rows chosen) c r (Ordered-order_rows chosen) m
        (Memᴰ-order_rows r chosen (Memᴰ-select (waiting task_name) r q w k)) h)
