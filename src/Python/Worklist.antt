-- ===== src/Python/Worklist.antt =====
-- A search that keeps the names it has found and a frontier of those it has still to visit.
use second_brain_art.Common.{◌≡◌, Bool, false, not, ◌&&◌, ◌||◌, List, String, arith}
use second_brain_art.Python.Sets.{is_in}

-- `s` grew to `t` by the names that satisfy `new`, the new ones being on the frontier as well.
pub record Grows (new : String → Bool) (s t : List String × List String) : Type 0 where
  pub found : (x : String) → is_in x t.0 ≡ (is_in x s.0 || new x)
  pub queued : (x : String) → is_in x t.1 ≡ (is_in x s.1 || (is_in x t.0 && not (is_in x s.0)))

pub Grows-none : (s : List String × List String) → Grows (λ x. false) s s
Grows-none s = record { found = λ x. ground arith; queued = λ x. ground arith }

pub Grows-both :
    (p q : String → Bool) (s t u : List String × List String)
    → Grows p s t
    → Grows q t u
    → Grows (λ x. p x || q x) s u
Grows-both p q s t u a b = record {
  found = λ x. ground (arith, a.found x, b.found x);
  queued = λ x. ground (arith, a.found x, b.found x, a.queued x, b.queued x);
}
