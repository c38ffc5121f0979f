-- ===== src/Canvas/Order.antt =====
-- `Canvas.move_entry` of canvas/canvas.py: the order of the layers.
use mathlib.Core.List.{Perm}
use mathlib.Core.List.Perm
use second_brain_art.Common.{
  ℕ, zero, suc, ◌≤◌, ◌<◌, ◌≡◌, ◌⊎◌, refl, sym, ◌∙◌, some, List, [], ◌∷◌, ℤ, pos, negsuc, false,
  length, get_elem?, arith,
}
use second_brain_art.Canvas.Chain.{
  Layer, Canvas, ok, delete_at, insert_at, relocate, displaces_lead, move_entry,
}

module _ {ℓ} {A : Type ℓ} where
  insert_at-perm : (xs : List A) (j : ℕ) (y : A) → Perm (insert_at xs j y) (y ∷ xs)
  insert_at-perm xs zero y = Perm.refl (y ∷ xs)
  insert_at-perm [] (suc j) y = Perm.refl (y ∷ [])
  insert_at-perm (x ∷ xs) (suc j) y =
      Perm.trans (Perm.cons x (insert_at-perm xs j y)) (Perm.swap y x xs)

  delete_at-perm :
      (xs : List A) (i : ℕ) (y : A) → get_elem? xs i ≡ some y → Perm (y ∷ delete_at xs i) xs
  delete_at-perm [] i y e = cc
  delete_at-perm (x ∷ xs) zero y e = let q : y ≡ x = cc in rw q (Perm.refl (x ∷ xs))
  delete_at-perm (x ∷ xs) (suc i) y e =
      Perm.trans (Perm.swap x y (delete_at xs i)) (Perm.cons x (delete_at-perm xs i y e))

  length-delete_at :
      (xs : List A) (i : ℕ) → i < length xs → suc (length (delete_at xs i)) ≡ length xs
  length-delete_at [] i h = absurd (omega arith)
  length-delete_at (x ∷ xs) zero h = refl
  length-delete_at (x ∷ xs) (suc i) h = omega (arith, length-delete_at xs i (omega arith))

  get_elem?-insert_at :
      (xs : List A) (j : ℕ) (y : A) → j ≤ length xs → get_elem? (insert_at xs j y) j ≡ some y
  get_elem?-insert_at xs zero y h = refl
  get_elem?-insert_at [] (suc j) y h = absurd (omega arith)
  get_elem?-insert_at (x ∷ xs) (suc j) y h = get_elem?-insert_at xs j y (omega arith)

  insert_at-delete_at :
      (xs : List A) (i : ℕ) (y : A) → get_elem? xs i ≡ some y → insert_at (delete_at xs i) i y ≡ xs
  insert_at-delete_at [] i y e = cc
  insert_at-delete_at (x ∷ xs) zero y e = cc
  insert_at-delete_at (x ∷ xs) (suc i) y e = λ k. x ∷ insert_at-delete_at xs i y e k

  get_elem?-of_lt : (xs : List A) (i : ℕ) → i < length xs → (y : A) × (get_elem? xs i ≡ some y)
  get_elem?-of_lt [] i h = absurd (omega arith)
  get_elem?-of_lt (x ∷ xs) zero h = (x, refl)
  get_elem?-of_lt (x ∷ xs) (suc i) h = get_elem?-of_lt xs i (omega arith)

-- `to` is `from` with the layer at `i` moved to `j`.
pub record Moved (i j : ℕ) (from to : List Layer) : Type 0 where
  pub perm : Perm to from
  pub arrives : get_elem? to j ≡ get_elem? from i
  pub lead : get_elem? to zero ≡ get_elem? from zero

lead_kept :
    (ls : List Layer) (i j : ℕ) (step : Layer)
    → get_elem? ls i ≡ some step
    → displaces_lead i j ≡ false
    → get_elem? (insert_at (delete_at ls i) j step) zero ≡ get_elem? ls zero
lead_kept [] i j step e k = cc
lead_kept (x ∷ xs) zero zero step e k = sym e
lead_kept (x ∷ xs) zero (suc j) step e k = absurd (ground arith)
lead_kept (x ∷ xs) (suc i) zero step e k = absurd (ground arith)
lead_kept (x ∷ xs) (suc i) (suc j) step e k = refl

relocate-Moved :
    (ls : List Layer) (i j : ℕ)
    → i < length ls
    → j < length ls
    → displaces_lead i j ≡ false
    → Moved i j ls (relocate ls i j)
unfolding relocate
relocate-Moved ls i j hi hj k =
    let (step, e) = get_elem?-of_lt ls i hi in
    rw e (record {
      perm = Perm.trans (insert_at-perm (delete_at ls i) j step) (delete_at-perm ls i step e);
      arrives =
          get_elem?-insert_at (delete_at ls i) j step (omega (arith, length-delete_at ls i hi))
          ∙ sym e;
      lead = lead_kept ls i j step e k;
    })

-- A move within the chain that neither takes the background off position 0 nor puts a layer there
-- succeeds, and changes the layers only: they are the same up to order, the moved layer arrives at
-- its new position, and the layer at position 0 stays.
pub move_entry-Moved :
    (i j : ℕ) (c : Canvas)
    → i < length c.layers
    → j < length c.layers
    → displaces_lead i j ≡ false
    → (ls : List Layer) × (move_entry (pos i) (pos j) c ≡ ok (record c { layers = ls }))
      × Moved i j c.layers ls
unfolding move_entry
move_entry-Moved i j c hi hj k =
    (relocate c.layers i j, ground arith, relocate-Moved c.layers i j hi hj k)

-- A move that succeeds is within the chain, from and to, and does not concern position 0 unless it
-- moves a layer to where it is.
pub move_entry-ok :
    (y z : ℤ) (c c' : Canvas)
    → move_entry y z c ≡ ok c'
    → (i j : ℕ) × (y ≡ pos i)
      × (z ≡ pos j)
      × (i < length c.layers)
      × (j < length c.layers)
      × ((i ≡ j) ⊎ (0 < i) × (0 < j))
unfolding move_entry
move_entry-ok (pos i) (pos j) c c' e = (i, j, refl, refl, ground arith, ground arith, ground arith)
move_entry-ok (pos i) (negsuc j) c c' e = ground arith
move_entry-ok (negsuc i) z c c' e = cc
