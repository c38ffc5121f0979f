-- ===== src/Canvas/Sound.antt =====
-- Well-formed canvases under the mutations of canvas/canvas.py.
use second_brain_art.Common.{
  ℕ, suc, ◌≤◌, ◌≡◌, refl, Option, none, some, List, [], ◌∷◌, String, ℤ, in_range, length, get_elem?,
  set, All, All-append, All-set, arith, Bool-cases, inl, inr,
}
use second_brain_art.Python.{Value}
use second_brain_art.Python.Dict.{insert}
use second_brain_art.Canvas.Chain.{
  delete_in, control_of, controls_of, place, replace_first, Heap, Controls, Layer, Canvas, Outcome,
  ok, raised, alloc, control_at, is_background, is_transform, move_between, displaces_lead,
  apply_control, delete_at, delete_entry, relocate, move_entry, push_chain_entry, set_size,
  set_dimensions, reset,
}
use second_brain_art.Canvas.Wellformed.{
  IsSoundLayer, IsSoundCanvas, layers_mono, clamp-IsSize, length-alloc, All-delete_at,
  All-insert_at, All-get_elem?,
}

-- What an outcome must satisfy where it is a value.
abbrev pub OnOk {ℓ} : {A : Type ℓ} → (A → Type 0) → Outcome A → Type 0
OnOk P (ok a) = P a
OnOk P (raised e) = Unit

abbrev pub IsSoundPair : Heap × Canvas → Type 0
IsSoundPair p = IsSoundCanvas (length p.0) p.1

-- A layer whose controls were copied to a new object.
write_sound :
    (h : Heap) (c : Canvas) (i : ℕ) (step : Layer) (d : Controls)
    → IsSoundCanvas (length h) c
    → get_elem? c.layers i ≡ some step
    → IsSoundPair (
      alloc h d,
      record c { layers = set c.layers i (record step { controls = some (length h) }) },
    )
write_sound h c i step d s e = rw length-alloc (record {
  width = s.width;
  height = s.height;
  palette = s.palette;
  layers =
      All-set (IsSoundLayer (suc (length h))) c.layers i _
        (layers_mono (length h) (suc (length h)) c.layers (omega arith) s.layers)
        ((All-get_elem? (IsSoundLayer (length h)) c.layers i step s.layers e).0, omega arith);
})

control_of_sound :
    (z : ℤ) (i : ℕ) (name : String) (v : Value) (h : Heap) (c : Canvas) (o : Option Layer)
    → IsSoundCanvas (length h) c
    → get_elem? c.layers i ≡ o
    → OnOk IsSoundPair (control_of z i name v h c o)
control_of_sound z i name v h c none s e = tt
control_of_sound z i name v h c (some step) s e = write_sound h c i step _ s e

control_at_sound :
    (z : ℤ) (name : String) (v : Value) (h : Heap) (c : Canvas) (o : Option ℕ)
    → IsSoundCanvas (length h) c
    → OnOk IsSoundPair (control_at z name v h c o)
control_at_sound z name v h c none s = tt
control_at_sound z name v h c (some i) s = control_of_sound z i name v h c _ s refl

pub apply_control_sound :
    (z : ℤ) (name : String) (v : Value) (h : Heap) (c : Canvas)
    → IsSoundCanvas (length h) c
    → OnOk IsSoundPair (apply_control z name v h c)
unfolding apply_control
apply_control_sound z name v h c s = control_at_sound z name v h c (in_range z (length c.layers)) s

-- The heap does not shrink.
pub apply_control-grows :
    (z : ℤ) (name : String) (v : Value) (h : Heap) (c : Canvas)
    → OnOk (λ p. length h ≤ length p.0) (apply_control z name v h c)
unfolding apply_control
apply_control-grows z name v h c = at (in_range z (length c.layers))
  where
    found :
        (i : ℕ) (o : Option Layer) → OnOk (λ p. length h ≤ length p.0) (control_of z i name v h c o)
    found i none = tt
    found i (some step) = omega (arith, length-alloc h (insert name v (controls_of h step)))

    at : (o : Option ℕ) → OnOk (λ p. length h ≤ length p.0) (control_at z name v h c o)
    at none = tt
    at (some i) = found i (get_elem? c.layers i)

-- A canvas whose layers are others.
pub with_layers_sound :
    (n : ℕ) (c : Canvas) (ls : List Layer)
    → IsSoundCanvas n c
    → All (IsSoundLayer n) ls
    → IsSoundCanvas n (record c { layers = ls })
with_layers_sound n c ls s h = record {
  width = s.width;
  height = s.height;
  palette = s.palette;
  layers = h;
}

pub reset_sound : (n : ℕ) (c : Canvas) → IsSoundCanvas n c → IsSoundCanvas n (reset c)
unfolding reset
reset_sound n c s = with_layers_sound n c [] s tt

delete_in_sound :
    (n : ℕ) (z : ℤ) (c : Canvas) (o : Option ℕ)
    → IsSoundCanvas n c
    → OnOk (IsSoundCanvas n) (delete_in z c o)
delete_in_sound n z c none s = tt
delete_in_sound n z c (some i) s =
    with_layers_sound n c _ s (All-delete_at (IsSoundLayer n) c.layers i s.layers)

pub delete_entry_sound :
    (n : ℕ) (z : ℤ) (c : Canvas) → IsSoundCanvas n c → OnOk (IsSoundCanvas n) (delete_entry z c)
unfolding delete_entry
delete_entry_sound n z c s = delete_in_sound n z c (in_range z (length c.layers)) s

place_sound :
    (n : ℕ) (ls : List Layer) (i j : ℕ) (o : Option Layer)
    → All (IsSoundLayer n) ls
    → get_elem? ls i ≡ o
    → All (IsSoundLayer n) (place ls i j o)
place_sound n ls i j none h e = h
place_sound n ls i j (some step) h e =
    All-insert_at (IsSoundLayer n) (delete_at ls i) j step (All-delete_at (IsSoundLayer n) ls i h)
      (All-get_elem? (IsSoundLayer n) ls i step h e)

relocate_sound :
    (n : ℕ) (ls : List Layer) (i j : ℕ)
    → All (IsSoundLayer n) ls
    → All (IsSoundLayer n) (relocate ls i j)
unfolding relocate
relocate_sound n ls i j h = place_sound n ls i j (get_elem? ls i) h refl

move_between_sound :
    (n : ℕ) (c : Canvas) (a b : Option ℕ)
    → IsSoundCanvas n c
    → OnOk (IsSoundCanvas n) (move_between c a b)
move_between_sound n c (some i) (some j) s = elim (Bool-cases (displaces_lead i j)) [
  | inl e ↦ rw e tt
  | inr e ↦ rw e (with_layers_sound n c _ s (relocate_sound n c.layers i j s.layers))
]
move_between_sound n c (some i) none s = tt
move_between_sound n c none b s = tt

pub move_entry_sound :
    (n : ℕ) (i j : ℤ) (c : Canvas) → IsSoundCanvas n c → OnOk (IsSoundCanvas n) (move_entry i j c)
unfolding move_entry
move_entry_sound n i j c s =
    move_between_sound n c (in_range i (length c.layers)) (in_range j (length c.layers)) s

replace_first_sound :
    (n : ℕ) (ls : List Layer) (entry : Layer)
    → All (IsSoundLayer n) ls
    → IsSoundLayer n entry
    → All (IsSoundLayer n) (replace_first ls entry)
replace_first_sound n [] entry h k = (k, tt)
replace_first_sound n (l ∷ ls) entry h k = (k, h.1)

pub push_chain_entry_sound :
    (n : ℕ) (entry : Layer) (c : Canvas)
    → IsSoundCanvas n c
    → IsSoundLayer n entry
    → OnOk (IsSoundCanvas n) (push_chain_entry entry c)
unfolding push_chain_entry
push_chain_entry_sound n entry c s k = elim (Bool-cases (is_background entry.kind)) [
  | inl e ↦ rw e (with_layers_sound n c _ s (replace_first_sound n c.layers entry s.layers k))
  | inr e ↦ rw e (elim (Bool-cases (is_transform entry.kind)) [
    | inl f ↦ rw f (
        with_layers_sound n c _ s
          (All-append (IsSoundLayer n) c.layers (entry ∷ []) s.layers (k, tt)))
    | inr f ↦ rw f tt
  ])
]

pub set_dimensions_sound :
    (n : ℕ) (w h : ℤ) (c : Canvas) → IsSoundCanvas n c → IsSoundCanvas n (set_dimensions w h c)
unfolding set_dimensions
set_dimensions_sound n w h c s = record {
  width = clamp-IsSize w;
  height = clamp-IsSize h;
  palette = s.palette;
  layers = s.layers;
}

pub set_size_sound :
    (n : ℕ) (z : ℤ) (c : Canvas) → IsSoundCanvas n c → IsSoundCanvas n (set_size z c)
unfolding set_size set_dimensions
set_size_sound n z c s = set_dimensions_sound n z z c s
