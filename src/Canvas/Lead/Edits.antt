-- ===== src/Canvas/Lead/Edits.antt =====
-- About the edits of canvas/canvas.py and the background at position 0.
use second_brain_art.Common.{
  ℕ, zero, suc, ◌≡◌, ◌<◌, negsuc, refl, Option, none, some, List, [], ◌∷◌, ◌++◌, String, ℤ, pos,
  true, false, length, get_elem?, Bool-cases, inl, inr, arith, in_range,
}
use second_brain_art.Python.{Value}
use second_brain_art.Canvas.Chain.{
  Heap, Layer, Canvas, Outcome, ok, raised, is_background, is_transform, push_chain_entry,
  replace_first, delete_entry, delete_in, relocate, displaces_lead, move_between, move_entry,
  control_of, control_at, apply_control, is_zero, reset,
}
use second_brain_art.Canvas.State.{CanvasState, Happening}
use second_brain_art.Canvas.Actions.{
  with_canvas, with_heap, Content, World, add_layer, push_layer, remove_at, move_from_to,
}
use second_brain_art.Canvas.Sound.{OnOk}
use second_brain_art.Canvas.Edits.{final}
use second_brain_art.Canvas.Lead.{IsLed, IsLedState, delete_at-IsLed, set-IsLed, place-IsLed}

pub led-canvas :
    (cs : CanvasState) (h : Heap) (c : Canvas)
    → IsLedState cs
    → IsLed c.layers
    → IsLedState (record cs { canvas = c; heap = h })
led-canvas cs h c s k = record { canvas = k; undo = s.undo; redo = s.redo }

led-with_canvas :
    (cs : CanvasState) (what : Happening) (o : Outcome Canvas)
    → IsLedState cs
    → OnOk (λ c. IsLed c.layers) o
    → IsLedState (final (with_canvas cs what o))
led-with_canvas cs what (ok c) s k = led-canvas cs cs.heap c s k
led-with_canvas cs what (raised e) s k = s

pub led-with_heap :
    (cs : CanvasState) (what : Happening) (o : Outcome (Heap × Canvas))
    → IsLedState cs
    → OnOk (λ p. IsLed p.1.layers) o
    → IsLedState (final (with_heap cs what o))
led-with_heap cs what (ok p) s k = led-canvas cs p.0 p.1 s k
led-with_heap cs what (raised e) s k = s

replace_first-IsLed :
    (ls : List Layer) (l : Layer) → is_background l.kind ≡ true → IsLed (replace_first ls l)
replace_first-IsLed [] l h = h
replace_first-IsLed (x ∷ xs) l h = h

append-IsLed : (ls : List Layer) (l : Layer) → (length ls ≡ 0 → ⊥) → IsLed ls → IsLed (ls ++ l ∷ [])
append-IsLed [] l n h = absurd (n refl)
append-IsLed (x ∷ xs) l n h = h

-- A transform goes on top of at least one layer.
abbrev pub HasBase : Value → List Layer → Type 0
HasBase kind ls = is_transform kind ≡ true → length ls ≡ 0 → ⊥

push-IsLed :
    (l : Layer) (c : Canvas)
    → HasBase l.kind c.layers
    → IsLed c.layers
    → OnOk (λ c'. IsLed c'.layers) (push_chain_entry l c)
unfolding push_chain_entry
push-IsLed l c n h = elim (Bool-cases (is_background l.kind)) [
  | inl e ↦ rw e (replace_first-IsLed c.layers l e)
  | inr e ↦ rw e (elim (Bool-cases (is_transform l.kind)) [
    | inl t ↦ rw t (append-IsLed c.layers l (n t) h)
    | inr t ↦ rw t tt
  ])
]

pub add_layer-IsLed :
    (w : World) (a : Content) (cs : CanvasState)
    → HasBase a.kind cs.canvas.layers
    → IsLedState cs
    → IsLedState (final (add_layer w a cs))
unfolding add_layer
add_layer-IsLed w a cs n s = ground (arith, pushed)
  where
    pushed : IsLedState (final (push_layer w a cs))
    pushed =
        led-with_canvas _ _ _ (led-canvas cs _ cs.canvas s s.canvas)
          (push-IsLed _ cs.canvas n s.canvas)

in_range-pos : (z : ℤ) (n : ℕ) (i : ℕ) → is_zero z ≡ false → in_range z n ≡ some i → 0 < i
in_range-pos (pos zero) n i e h = absurd (ground arith)
in_range-pos (pos (suc k)) n i e h = ground arith
in_range-pos (negsuc k) n i e h = cc

delete_entry-IsLed :
    (z : ℤ) (c : Canvas)
    → is_zero z ≡ false
    → IsLed c.layers
    → OnOk (λ c'. IsLed c'.layers) (delete_entry z c)
unfolding delete_entry
delete_entry-IsLed z c e h = at (in_range z (length c.layers)) refl
  where
    at :
        (o : Option ℕ)
        → in_range z (length c.layers) ≡ o
        → OnOk (λ c'. IsLed c'.layers) (delete_in z c o)
    at none k = tt
    at (some i) k = delete_at-IsLed c.layers i (in_range-pos z _ i e k) h

move_between-IsLed :
    (c : Canvas) (a b : Option ℕ)
    → IsLed c.layers
    → OnOk (λ c'. IsLed c'.layers) (move_between c a b)
unfolding relocate
move_between-IsLed c (some i) (some j) h = elim (Bool-cases (displaces_lead i j)) [
  | inl e ↦ rw e tt
  | inr e ↦ rw e (place-IsLed c.layers i j _ refl e h)
]
move_between-IsLed c (some i) none h = tt
move_between-IsLed c none b h = tt

pub apply_control-IsLed :
    (z : ℤ) (name : String) (v : Value) (h : Heap) (c : Canvas)
    → IsLed c.layers
    → OnOk (λ p. IsLed p.1.layers) (apply_control z name v h c)
unfolding apply_control
apply_control-IsLed z name v h c k = at (in_range z (length c.layers))
  where
    found :
        (i : ℕ) (o : Option Layer)
        → get_elem? c.layers i ≡ o
        → OnOk (λ p. IsLed p.1.layers) (control_of z i name v h c o)
    found i none e = tt
    found i (some step) e = set-IsLed c.layers i step _ e refl k

    at : (o : Option ℕ) → OnOk (λ p. IsLed p.1.layers) (control_at z name v h c o)
    at none = tt
    at (some i) = found i (get_elem? c.layers i) refl

pub remove_at-IsLed :
    (cs : CanvasState) (o : Option ℤ) → IsLedState cs → IsLedState (final (remove_at cs o))
unfolding reset
remove_at-IsLed cs none s = s
remove_at-IsLed cs (some z) s = elim (Bool-cases (is_zero z)) [
  | inl e ↦ rw e (led-canvas cs cs.heap _ s tt)
  | inr e ↦ rw e (led-with_canvas cs _ _ s (delete_entry-IsLed z cs.canvas e s.canvas))
]

pub move_from_to-IsLed :
    (cs : CanvasState) (a b : Option ℤ) → IsLedState cs → IsLedState (final (move_from_to cs a b))
unfolding move_entry
move_from_to-IsLed cs (some i) (some j) s = led-with_canvas cs _ _ s (
    move_between-IsLed cs.canvas (in_range i (length cs.canvas.layers))
      (in_range j (length cs.canvas.layers)) s.canvas)
move_from_to-IsLed cs (some i) none s = s
move_from_to-IsLed cs none b s = s
