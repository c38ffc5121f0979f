-- ===== src/Canvas/Layers.antt =====
-- `Canvas.apply_control`, the cap of `CanvasAddLayer`, and the long edge of `CanvasSetAspect`.
use second_brain_art.Common.{
  ℕ, zero, suc, ◌≤◌, ◌<◌, ◌≡◌, ◌≢◌, refl, ap, some, List, [], ◌∷◌, String, str_eq, ℤ, pos, negsuc,
  true, false, ◌&&◌, if◌then◌else◌, length, get_elem?, set, get_or-append, get_or-length,
  length-append, arith,
}
use second_brain_art.Python.{Value}
use second_brain_art.Python.Dict.{lookup, insert, lookup-insert}
use second_brain_art.Canvas.Chain.{
  Heap, Layer, Canvas, ok, deref, controls_of, alloc, apply_control, push_chain_entry,
  replace_first, size,
}
use second_brain_art.Canvas.State.{CanvasState}
use second_brain_art.Canvas.Actions.{
  Floats, Content, World, Run, done, stopped, add_layer, layer_cap,
}
use second_brain_art.Canvas.Edits.{final}

module _ {ℓ} {A : Type ℓ} where
  get_elem?-set_self :
      (xs : List A) (i : ℕ) (x v : A) → get_elem? xs i ≡ some x → get_elem? (set xs i v) i ≡ some v
  get_elem?-set_self [] i x v e = cc
  get_elem?-set_self (y ∷ ys) zero x v e = refl
  get_elem?-set_self (y ∷ ys) (suc i) x v e = get_elem?-set_self ys i x v e

  get_elem?-set_ne :
      (xs : List A) (i j : ℕ) (v : A) → i ≢ j → get_elem? (set xs i v) j ≡ get_elem? xs j
  get_elem?-set_ne [] i j v n = refl
  get_elem?-set_ne (y ∷ ys) zero zero v n = absurd (n refl)
  get_elem?-set_ne (y ∷ ys) zero (suc j) v n = refl
  get_elem?-set_ne (y ∷ ys) (suc i) zero v n = refl
  get_elem?-set_ne (y ∷ ys) (suc i) (suc j) v n = get_elem?-set_ne ys i j v (λ e. n (ap suc e))

  get_elem?-lt : (xs : List A) (i : ℕ) (x : A) → get_elem? xs i ≡ some x → i < length xs
  get_elem?-lt [] i x e = cc
  get_elem?-lt (y ∷ ys) zero x e = omega arith
  get_elem?-lt (y ∷ ys) (suc i) x e = omega (arith, get_elem?-lt ys i x e)

-- What `apply_control` gives at the layer `i`, seen at another layer `j`, an object `r` that was
-- there, and a control `k`.
pub record Controlled (i j r : ℕ) (name k : String) (v : Value) (h h' : Heap) (c c' : Canvas)
    (old : Layer) : Type 0 where
  pub layer : Layer
  pub found : get_elem? c'.layers i ≡ some layer
  pub identity : layer.id ≡ old.id
  pub written :
      lookup k (controls_of h' layer)
      ≡ (if str_eq name k then some v else lookup k (controls_of h old))
  pub others : get_elem? c'.layers j ≡ get_elem? c.layers j
  pub objects : deref h' r ≡ deref h r
  pub palette : c'.palette_id ≡ c.palette_id

-- Setting a control of the layer at `i` succeeds. That layer keeps its id and has the value at the
-- control's name and its old values elsewhere; no other layer, no existing controls object and not
-- the canvas palette change, so that no other holder of the layer sees the edit.
pub apply_control-Controlled :
    (i j r : ℕ) (name k : String) (v : Value) (h : Heap) (c : Canvas) (old : Layer)
    → get_elem? c.layers i ≡ some old
    → i ≢ j
    → r < length h
    → (h' : Heap) × (c' : Canvas) × (apply_control (pos i) name v h c ≡ ok (h', c'))
      × Controlled i j r name k v h h' c c' old
unfolding apply_control
apply_control-Controlled i j r name k v h c old e n lt = (
  alloc h (insert name v (controls_of h old)),
  record c { layers = set c.layers i (record old { controls = some (length h) }) },
  ground (arith, get_elem?-lt c.layers i old e),
  record {
    layer = record old { controls = some (length h) };
    found = get_elem?-set_self c.layers i old _ e;
    identity = refl;
    written = rw (get_or-length h [] (insert name v (controls_of h old)) []) (rw lookup-insert);
    others = get_elem?-set_ne c.layers i j _ n;
    objects = get_or-append h _ r [] lt;
    palette = refl;
  },
)

layer_cap-pos : (v : Value) (n : ℕ) → layer_cap v ≡ ok n → 0 < n
unfolding layer_cap
layer_cap-pos v n e = ground arith

length-replace_first :
    (ls : List Layer) (l : Layer) (n : ℕ) → length ls ≤ n → 0 < n → length (replace_first ls l) ≤ n
length-replace_first [] l n h p = omega arith
length-replace_first (x ∷ xs) l n h p = omega arith

abbrev new_layer : World → Content → CanvasState → Layer
new_layer w a cs = record {
  id = some (w.fresh 0);
  slug = a.technique_slug;
  kind = a.kind;
  controls = some (length cs.heap);
}

-- `add_layer` keeps the chain within the cap that its payload gives, whatever it adds.
pub add_layer-within :
    (w : World) (a : Content) (cs : CanvasState) (n : ℕ)
    → layer_cap a.max_layers ≡ ok n
    → length cs.canvas.layers ≤ n
    → length (final (add_layer w a cs)).canvas.layers ≤ n
unfolding add_layer push_chain_entry
add_layer-within w a cs n e h = ground (
  arith,
  length-append {0} cs.canvas.layers (new_layer w a cs ∷ []),
  length-replace_first cs.canvas.layers (new_layer w a cs) n h (layer_cap-pos a.max_layers n e),
)

-- `z` is at most `n`.
abbrev pub AtMost : ℤ → ℕ → Type 0
AtMost (pos m) n = m ≤ n
AtMost (negsuc m) n = Unit

-- Rounding a length times a quotient of positive floats that is at most 1 gives at most the length.
pub record IsRounding (f : Floats) : Type 0 where
  pub tall :
      (base : ℕ) (x y z : ℤ)
      → (f.is_positive x && f.is_positive y) ≡ true
      → f.ge x y ≡ true
      → f.round_scaled base y x ≡ some z
      → AtMost z base
  pub wide :
      (base : ℕ) (x y z : ℤ)
      → (f.is_positive x && f.is_positive y) ≡ true
      → f.ge x y ≡ false
      → f.round_scaled base x y ≡ some z
      → AtMost z base

abbrev OnDone : (CanvasState → Type 0) → Run → Type 0
OnDone P (done cs what) = P cs
OnDone P (stopped cs f) = Unit

abbrev SameSize : CanvasState → CanvasState → Type 0
SameSize cs cs' = size cs'.canvas ≡ size cs.canvas
