-- ===== src/Canvas/Edits.antt =====
-- The invariant of a canvas state, and the edits of layers of canvas/action.py.
use second_brain_art.Common.{
  ℕ, suc, ◌+◌, ◌≤◌, ◌≡◌, not, ◌||◌, Option, none, some, List, String, ℤ, leb, length, All, All-map,
  arith, Bool-cases, inl, inr,
}
use second_brain_art.Python.{Value, truthy}
use second_brain_art.Canvas.Chain.{
  recolour_all, Heap, Canvas, Outcome, ok, raised, apply_palette, apply_control, alloc, is_zero,
  is_background, is_transform,
}
use second_brain_art.Canvas.Restore.{to_dict}
use second_brain_art.Canvas.State.{
  Snapshot, CanvasState, Happening, history_limit, undo_limit, layer_added,
}
use second_brain_art.Canvas.Actions.{
  Content, World, Run, done, stopped, with_canvas, with_heap, push_layer, push_within, or_empty,
  add_layer, remove_at, move_from_to, set_control_at, layer_cap,
}
use second_brain_art.Canvas.Wellformed.{
  IsSoundCanvas, IsSoundCanvas-mono, IsFilled, apply_palette_sound, length-alloc,
  length-recolour_all,
}
use second_brain_art.Canvas.Sound.{
  IsSoundPair, OnOk, reset_sound, delete_entry_sound, move_entry_sound, apply_control_sound,
  apply_control-grows, push_chain_entry_sound,
}

-- The snapshot was taken of a sound canvas.
abbrev pub IsSoundSnapshot : ℕ → Snapshot → Type 0
IsSoundSnapshot n s = (c : Canvas) × (s.canvas ≡ to_dict c) × IsSoundCanvas n c

pub record IsSound (cs : CanvasState) : Type 0 where
  pub canvas : IsSoundCanvas (length cs.heap) cs.canvas
  pub undo : All (IsSoundSnapshot (length cs.heap)) cs.undo_stack
  pub redo : All (IsSoundSnapshot (length cs.heap)) cs.redo_stack
  pub stacks : length cs.undo_stack + length cs.redo_stack ≤ undo_limit
  pub history : length cs.history ≤ history_limit

pub snapshots-mono :
    (n m : ℕ) (ss : List Snapshot) → n ≤ m → All (IsSoundSnapshot n) ss → All (IsSoundSnapshot m) ss
snapshots-mono n m ss h =
    All-map (IsSoundSnapshot n) (IsSoundSnapshot m) ss
      λ s k. (k.0, k.1, IsSoundCanvas-mono n m k.0 h k.2)

abbrev pub final : Run → CanvasState
final (done cs what) = cs
final (stopped cs f) = cs

-- Another canvas, over a heap that is no shorter.
pub change-IsSound :
    (cs : CanvasState) (h : Heap) (c : Canvas)
    → IsSound cs
    → length cs.heap ≤ length h
    → IsSoundCanvas (length h) c
    → IsSound (record cs { canvas = c; heap = h })
change-IsSound cs h c s le k = record {
  canvas = k;
  undo = snapshots-mono (length cs.heap) (length h) cs.undo_stack le s.undo;
  redo = snapshots-mono (length cs.heap) (length h) cs.redo_stack le s.redo;
  stacks = s.stacks;
  history = s.history;
}

with_canvas-IsSound :
    (cs : CanvasState) (what : Happening) (o : Outcome Canvas)
    → IsSound cs
    → OnOk (IsSoundCanvas (length cs.heap)) o
    → IsSound (final (with_canvas cs what o))
with_canvas-IsSound cs what (ok c) s k = change-IsSound cs cs.heap c s (omega arith) k
with_canvas-IsSound cs what (raised e) s k = s

with_heap-IsSound :
    (cs : CanvasState) (what : Happening) (o : Outcome (Heap × Canvas))
    → IsSound cs
    → OnOk (λ p. IsSoundPair p × (length cs.heap ≤ length p.0)) o
    → IsSound (final (with_heap cs what o))
with_heap-IsSound cs what (ok (h, c)) s k = change-IsSound cs h c s k.1 k.0
with_heap-IsSound cs what (raised e) s k = s

OnOk-and :
    (cs : CanvasState) (o : Outcome (Heap × Canvas))
    → OnOk IsSoundPair o
    → OnOk (λ p. length cs.heap ≤ length p.0) o
    → OnOk (λ p. IsSoundPair p × (length cs.heap ≤ length p.0)) o
OnOk-and cs (ok p) h k = (h, k)
OnOk-and cs (raised e) h k = tt

push_layer-IsSound :
    (w : World) (a : Content) (cs : CanvasState)
    → IsFilled (w.fresh 0)
    → IsSound cs
    → IsSound (final (push_layer w a cs))
push_layer-IsSound w a cs f s =
    with_canvas-IsSound _ (layer_added a.technique_slug a.kind) _
      (change-IsSound cs (alloc cs.heap _) cs.canvas s (omega (arith, grown)) lifted)
      (push_chain_entry_sound _ _ cs.canvas lifted (f, omega (arith, grown)))
  where
    grown : length (alloc cs.heap (or_empty a.controls)) ≡ suc (length cs.heap)
    grown = length-alloc cs.heap (or_empty a.controls)

    lifted : IsSoundCanvas (length (alloc cs.heap (or_empty a.controls))) cs.canvas
    lifted = IsSoundCanvas-mono _ _ cs.canvas (omega (arith, grown)) s.canvas

push_within-IsSound :
    (w : World) (a : Content) (cs : CanvasState) (o : Outcome ℕ)
    → IsFilled (w.fresh 0)
    → IsSound cs
    → IsSound (final (push_within w a cs o))
push_within-IsSound w a cs (raised e) f s = s
push_within-IsSound w a cs (ok cap) f s = elim (Bool-cases (leb cap (length cs.canvas.layers))) [
  | inl e ↦ rw e s
  | inr e ↦ rw e (push_layer-IsSound w a cs f s)
]

pub add_layer-IsSound :
    (w : World) (a : Content) (cs : CanvasState)
    → IsFilled (w.fresh 0)
    → IsSound cs
    → IsSound (final (add_layer w a cs))
unfolding add_layer
add_layer-IsSound w a cs f s = elim (Bool-cases (not (truthy a.technique_slug))) [
  | inl e ↦ rw e s
  | inr e ↦ rw e (elim (Bool-cases (not (is_background a.kind || is_transform a.kind))) [
    | inl k ↦ rw k s
    | inr k ↦ rw k (elim (Bool-cases (is_transform a.kind)) [
      | inl t ↦ rw t (push_within-IsSound w a cs (layer_cap a.max_layers) f s)
      | inr t ↦ rw t (push_layer-IsSound w a cs f s)
    ])
  ])
]

pub remove_at-IsSound :
    (cs : CanvasState) (o : Option ℤ) → IsSound cs → IsSound (final (remove_at cs o))
remove_at-IsSound cs none s = s
remove_at-IsSound cs (some z) s = elim (Bool-cases (is_zero z)) [
  | inl e ↦ rw e (change-IsSound cs cs.heap _ s (omega arith) (reset_sound _ cs.canvas s.canvas))
  | inr e ↦ rw e (with_canvas-IsSound cs _ _ s (delete_entry_sound _ z cs.canvas s.canvas))
]

pub move_from_to-IsSound :
    (cs : CanvasState) (a b : Option ℤ) → IsSound cs → IsSound (final (move_from_to cs a b))
move_from_to-IsSound cs none b s = s
move_from_to-IsSound cs (some i) none s = s
move_from_to-IsSound cs (some i) (some j) s =
    with_canvas-IsSound cs _ _ s (move_entry_sound _ i j cs.canvas s.canvas)

pub set_control_at-IsSound :
    (v : Value) (cs : CanvasState) (o : Option ℤ) (p : Option String)
    → IsSound cs
    → IsSound (final (set_control_at v cs o p))
set_control_at-IsSound v cs none p s = s
set_control_at-IsSound v cs (some z) none s = s
set_control_at-IsSound v cs (some z) (some name) s = with_heap-IsSound cs _ _ s (
    OnOk-and cs (apply_control z name v cs.heap cs.canvas)
      (apply_control_sound z name v cs.heap cs.canvas s.canvas)
      (apply_control-grows z name v cs.heap cs.canvas))

pub paint-IsSound :
    (p : String) (cs : CanvasState)
    → IsFilled p
    → IsSound cs
    → IsSound (record cs {
      canvas = (apply_palette p cs.heap cs.canvas).1;
      heap = (apply_palette p cs.heap cs.canvas).0;
    })
unfolding apply_palette
paint-IsSound p cs f s =
    change-IsSound cs _ _ s (omega (arith, same))
      (rw same (apply_palette_sound _ p cs.heap cs.canvas f s.canvas))
  where
    same : length (recolour_all p cs.heap cs.canvas.layers) ≡ length cs.heap
    same = length-recolour_all p cs.heap cs.canvas.layers
