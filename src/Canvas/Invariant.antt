-- ===== src/Canvas/Invariant.antt =====
-- The invariant of a canvas state, over the actions of canvas/action.py.
use mathlib.Core.Path.{subst}
use second_brain_art.Common.{
  ℕ, ◌≡◌, ◌⊎◌, refl, ap, Bool, not, ◌&&◌, Option, none, some, List, [], ◌∷◌, String, ℤ, pos, str_eq,
  length, length-take-le, All, All-take, arith, Bool-cases, inl, inr,
}
use second_brain_art.Python.{Conversion, converted, refused, overflowed, as_index}
use second_brain_art.Canvas.Chain
use second_brain_art.Canvas.Chain.{
  recolour_all, Heap, Canvas, Outcome, ok, raised, delete_entry, move_entry, apply_palette,
  apply_control, push_chain_entry, alloc, is_zero, set_dimensions, is_background, is_transform,
}
use second_brain_art.Canvas.Restore.{from_dict}
use second_brain_art.Canvas.RoundTrip.{from_dict-to_dict}
use second_brain_art.Canvas.State.{
  Snapshot, CanvasState, snapshot, log_event, Event, history_limit, undo_limit, snapshot_eq,
}
use second_brain_art.Canvas.Actions.{
  Content, World, Floats, Run, done, stopped, clear, regenerate, remove_layer, move_layer, nonempty,
  set_control, set_palette, set_size_to, set_size, apply_aspect, scale_to, scale, set_aspect,
  undo_to, undo, redo_to, redo,
}
use second_brain_art.Canvas.Dispatch.{
  Action, clear_action, regenerate_action, add_layer_action, remove_layer_action, move_layer_action,
  set_control_action, set_palette_action, set_size_action, set_aspect_action, undo_action,
  redo_action, invalid, execute, finish, remember,
}
use second_brain_art.Canvas.Wellformed.{IsSoundCanvas, IsFilled}
use second_brain_art.Canvas.Sound.{reset_sound, set_dimensions_sound, set_size_sound}
use second_brain_art.Canvas.Edits.{
  IsSoundSnapshot, IsSound, final, change-IsSound, add_layer-IsSound, remove_at-IsSound,
  move_from_to-IsSound, set_control_at-IsSound, paint-IsSound,
}

nonempty-cases :
    (o : Option String) → (nonempty o ≡ none) ⊎ ((p : String) × (nonempty o ≡ some p) × IsFilled p)
nonempty-cases none = inl refl
nonempty-cases (some s) = elim (Bool-cases (str_eq s "")) [
  | inl e ↦ inl (rw e)
  | inr e ↦ inr (s, rw e, e)
]

set_palette-IsSound :
    (a : Content) (cs : CanvasState) → IsSound cs → IsSound (final (set_palette a cs))
unfolding set_palette
set_palette-IsSound a cs s = elim (nonempty-cases a.palette_id) [
  | inl e ↦ rw e s
  | inr (p, e, f) ↦ rw e (paint-IsSound p cs f s)
]

set_size-IsSound : (a : Content) (cs : CanvasState) → IsSound cs → IsSound (final (set_size a cs))
unfolding set_size
set_size-IsSound a cs s = at (as_index a.size)
  where
    at : (o : Option ℤ) → IsSound (final (set_size_to cs o))
    at none = s
    at (some z) =
        change-IsSound cs cs.heap _ s (omega arith) (set_size_sound _ z cs.canvas s.canvas)

apply_aspect-IsSound :
    (cs : CanvasState) (w h : Option ℤ) → IsSound cs → IsSound (final (apply_aspect cs w h))
apply_aspect-IsSound cs none h s = s
apply_aspect-IsSound cs (some w) none s = s
apply_aspect-IsSound cs (some w) (some h) s =
    change-IsSound cs cs.heap _ s (omega arith) (set_dimensions_sound _ w h cs.canvas s.canvas)

scale_to-IsSound :
    (f : Floats) (x y : ℤ) (cs : CanvasState) → IsSound cs → IsSound (final (scale_to f x y cs))
scale_to-IsSound f x y cs s = elim (Bool-cases (f.ge x y)) [
  | inl e ↦ rw e (
      apply_aspect-IsSound cs (some (pos (Chain.size cs.canvas)))
        (f.round_scaled (Chain.size cs.canvas) y x) s)
  | inr e ↦ rw e (
      apply_aspect-IsSound cs (f.round_scaled (Chain.size cs.canvas) x y)
        (some (pos (Chain.size cs.canvas))) s)
]

scale-IsSound :
    (f : Floats) (cs : CanvasState) (x y : Conversion)
    → IsSound cs
    → IsSound (final (scale f cs x y))
scale-IsSound f cs (converted x) (converted y) s =
    elim (Bool-cases (f.is_positive x && f.is_positive y)) [
      | inl e ↦ rw e (scale_to-IsSound f x y cs s)
      | inr e ↦ rw e s
    ]
scale-IsSound f cs (converted x) refused s = s
scale-IsSound f cs (converted x) overflowed s = s
scale-IsSound f cs refused y s = s
scale-IsSound f cs overflowed y s = s

-- The snapshot of a sound state, and the state that a sound snapshot is put into.
pub snapshot-sound :
    (cs : CanvasState) → IsSound cs → IsSoundSnapshot (length cs.heap) (snapshot cs)
unfolding snapshot
snapshot-sound cs s = (cs.canvas, refl, s.canvas)

pub reinstated_sound :
    (w : World) (n : ℕ) (x : Snapshot)
    → IsSoundSnapshot n x
    → IsSoundCanvas n (from_dict w.fresh (some x.canvas))
reinstated_sound w n x (c, e, k) = rw e (rw (from_dict-to_dict w.fresh n c k) k)

undo_to-IsSound :
    (w : World) (cs : CanvasState) (stack : List Snapshot)
    → cs.undo_stack ≡ stack
    → IsSound cs
    → IsSound (final (undo_to w cs stack))
undo_to-IsSound w cs [] e s = s
undo_to-IsSound w cs (x ∷ stack) e s = record {
  canvas = reinstated_sound w _ x (subst (All (IsSoundSnapshot (length cs.heap))) e s.undo).0;
  undo = (subst (All (IsSoundSnapshot (length cs.heap))) e s.undo).1;
  redo = (snapshot-sound cs s, s.redo);
  stacks = omega (arith, s.stacks, ap length e);
  history = s.history;
}

redo_to-IsSound :
    (w : World) (cs : CanvasState) (stack : List Snapshot)
    → cs.redo_stack ≡ stack
    → IsSound cs
    → IsSound (final (redo_to w cs stack))
redo_to-IsSound w cs [] e s = s
redo_to-IsSound w cs (x ∷ stack) e s = record {
  canvas = reinstated_sound w _ x (subst (All (IsSoundSnapshot (length cs.heap))) e s.redo).0;
  undo = (snapshot-sound cs s, s.undo);
  redo = (subst (All (IsSoundSnapshot (length cs.heap))) e s.redo).1;
  stacks = omega (arith, s.stacks, ap length e);
  history = s.history;
}

pub execute-IsSound :
    (w : World) (action : Action) (a : Content) (cs : CanvasState)
    → IsFilled (w.fresh 0)
    → IsSound cs
    → IsSound (final (execute w action a cs))
unfolding execute clear regenerate remove_layer move_layer set_control set_aspect undo redo
execute-IsSound w clear_action a cs f s =
    change-IsSound cs cs.heap _ s (omega arith) (reset_sound _ cs.canvas s.canvas)
execute-IsSound w regenerate_action a cs f s = s
execute-IsSound w add_layer_action a cs f s = add_layer-IsSound w a cs f s
execute-IsSound w remove_layer_action a cs f s = remove_at-IsSound cs (as_index a.chain_index) s
execute-IsSound w move_layer_action a cs f s =
    move_from_to-IsSound cs (as_index a.from_index) (as_index a.to_index) s
execute-IsSound w set_control_action a cs f s =
    set_control_at-IsSound a.value cs (as_index a.chain_index) (nonempty a.name) s
execute-IsSound w set_palette_action a cs f s = set_palette-IsSound a cs s
execute-IsSound w set_size_action a cs f s = set_size-IsSound a cs s
execute-IsSound w set_aspect_action a cs f s =
    scale-IsSound w.floats cs (w.floats.float_of a.ratio_w) (w.floats.float_of a.ratio_h) s
execute-IsSound w undo_action a cs f s = undo_to-IsSound w cs cs.undo_stack refl s
execute-IsSound w redo_action a cs f s = redo_to-IsSound w cs cs.redo_stack refl s
execute-IsSound w invalid a cs f s = s

log_event-IsSound : (ev : Event) (cs : CanvasState) → IsSound cs → IsSound (log_event ev cs)
unfolding log_event
log_event-IsSound ev cs s = record {
  canvas = s.canvas;
  undo = s.undo;
  redo = s.redo;
  stacks = s.stacks;
  history = length-take-le history_limit (ev ∷ cs.history);
}

pub finish-IsSound :
    (w : World) (name : String) (r : Run) → IsSound (final r) → IsSound (finish w name r).1
unfolding finish
finish-IsSound w name (done cs what) s = log_event-IsSound _ cs s
finish-IsSound w name (stopped cs f) s = log_event-IsSound _ _ (record {
  canvas = s.canvas;
  undo = s.undo;
  redo = s.redo;
  stacks = s.stacks;
  history = s.history;
})

pub remember-IsSound :
    (b : Bool) (pre : Snapshot) (cs : CanvasState)
    → IsSoundSnapshot (length cs.heap) pre
    → IsSound cs
    → IsSound (remember b pre cs)
unfolding remember
remember-IsSound b pre cs k s =
    elim (Bool-cases (b && not (snapshot_eq cs.heap pre (snapshot cs)))) [
      | inl e ↦ rw e (record {
        canvas = s.canvas;
        undo =
            All-take (IsSoundSnapshot (length cs.heap)) undo_limit (pre ∷ cs.undo_stack)
              (k, s.undo);
        redo = tt;
        stacks = omega (arith, length-take-le {0} undo_limit (pre ∷ cs.undo_stack));
        history = s.history;
      })
      | inr e ↦ rw e s
    ]
