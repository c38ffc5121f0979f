-- ===== src/Canvas/Kept.antt =====
-- The invariant over a whole `CanvasState.enact` of canvas/state.py.
use second_brain_art.Common.{◌≤◌, ◌≡◌, refl, Option, none, some, String, ℤ, length, arith}
use second_brain_art.Python.{Value, as_index}
use second_brain_art.Canvas.Chain.{Heap, Canvas, Outcome, ok, raised, apply_palette}
use second_brain_art.Canvas.State.{CanvasState, snapshot, log_event, Happening}
use second_brain_art.Canvas.Actions.{
  Content, World, Run, done, stopped, with_canvas, with_heap, clear, regenerate, push_layer,
  add_layer, remove_layer, move_layer, set_control_at, nonempty, set_control, set_palette_to,
  set_palette, set_size, set_aspect, undo, redo, or_empty,
}
use second_brain_art.Canvas.Dispatch.{
  Action, clear_action, regenerate_action, add_layer_action, remove_layer_action, move_layer_action,
  set_control_action, set_palette_action, set_size_action, set_aspect_action, undo_action,
  redo_action, invalid, execute, finish, run_action, enact, create_canvas_action, is_undoable,
  action_type,
}
use second_brain_art.Canvas.Wellformed.{
  IsSoundCanvas-mono, IsFilled, length-alloc, length-recolour_all,
}
use second_brain_art.Canvas.Sound.{OnOk, apply_control-grows}
use second_brain_art.Canvas.Edits.{IsSound, final, IsSoundSnapshot}
use second_brain_art.Canvas.Invariant.{
  execute-IsSound, finish-IsSound, remember-IsSound, snapshot-sound,
}

abbrev Grows : CanvasState → Run → Type 0
Grows cs r = length cs.heap ≤ length (final r).heap

heap-with_canvas :
    (cs : CanvasState) (what : Happening) (o : Outcome Canvas)
    → (final (with_canvas cs what o)).heap ≡ cs.heap
heap-with_canvas cs what (ok c) = refl
heap-with_canvas cs what (raised e) = refl

with_heap-Grows :
    (cs : CanvasState) (what : Happening) (o : Outcome (Heap × Canvas))
    → OnOk (λ p. length cs.heap ≤ length p.0) o
    → Grows cs (with_heap cs what o)
with_heap-Grows cs what (ok p) h = h
with_heap-Grows cs what (raised e) h = omega arith

push_layer-Grows : (w : World) (a : Content) (cs : CanvasState) → Grows cs (push_layer w a cs)
push_layer-Grows w a cs =
    rw heap-with_canvas (omega (arith, length-alloc cs.heap (or_empty a.controls)))

set_control_at-Grows :
    (v : Value) (cs : CanvasState) (o : Option ℤ) (p : Option String)
    → Grows cs (set_control_at v cs o p)
set_control_at-Grows v cs none p = omega arith
set_control_at-Grows v cs (some z) none = omega arith
set_control_at-Grows v cs (some z) (some name) =
    with_heap-Grows cs _ _ (apply_control-grows z name v cs.heap cs.canvas)

set_palette_to-Grows : (cs : CanvasState) (o : Option String) → Grows cs (set_palette_to cs o)
unfolding apply_palette
set_palette_to-Grows cs none = omega arith
set_palette_to-Grows cs (some p) = omega (arith, length-recolour_all p cs.heap cs.canvas.layers)

execute-Grows :
    (w : World) (action : Action) (a : Content) (cs : CanvasState)
    → Grows cs (execute w action a cs)
unfolding execute clear regenerate remove_layer move_layer set_control set_palette set_aspect undo
    redo set_size add_layer
execute-Grows w clear_action a cs = omega arith
execute-Grows w regenerate_action a cs = omega arith
execute-Grows w add_layer_action a cs = ground (arith, push_layer-Grows w a cs)
execute-Grows w remove_layer_action a cs = ground arith
execute-Grows w move_layer_action a cs = ground arith
execute-Grows w set_control_action a cs =
    set_control_at-Grows a.value cs (as_index a.chain_index) (nonempty a.name)
execute-Grows w set_palette_action a cs = set_palette_to-Grows cs (nonempty a.palette_id)
execute-Grows w set_size_action a cs = ground arith
execute-Grows w set_aspect_action a cs = ground arith
execute-Grows w undo_action a cs = ground arith
execute-Grows w redo_action a cs = ground arith
execute-Grows w invalid a cs = omega arith

heap-finish : (w : World) (name : String) (r : Run) → (finish w name r).1.heap ≡ (final r).heap
unfolding finish log_event
heap-finish w name (done cs what) = refl
heap-finish w name (stopped cs f) = refl

-- Every action, known or not, with any payload, takes a sound state to a sound state: the sizes
-- stay in 256..2048, every layer has an id and refers to controls that exist, the undo and redo
-- stacks hold at most 50 snapshots together and only snapshots of sound canvases, and the history
-- holds at most 100 events. The ids that are minted must not be empty.
pub enact-IsSound :
    (w : World) (name : String) (a : Content) (cs : CanvasState)
    → IsFilled (w.fresh 0)
    → IsSound cs
    → IsSound (enact w name a cs).1
unfolding enact run_action
enact-IsSound w name a cs f s =
    remember-IsSound (is_undoable name) (snapshot cs) _
      (snapshot-IsSound-later (snapshot-sound cs s))
      (finish-IsSound w _ _ (execute-IsSound w action a cs f s))
  where
    action : Action
    action = create_canvas_action cs.phase name

    snapshot-IsSound-later :
        IsSoundSnapshot (length cs.heap) (snapshot cs)
        → IsSoundSnapshot
            (length (finish w (action_type action) (execute w action a cs)).1.heap)
            (snapshot cs)
    snapshot-IsSound-later (c, e, k) =
        (c, e, IsSoundCanvas-mono _ _ c (rw heap-finish (execute-Grows w action a cs)) k)
