-- ===== src/Canvas/Lead/Steps.antt =====
-- The actions of canvas/action.py and the layer at position 0.
use second_brain_art.Common.{
  ℕ, suc, ◌≡◌, ◌≢◌, str_eq, eq_iff, ◌⊎◌, refl, Option, none, some, List, [], ◌∷◌, String, ℤ, Bool,
  true, false, not, ◌&&◌, length, All, All-take, Bool-cases, inl, inr, arith,
}
use mathlib.Core.Path.{subst}
use second_brain_art.Python.{Value, null, bool, int, text, other, as_index, truthy}
use second_brain_art.Canvas.Chain
use second_brain_art.Canvas.Chain.{
  Heap, Layer, Canvas, Outcome, ok, raised, is_background, is_transform, push_chain_entry,
  replace_first, delete_entry, delete_in, relocate, displaces_lead, move_between, move_entry,
  control_of, control_at, apply_control, apply_palette, is_zero, reset, size, set_dimensions,
}
use second_brain_art.Canvas.Restore.{to_dict}
use second_brain_art.Canvas.State.{
  CanvasState, Snapshot, undo_limit, snapshot, log_event, snapshot_eq,
}
use second_brain_art.Canvas.Actions.{
  Content, World, Run, done, stopped, clear, regenerate, add_layer, layer_cap, remove_layer,
  move_layer, set_control, set_control_at, nonempty, set_palette, set_palette_to, set_size,
  set_aspect, undo, undo_to, redo, redo_to,
}
use second_brain_art.Canvas.Dispatch.{
  Action, clear_action, regenerate_action, add_layer_action, remove_layer_action, move_layer_action,
  set_control_action, set_palette_action, set_size_action, set_aspect_action, undo_action,
  redo_action, invalid, execute, finish, run_action, remember, enact, create_canvas_action,
  is_undoable,
}
use second_brain_art.Canvas.Edits.{final}
use second_brain_art.Canvas.Lead.{IsLedState, IsLedSnapshot, restored-IsLed}
use second_brain_art.Canvas.Lead.Edits.{
  led-canvas, led-with_heap, HasBase, add_layer-IsLed, apply_control-IsLed, remove_at-IsLed,
  move_from_to-IsLed,
}

set_control_at-IsLed :
    (v : Value) (cs : CanvasState) (o : Option ℤ) (p : Option String)
    → IsLedState cs
    → IsLedState (final (set_control_at v cs o p))
set_control_at-IsLed v cs (some z) (some name) s =
    led-with_heap cs _ _ s (apply_control-IsLed z name v cs.heap cs.canvas s.canvas)
set_control_at-IsLed v cs (some z) none s = s
set_control_at-IsLed v cs none p s = s

set_palette_to-IsLed :
    (cs : CanvasState) (o : Option String)
    → IsLedState cs
    → IsLedState (final (set_palette_to cs o))
unfolding apply_palette
set_palette_to-IsLed cs (some p) s = led-canvas cs _ _ s s.canvas
set_palette_to-IsLed cs none s = s

pub snapshot-IsLed : (cs : CanvasState) → IsLedState cs → IsLedSnapshot (snapshot cs)
unfolding snapshot to_dict
snapshot-IsLed cs s = (s.canvas, refl)

undo_to-IsLed :
    (w : World) (cs : CanvasState) (stack : List Snapshot)
    → All IsLedSnapshot stack
    → IsLedState cs
    → IsLedState (final (undo_to w cs stack))
undo_to-IsLed w cs [] h s = s
undo_to-IsLed w cs (x ∷ stack) h s = record {
  canvas = restored-IsLed w.fresh x.canvas h.0.0 h.0.1;
  undo = h.1;
  redo = (snapshot-IsLed cs s, s.redo);
}

redo_to-IsLed :
    (w : World) (cs : CanvasState) (stack : List Snapshot)
    → All IsLedSnapshot stack
    → IsLedState cs
    → IsLedState (final (redo_to w cs stack))
redo_to-IsLed w cs [] h s = s
redo_to-IsLed w cs (x ∷ stack) h s = record {
  canvas = restored-IsLed w.fresh x.canvas h.0.0 h.0.1;
  undo = (snapshot-IsLed cs s, s.undo);
  redo = h.1;
}

-- Other sizes leave the layers alone.
Resized : CanvasState → Run → Type 0
Resized cs r =
    ((final r).canvas.layers ≡ cs.canvas.layers)
    × ((final r).undo_stack ≡ cs.undo_stack)
    × ((final r).redo_stack ≡ cs.redo_stack)

Resized-IsLed : (cs : CanvasState) (r : Run) → Resized cs r → IsLedState cs → IsLedState (final r)
unfolding Resized
Resized-IsLed cs r e s = record {
  canvas = rw (e.0) s.canvas;
  undo = rw (e.1) s.undo;
  redo = rw (e.2) s.redo;
}

execute-IsLed :
    (w : World) (action : Action) (a : Content) (cs : CanvasState)
    → HasBase a.kind cs.canvas.layers ⊎ (action ≢ add_layer_action)
    → IsLedState cs
    → IsLedState (final (execute w action a cs))
unfolding execute clear reset regenerate remove_layer move_layer set_control set_palette set_size
    set_aspect Chain.set_size set_dimensions undo redo Resized
execute-IsLed w clear_action a cs n s = led-canvas cs cs.heap _ s tt
execute-IsLed w regenerate_action a cs n s = s
execute-IsLed w add_layer_action a cs (inl n) s = add_layer-IsLed w a cs n s
execute-IsLed w add_layer_action a cs (inr n) s = absurd (n refl)
execute-IsLed w remove_layer_action a cs n s = remove_at-IsLed cs (as_index a.chain_index) s
execute-IsLed w move_layer_action a cs n s =
    move_from_to-IsLed cs (as_index a.from_index) (as_index a.to_index) s
execute-IsLed w set_control_action a cs n s =
    set_control_at-IsLed a.value cs (as_index a.chain_index) (nonempty a.name) s
execute-IsLed w set_palette_action a cs n s = set_palette_to-IsLed cs (nonempty a.palette_id) s
execute-IsLed w set_size_action a cs n s = Resized-IsLed cs (set_size a cs) (ground arith) s
execute-IsLed w set_aspect_action a cs n s =
    Resized-IsLed cs (set_aspect w.floats a cs) (ground arith) s
execute-IsLed w undo_action a cs n s = undo_to-IsLed w cs cs.undo_stack s.undo s
execute-IsLed w redo_action a cs n s = redo_to-IsLed w cs cs.redo_stack s.redo s
execute-IsLed w invalid a cs n s = s

finish-IsLed :
    (w : World) (name : String) (r : Run) → IsLedState (final r) → IsLedState (finish w name r).1
unfolding finish log_event
finish-IsLed w name (done cs what) s = record { canvas = s.canvas; undo = s.undo; redo = s.redo }
finish-IsLed w name (stopped cs f) s = record { canvas = s.canvas; undo = s.undo; redo = s.redo }

remember-IsLed :
    (b : Bool) (pre : Snapshot) (cs : CanvasState)
    → IsLedSnapshot pre
    → IsLedState cs
    → IsLedState (remember b pre cs)
unfolding remember
remember-IsLed b pre cs k s = elim (Bool-cases (b && not (snapshot_eq cs.heap pre (snapshot cs)))) [
  | inl e ↦ rw e (record {
    canvas = s.canvas;
    undo = All-take IsLedSnapshot undo_limit (pre ∷ cs.undo_stack) (k, s.undo);
    redo = tt;
  })
  | inr e ↦ rw e s
]

-- Every action keeps a background at position 0 (or the chain empty), on the canvas and in the
-- snapshots, except that `add_layer` must not put a filter or an object on an empty chain.
pub enact-IsLed :
    (w : World) (name : String) (a : Content) (cs : CanvasState)
    → HasBase a.kind cs.canvas.layers ⊎ (create_canvas_action cs.phase name ≢ add_layer_action)
    → IsLedState cs
    → IsLedState (enact w name a cs).1
unfolding enact run_action
enact-IsLed w name a cs n s =
    remember-IsLed (is_undoable name) (snapshot cs) _ (snapshot-IsLed cs s)
      (finish-IsLed w _ _ (execute-IsLed w (create_canvas_action cs.phase name) a cs n s))

transform-background : (v : Value) → is_transform v ≡ true → is_background v ≡ false
transform-background (text k) h = elim (Bool-cases (str_eq k "background")) [
  | inl e ↦ cc (subst (λ t. is_transform (text t) ≡ true) ((eq_iff k "background").0 e) h)
  | inr e ↦ e
]
transform-background null h = refl
transform-background (bool b) h = refl
transform-background (int z) h = refl
transform-background (other o) h = refl

-- The code has no such guard: on a state with no layers, `add_layer` with a technique, the kind
-- "filter" or "object" and a cap of at least 1 succeeds, and the only layer is no background.
pub add_layer-unled :
    (w : World) (a : Content) (cs : CanvasState) (limit : ℕ)
    → cs.canvas.layers ≡ []
    → truthy a.technique_slug ≡ true
    → is_transform a.kind ≡ true
    → layer_cap a.max_layers ≡ ok (suc limit)
    → (l : Layer) × ((final (add_layer w a cs)).canvas.layers ≡ l ∷ [])
      × (is_background l.kind ≡ false)
unfolding add_layer push_chain_entry
add_layer-unled w a cs limit e t k c =
    let plain = transform-background a.kind k in
    (
      record {
        id = some (w.fresh 0);
        slug = a.technique_slug;
        kind = a.kind;
        controls = some (length cs.heap);
      },
      ground arith,
      plain,
    )
