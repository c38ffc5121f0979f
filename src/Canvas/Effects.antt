-- ===== src/Canvas/Effects.antt =====
-- What the actions of canvas/action.py do to the stacks and to the controls.
use second_brain_art.Common.{
  ℕ, ◌<◌, ◌≡◌, ◌≢◌, refl, Option, none, some, List, [], String, ℤ, length, ◌∷◌, arith, true,
  get_or-append, get_elem?, in_range,
}
use second_brain_art.Python.{Value, as_index}
use second_brain_art.Canvas.Chain.{
  Outcome, ok, raised, control_of, control_at, Heap, Layer, Canvas, deref, apply_control,
}
use second_brain_art.Canvas.Restore.{from_dict}
use second_brain_art.Canvas.State.{
  control_set, CanvasState, Snapshot, canvas_idle, snapshot, log_event,
}
use second_brain_art.Canvas.Actions.{
  with_heap, set_control_at, nonempty, or_empty, Content, World, Run, clear, regenerate, add_layer,
  remove_layer, move_layer, set_control, set_palette, set_size, set_aspect, undo, redo,
}
use second_brain_art.Canvas.Dispatch.{
  Action, clear_action, regenerate_action, add_layer_action, remove_layer_action, move_layer_action,
  set_control_action, set_palette_action, set_size_action, set_aspect_action, undo_action,
  redo_action, invalid, execute, finish, run_action, remember, enact, create_canvas_action,
  is_undoable, action_type,
}
use second_brain_art.Canvas.Sound.{OnOk}
use second_brain_art.Canvas.Edits.{final}

pub create-action :
    (action : Action)
    → is_undoable (action_type action) ≡ true
    → create_canvas_action canvas_idle (action_type action) ≡ action
unfolding create_canvas_action is_undoable
create-action clear_action h = refl
create-action regenerate_action h = refl
create-action add_layer_action h = refl
create-action remove_layer_action h = refl
create-action move_layer_action h = refl
create-action set_control_action h = refl
create-action set_palette_action h = refl
create-action set_size_action h = refl
create-action set_aspect_action h = refl
create-action undo_action h = refl
create-action redo_action h = refl
create-action invalid h = cc

-- What an undo gives, where there is something to undo.
pub record Stepped (from to : CanvasState) (w : World) (s : Snapshot) : Type 0 where
  pub canvas : to.canvas ≡ from_dict w.fresh (some s.canvas)
  pub render_seed : to.render_seed ≡ s.render_seed
  pub heap : to.heap ≡ from.heap
  pub phase : to.phase ≡ from.phase

pub undo-step :
    (w : World) (a : Content) (cs : CanvasState) (s : Snapshot) (stack : List Snapshot)
    → cs.phase ≡ canvas_idle
    → cs.undo_stack ≡ s ∷ stack
    → Stepped cs (enact w "undo" a cs).1 w s
      × ((enact w "undo" a cs).1.undo_stack ≡ stack)
      × ((enact w "undo" a cs).1.redo_stack ≡ snapshot cs ∷ cs.redo_stack)
unfolding enact run_action create_canvas_action is_undoable execute undo finish log_event remember
undo-step w a cs s stack p e =
    rw p
      (rw e (record { canvas = refl; render_seed = refl; heap = refl; phase = refl }, refl, refl))

pub redo-step :
    (w : World) (a : Content) (cs : CanvasState) (s : Snapshot) (stack : List Snapshot)
    → cs.phase ≡ canvas_idle
    → cs.redo_stack ≡ s ∷ stack
    → Stepped cs (enact w "redo" a cs).1 w s
      × ((enact w "redo" a cs).1.redo_stack ≡ stack)
      × ((enact w "redo" a cs).1.undo_stack ≡ snapshot cs ∷ cs.undo_stack)
unfolding enact run_action create_canvas_action is_undoable execute redo finish log_event remember
redo-step w a cs s stack p e =
    rw p
      (rw e (record { canvas = refl; render_seed = refl; heap = refl; phase = refl }, refl, refl))

-- Where the run of an action leaves the phase and the stacks.
abbrev Frame : CanvasState → Run → Type 0
Frame cs r =
    ((final r).phase ≡ cs.phase)
    × ((final r).undo_stack ≡ cs.undo_stack)
    × ((final r).redo_stack ≡ cs.redo_stack)

pub execute-Frame :
    (w : World) (action : Action) (a : Content) (cs : CanvasState)
    → is_undoable (action_type action) ≡ true
    → Frame cs (execute w action a cs)
unfolding is_undoable execute clear regenerate remove_layer move_layer set_control set_palette
    set_aspect undo redo set_size add_layer
execute-Frame w clear_action a cs h = ground arith
execute-Frame w regenerate_action a cs h = ground arith
execute-Frame w add_layer_action a cs h = ground arith
execute-Frame w remove_layer_action a cs h = ground arith
execute-Frame w move_layer_action a cs h = ground arith
execute-Frame w set_control_action a cs h = ground arith
execute-Frame w set_palette_action a cs h = ground arith
execute-Frame w set_size_action a cs h = ground arith
execute-Frame w set_aspect_action a cs h = ground arith
execute-Frame w undo_action a cs h = cc
execute-Frame w redo_action a cs h = cc
execute-Frame w invalid a cs h = cc

apply_control-deref :
    (z : ℤ) (name : String) (v : Value) (h : Heap) (c : Canvas) (r : ℕ)
    → r < length h
    → OnOk (λ p. deref p.0 r ≡ deref h r) (apply_control z name v h c)
unfolding apply_control
apply_control-deref z name v h c r lt = at (in_range z (length c.layers))
  where
    found :
        (i : ℕ) (o : Option Layer)
        → OnOk (λ p. deref p.0 r ≡ deref h r) (control_of z i name v h c o)
    found i none = tt
    found i (some step) = get_or-append h _ r [] lt

    at : (o : Option ℕ) → OnOk (λ p. deref p.0 r ≡ deref h r) (control_at z name v h c o)
    at none = tt
    at (some i) = found i (get_elem? c.layers i)

set_control_at-deref :
    (v : Value) (cs : CanvasState) (o : Option ℤ) (p : Option String) (r : ℕ)
    → r < length cs.heap
    → deref (final (set_control_at v cs o p)).heap r ≡ deref cs.heap r
set_control_at-deref v cs none p r h = refl
set_control_at-deref v cs (some z) none r h = refl
set_control_at-deref v cs (some z) (some name) r h =
    on_ok (apply_control z name v cs.heap cs.canvas)
      (apply_control-deref z name v cs.heap cs.canvas r h)
  where
    on_ok :
        (o : Outcome (Heap × Canvas))
        → OnOk (λ p. deref p.0 r ≡ deref cs.heap r) o
        → deref (final (with_heap cs (control_set z name v) o)).heap r ≡ deref cs.heap r
    on_ok (ok p) k = k
    on_ok (raised e) k = refl

-- Every action but `set_palette` leaves the objects that were there as they were.
pub execute-deref :
    (w : World) (action : Action) (a : Content) (cs : CanvasState) (r : ℕ)
    → action ≢ set_palette_action
    → r < length cs.heap
    → deref (final (execute w action a cs)).heap r ≡ deref cs.heap r
unfolding execute clear regenerate remove_layer move_layer set_control set_palette set_aspect undo
    redo set_size add_layer
execute-deref w clear_action a cs r n h = refl
execute-deref w regenerate_action a cs r n h = refl
execute-deref w add_layer_action a cs r n h =
    ground (arith, get_or-append cs.heap (or_empty a.controls ∷ []) r [])
execute-deref w remove_layer_action a cs r n h = ground arith
execute-deref w move_layer_action a cs r n h = ground arith
execute-deref w set_control_action a cs r n h =
    set_control_at-deref a.value cs (as_index a.chain_index) (nonempty a.name) r h
execute-deref w set_palette_action a cs r n h = absurd (n refl)
execute-deref w set_size_action a cs r n h = ground arith
execute-deref w set_aspect_action a cs r n h = ground arith
execute-deref w undo_action a cs r n h = ground arith
execute-deref w redo_action a cs r n h = ground arith
execute-deref w invalid a cs r n h = refl
