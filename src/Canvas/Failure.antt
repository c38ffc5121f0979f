-- ===== src/Canvas/Failure.antt =====
-- About actions of canvas/action.py that fail.
use second_brain_art.Common.{◌≡◌, refl, some, String, take, ◌∷◌, arith, Bool, true, false}
use second_brain_art.Errors.{failed}
use second_brain_art.Canvas.Chain.{push_chain_entry}
use second_brain_art.Canvas.State.{
  CanvasState, CanvasError, snapshot, log_event, history_limit, error,
}
use second_brain_art.Canvas.Actions.{
  Content, World, Run, done, stopped, clear, regenerate, add_layer, remove_layer, move_layer,
  set_control, set_palette, set_size, set_aspect, undo, redo,
}
use second_brain_art.Canvas.Dispatch.{
  normalize, Action, clear_action, regenerate_action, add_layer_action, remove_layer_action,
  move_layer_action, set_control_action, set_palette_action, set_size_action, set_aspect_action,
  undo_action, redo_action, invalid, execute, finish, run_action, remember, enact,
  create_canvas_action, is_undoable, action_type, stamp,
}
use second_brain_art.Canvas.Same.{snapshot_eq_refl}

-- Where the run stops, the state is `cs`.
abbrev Untouched : CanvasState → Run → Type 0
Untouched cs (done cs' what) = Unit
Untouched cs (stopped cs' f) = cs' ≡ cs

execute-Untouched :
    (w : World) (action : Action) (a : Content) (cs : CanvasState)
    → Untouched cs (execute w action a cs)
unfolding execute clear regenerate remove_layer move_layer set_control set_palette set_aspect undo
    redo set_size add_layer push_chain_entry
execute-Untouched w clear_action a cs = tt
execute-Untouched w regenerate_action a cs = tt
execute-Untouched w add_layer_action a cs = ground arith
execute-Untouched w remove_layer_action a cs = ground arith
execute-Untouched w move_layer_action a cs = ground arith
execute-Untouched w set_control_action a cs = ground arith
execute-Untouched w set_palette_action a cs = ground arith
execute-Untouched w set_size_action a cs = ground arith
execute-Untouched w set_aspect_action a cs = ground arith
execute-Untouched w undo_action a cs = ground arith
execute-Untouched w redo_action a cs = ground arith
execute-Untouched w invalid a cs = refl

pub remember_same :
    (b : Bool) (pre cs : CanvasState)
    → snapshot cs ≡ snapshot pre
    → remember b (snapshot pre) cs ≡ cs
unfolding remember
remember_same true pre cs e = rw e (rw (snapshot_eq_refl cs.heap (snapshot pre)))
remember_same false pre cs e = refl

finish-failed :
    (w : World) (b : Bool) (name : String) (cs : CanvasState) (r : Run)
    → Untouched cs r
    → (finish w name r).0.ok ≡ false
    → (err : CanvasError) × ((finish w name r).0 ≡ failed name err (stamp w (error err)))
      × (remember b (snapshot cs) (finish w name r).1 ≡ record cs {
        last_error = some err;
        history = take history_limit (stamp w (error err) ∷ cs.history);
      })
unfolding finish log_event
finish-failed w b name cs (done cs' what) u e = cc
finish-failed w b name cs (stopped cs' f) u e =
    rw u (normalize cs.phase f, refl, remember_same b cs _ (unfold snapshot in refl))

-- An action that fails has as its only effects that the error becomes `last_error` and that an
-- error event is logged: the canvas, the seed, the controls and both stacks are as before. The
-- result carries that error and that event.
pub enact-failed :
    (w : World) (name : String) (a : Content) (cs : CanvasState)
    → (enact w name a cs).0.ok ≡ false
    → (err : CanvasError) × ((enact w name a cs).0
        ≡ failed (action_type (create_canvas_action cs.phase name)) err (stamp w (error err)))
      × ((enact w name a cs).1 ≡ record cs {
        last_error = some err;
        history = take history_limit (stamp w (error err) ∷ cs.history);
      })
unfolding enact run_action
enact-failed w name a cs e =
    finish-failed w (is_undoable name) _ cs _
      (execute-Untouched w (create_canvas_action cs.phase name) a cs) e
