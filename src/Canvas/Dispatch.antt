-- ===== src/Canvas/Dispatch.antt =====
-- canvas/action_map.py, `CanvasAction.enact` of canvas/action.py and `CanvasState.enact` of
-- canvas/state.py.
use second_brain_art.Common.{
  Bool, true, false, not, ◌&&◌, some, List, [], ◌∷◌, String, str_eq, if◌then◌else◌, take,
}
use second_brain_art.Errors.{invalid_action, execution_failed, succeeded, failed}
use second_brain_art.Canvas.State.{
  canvas_idle, undo_limit, not_legal, exception, CanvasError, Happening, error, Event, CanvasResult,
  Snapshot, CanvasState, snapshot, log_event, snapshot_eq,
}
use second_brain_art.Canvas.Actions.{
  Content, World, Failure, refuse, throw, Run, done, stopped, clear, regenerate, add_layer,
  remove_layer, move_layer, set_control, set_palette, set_size, set_aspect, undo, redo,
}

-- The classes of actions, and the names under which the table of `canvas_idle` has them.
pub data Action : Type 0 where
  clear_action regenerate_action add_layer_action remove_layer_action move_layer_action : Action
  set_control_action set_palette_action set_size_action set_aspect_action : Action
  undo_action redo_action invalid : Action

abbrev idle_table : List (String × Action)
idle_table =
    ("clear", clear_action)
    ∷ ("regenerate", regenerate_action)
    ∷ ("add_layer", add_layer_action)
    ∷ ("remove_layer", remove_layer_action)
    ∷ ("move_layer", move_layer_action)
    ∷ ("set_control", set_control_action)
    ∷ ("set_palette", set_palette_action)
    ∷ ("set_size", set_size_action)
    ∷ ("set_aspect", set_aspect_action)
    ∷ ("undo", undo_action)
    ∷ ("redo", redo_action)
    ∷ []

abbrev find_action : String → List (String × Action) → Action
find_action name [] = invalid
find_action name ((key, action) ∷ table) =
    if str_eq key name then action else find_action name table

-- Any other phase has an empty table.
unfoldable pub create_canvas_action : String → String → Action
create_canvas_action phase action_type =
    if str_eq phase canvas_idle then find_action action_type idle_table else invalid

-- The class attribute `action_type`.
abbrev pub action_type : Action → String
action_type clear_action = "clear"
action_type regenerate_action = "regenerate"
action_type add_layer_action = "add_layer"
action_type remove_layer_action = "remove_layer"
action_type move_layer_action = "move_layer"
action_type set_control_action = "set_control"
action_type set_palette_action = "set_palette"
action_type set_size_action = "set_size"
action_type set_aspect_action = "set_aspect"
action_type undo_action = "undo"
action_type redo_action = "redo"
action_type invalid = "canvas_invalid"

abbrev undoable_actions : List String
undoable_actions =
    "add_layer" ∷ "remove_layer" ∷ "move_layer" ∷ "set_control" ∷ "set_palette" ∷ "set_size"
    ∷ "set_aspect" ∷ "clear" ∷ "regenerate" ∷ []

abbrev is_member : String → List String → Bool
is_member name [] = false
is_member name (n ∷ names) = if str_eq n name then true else is_member name names

-- `action_type in UNDOABLE_ACTIONS`
unfoldable pub is_undoable : String → Bool
is_undoable name = is_member name undoable_actions

-- `execute`; an invalid action is refused before it.
unfoldable pub execute : World → Action → Content → CanvasState → Run
execute w clear_action a cs = clear cs
execute w regenerate_action a cs = regenerate a cs
execute w add_layer_action a cs = add_layer w a cs
execute w remove_layer_action a cs = remove_layer a cs
execute w move_layer_action a cs = move_layer a cs
execute w set_control_action a cs = set_control a cs
execute w set_palette_action a cs = set_palette a cs
execute w set_size_action a cs = set_size a cs
execute w set_aspect_action a cs = set_aspect w.floats a cs
execute w undo_action a cs = undo w cs
execute w redo_action a cs = redo w cs
execute w invalid a cs = stopped cs (refuse invalid_action not_legal)

-- The `ActionError` that `CanvasAction.enact` makes of what was raised.
abbrev pub normalize : String → Failure → CanvasError
normalize phase (refuse code reason) = record {
  code = code;
  message = reason;
  retry_phase = some phase;
}
normalize phase (throw e) = record {
  code = execution_failed;
  message = exception e;
  retry_phase = some phase;
}

abbrev pub stamp : World → Happening → Event
stamp w what = record { type_ = what; at = w.now }

-- A success logs its event; a failure sets `last_error` and logs the error.
unfoldable pub finish : World → String → Run → CanvasResult × CanvasState
finish w name (done cs what) = (succeeded name (stamp w what), log_event (stamp w what) cs)
finish w name (stopped cs f) =
    let err = normalize cs.phase f in
    (
      failed name err (stamp w (error err)),
      log_event (stamp w (error err)) (record cs { last_error = some err }),
    )

-- `CanvasAction.enact`
unfoldable pub run_action : World → Action → Content → CanvasState → CanvasResult × CanvasState
run_action w action a cs = finish w (action_type action) (execute w action a cs)

-- Pushes the snapshot from before the action, if the action changed what a snapshot shows.
unfoldable pub remember : Bool → Snapshot → CanvasState → CanvasState
remember undoable pre cs =
    if undoable && not (snapshot_eq cs.heap pre (snapshot cs))
    then record cs { undo_stack = take undo_limit (pre ∷ cs.undo_stack); redo_stack = [] }
    else cs

-- `CanvasState.enact`. Its test `result.success` reads the class method `ActionResult.success`,
-- which is true of every result, so there is no test of the result here.
unfoldable pub enact : World → String → Content → CanvasState → CanvasResult × CanvasState
enact w name a cs =
    let (result, after) = run_action w (create_canvas_action cs.phase name) a cs in
    (result, remember (is_undoable name) (snapshot cs) after)
