-- ===== src/Canvas/Actions.antt =====
-- canvas/action.py and canvas/action_map.py: the actions, their dispatch by phase and name, and
-- `CanvasAction.enact`; `CanvasState.enact` of canvas/state.py.
use second_brain_art.Common.{
  ℕ, Bool, not, ◌&&◌, ◌||◌, Option, none, some, List, [], ◌∷◌, String, ℤ, pos, negsuc, str_eq, leb,
  ltb, if◌then◌else◌, length,
}
use second_brain_art.Python.{
  Value, truthy, as_index, int_of, Conversion, converted, refused, overflowed,
}
use second_brain_art.Errors.{ErrorCode, invalid_action, invalid_input}
use second_brain_art.Canvas.Chain
use second_brain_art.Canvas.Chain.{
  Heap, Controls, Layer, Canvas, Exn, unroundable, overflow_error, Outcome, ok, raised, alloc,
  max_chain_length, apply_palette, apply_control, delete_entry, move_entry, push_chain_entry,
  set_dimensions, reset, is_background, is_transform,
}
use second_brain_art.Canvas.Restore.{from_dict}
use second_brain_art.Canvas.State.{
  Reason, needs_technique_slug, needs_integer_index, needs_two_indices, needs_control_name,
  needs_palette_id, needs_integer_size, needs_numeric_ratios, ratios_not_positive, bad_kind,
  at_layer_limit, nothing_to_undo, nothing_to_redo, Happening, cleared, undone, redone, regenerated,
  layer_added, layer_removed, layer_moved, control_set, palette_set, size_set, aspect_set, Snapshot,
  CanvasState, snapshot,
}

-- The payload of an action, by the keys that the actions read. A control's name and a palette's id
-- are texts where they are given; the others range over all values.
pub record Content : Type 0 where
  pub technique_slug : Value
  pub kind : Value
  pub max_layers : Value
  pub controls : Option Controls
  pub chain_index : Value
  pub from_index : Value
  pub to_index : Value
  pub name : Option String
  pub value : Value
  pub palette_id : Option String
  pub size : Value
  pub ratio_w : Value
  pub ratio_h : Value
  pub force_new_seed : Value

-- Python's floats, by their bit patterns: `float(v)`, `x > 0`, `x >= y`, and
-- `round(base * x / y)`, which is `none` where it raises (a NaN or an infinity).
pub record Floats : Type 0 where
  pub float_of : Value → Conversion
  pub is_positive : ℤ → Bool
  pub ge : ℤ → ℤ → Bool
  pub round_scaled : ℕ → ℤ → ℤ → Option ℤ

-- What an action draws from outside: the clock, and the ids that `secrets` mints.
pub record World : Type 0 where
  pub now : ℕ
  pub fresh : ℕ → String
  pub floats : Floats

-- What an `execute` raises: an `ActionError` of its own, or another exception.
pub data Failure : Type 0 where
  refuse : ErrorCode → Reason → Failure
  throw : Exn → Failure

-- An `execute` ends in a state, with the event it logs or with what it raised.
pub data Run : Type 0 where
  done : CanvasState → Happening → Run
  stopped : CanvasState → Failure → Run

abbrev pub with_canvas : CanvasState → Happening → Outcome Canvas → Run
with_canvas cs what (ok c) = done (record cs { canvas = c }) what
with_canvas cs what (raised e) = stopped cs (throw e)

abbrev pub with_heap : CanvasState → Happening → Outcome (Heap × Canvas) → Run
with_heap cs what (ok (h, c)) = done (record cs { canvas = c; heap = h }) what
with_heap cs what (raised e) = stopped cs (throw e)

unfoldable pub clear : CanvasState → Run
clear cs = done (record cs { canvas = reset cs.canvas }) cleared

unfoldable pub regenerate : Content → CanvasState → Run
regenerate a cs = done cs (regenerated (truthy a.force_new_seed))

-- The cap on the chain: `int(max_layers)`, or the default where that fails or is below 1.
unfoldable pub layer_cap : Value → Outcome ℕ
layer_cap v = elim (int_of v) [
  | refused ↦ ok max_chain_length
  | overflowed ↦ raised overflow_error
  | converted z ↦ elim z [
    | negsuc _ ↦ ok max_chain_length
    | pos n ↦ ok (if ltb n 1 then max_chain_length else n)
  ]
]

abbrev pub or_empty : Option Controls → Controls
or_empty none = []
or_empty (some d) = d

abbrev pub push_layer : World → Content → CanvasState → Run
push_layer w a cs =
    with_canvas (record cs { heap = alloc cs.heap (or_empty a.controls) })
      (layer_added a.technique_slug a.kind)
      (push_chain_entry
        (record {
          id = some (w.fresh 0);
          slug = a.technique_slug;
          kind = a.kind;
          controls = some (length cs.heap);
        })
        cs.canvas)

abbrev pub push_within : World → Content → CanvasState → Outcome ℕ → Run
push_within w a cs (raised e) = stopped cs (throw e)
push_within w a cs (ok cap) =
    if leb cap (length cs.canvas.layers)
    then stopped cs (refuse invalid_action (at_layer_limit cap))
    else push_layer w a cs

unfoldable pub add_layer : World → Content → CanvasState → Run
add_layer w a cs =
    if not (truthy a.technique_slug)
    then stopped cs (refuse invalid_input needs_technique_slug)
    else if not (is_background a.kind || is_transform a.kind)
    then stopped cs (refuse invalid_input (bad_kind a.kind))
    else if is_transform a.kind
    then push_within w a cs (layer_cap a.max_layers)
    else push_layer w a cs

abbrev pub remove_at : CanvasState → Option ℤ → Run
remove_at cs none = stopped cs (refuse invalid_input needs_integer_index)
remove_at cs (some z) =
    if Chain.is_zero z
    then done (record cs { canvas = reset cs.canvas }) (layer_removed z)
    else with_canvas cs (layer_removed z) (delete_entry z cs.canvas)

unfoldable pub remove_layer : Content → CanvasState → Run
remove_layer a cs = remove_at cs (as_index a.chain_index)

abbrev pub move_from_to : CanvasState → Option ℤ → Option ℤ → Run
move_from_to cs (some i) (some j) = with_canvas cs (layer_moved i j) (move_entry i j cs.canvas)
move_from_to cs _ _ = stopped cs (refuse invalid_input needs_two_indices)

unfoldable pub move_layer : Content → CanvasState → Run
move_layer a cs = move_from_to cs (as_index a.from_index) (as_index a.to_index)

abbrev pub nonempty : Option String → Option String
nonempty none = none
nonempty (some s) = if str_eq s "" then none else some s

abbrev pub set_control_at : Value → CanvasState → Option ℤ → Option String → Run
set_control_at v cs none name = stopped cs (refuse invalid_input needs_integer_index)
set_control_at v cs (some z) none = stopped cs (refuse invalid_input needs_control_name)
set_control_at v cs (some z) (some name) =
    with_heap cs (control_set z name v) (apply_control z name v cs.heap cs.canvas)

unfoldable pub set_control : Content → CanvasState → Run
set_control a cs = set_control_at a.value cs (as_index a.chain_index) (nonempty a.name)

abbrev pub set_palette_to : CanvasState → Option String → Run
set_palette_to cs none = stopped cs (refuse invalid_input needs_palette_id)
set_palette_to cs (some p) = with_heap cs (palette_set p) (ok (apply_palette p cs.heap cs.canvas))

unfoldable pub set_palette : Content → CanvasState → Run
set_palette a cs = set_palette_to cs (nonempty a.palette_id)

abbrev pub set_size_to : CanvasState → Option ℤ → Run
set_size_to cs none = stopped cs (refuse invalid_input needs_integer_size)
set_size_to cs (some z) =
    let c = Chain.set_size z cs.canvas in done (record cs { canvas = c }) (size_set (Chain.size c))

unfoldable pub set_size : Content → CanvasState → Run
set_size a cs = set_size_to cs (as_index a.size)

abbrev pub apply_aspect : CanvasState → Option ℤ → Option ℤ → Run
apply_aspect cs (some w) (some h) =
    let c = set_dimensions w h cs.canvas in
    done (record cs { canvas = c }) (aspect_set c.width c.height)
apply_aspect cs _ _ = stopped cs (throw unroundable)

-- The long edge keeps its length and the other is scaled by the ratio.
abbrev pub scale_to : Floats → ℤ → ℤ → CanvasState → Run
scale_to f rw rh cs =
    let base = Chain.size cs.canvas in
    if f.ge rw rh
    then apply_aspect cs (some (pos base)) (f.round_scaled base rh rw)
    else apply_aspect cs (f.round_scaled base rw rh) (some (pos base))

abbrev pub scale : Floats → CanvasState → Conversion → Conversion → Run
scale f cs (converted rw) (converted rh) =
    if f.is_positive rw && f.is_positive rh
    then scale_to f rw rh cs
    else stopped cs (refuse invalid_input ratios_not_positive)
scale f cs overflowed rh = stopped cs (throw overflow_error)
scale f cs (converted rw) overflowed = stopped cs (throw overflow_error)
scale f cs _ _ = stopped cs (refuse invalid_input needs_numeric_ratios)

unfoldable pub set_aspect : Floats → Content → CanvasState → Run
set_aspect f a cs = scale f cs (f.float_of a.ratio_w) (f.float_of a.ratio_h)

-- Puts a snapshot in place of the canvas and the seed.
abbrev pub reinstate : World → Snapshot → CanvasState → CanvasState
reinstate w s cs = record cs {
  canvas = from_dict w.fresh (some s.canvas);
  render_seed = s.render_seed;
}

abbrev pub undo_to : World → CanvasState → List Snapshot → Run
undo_to w cs [] = stopped cs (refuse invalid_action nothing_to_undo)
undo_to w cs (s ∷ stack) =
    done
      (reinstate w s (record cs { undo_stack = stack; redo_stack = snapshot cs ∷ cs.redo_stack }))
      undone

unfoldable pub undo : World → CanvasState → Run
undo w cs = undo_to w cs cs.undo_stack

abbrev pub redo_to : World → CanvasState → List Snapshot → Run
redo_to w cs [] = stopped cs (refuse invalid_action nothing_to_redo)
redo_to w cs (s ∷ stack) =
    done
      (reinstate w s (record cs { redo_stack = stack; undo_stack = snapshot cs ∷ cs.undo_stack }))
      redone

unfoldable pub redo : World → CanvasState → Run
redo w cs = redo_to w cs cs.redo_stack
