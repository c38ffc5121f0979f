-- ===== src/Canvas/Tests.antt =====
-- The canvas state machine on concrete inputs.
use second_brain_art.Common.{
  ℕ, ◌*◌, ◌≤◌, ◌≡◌, ◌≢◌, refl, inl, Option, none, some, List, [], ◌∷◌, ℤ, pos, negsuc, Bool, true,
  false, leb, ltb, length, arith, take,
}
use Prim.Native.Nat.{◌/◌}
use second_brain_art.Common.{suc, ◌+◌, none}
use second_brain_art.Python.{
  Value, null, int, text, Conversion, converted, refused, int_of, value_eq,
}
use second_brain_art.Python.Dict.{lookup, insert}
use second_brain_art.Errors.{failed}
use second_brain_art.Canvas.Chain
use second_brain_art.Canvas.Chain.{
  recolour_all, recolour, recolour_object, delete_entry, relocate, push_chain_entry, set_dimensions,
  clamp, reset, Layer, Canvas, Heap, deref, ok, apply_palette, move_entry, apply_control,
  is_background,
}
use second_brain_art.Canvas.Restore.{backfill, to_dict, from_dict}
use second_brain_art.Canvas.State.{
  Snapshot, log_event, CanvasState, CanvasError, snapshot, snapshot_eq, history_limit, error,
}
use second_brain_art.Canvas.Actions.{
  clear, regenerate, remove_layer, move_layer, set_control, set_palette, set_size, undo, redo,
  Content, World, Floats, add_layer, set_aspect, layer_cap,
}
use second_brain_art.Canvas.Dispatch.{
  enact, run_action, execute, is_undoable, finish, remember, create_canvas_action,
  set_palette_action, set_control_action, stamp,
}
use second_brain_art.Canvas.Wellformed.{IsSoundCanvas}
use second_brain_art.Canvas.Edits.{IsSound, final}
use second_brain_art.Canvas.Kept.{enact-IsSound}
use second_brain_art.Canvas.RoundTrip.{from_dict-to_dict}
use second_brain_art.Canvas.Failure.{enact-failed}
use second_brain_art.Canvas.Palette.{apply_palette-controls, is_referred, painted}
use second_brain_art.Canvas.Undo.{acted, undo-acted, redo-undo, SameView, SameHistory}
use second_brain_art.Canvas.Alias.{undo-set_palette}
use second_brain_art.Canvas.Order.{Moved, move_entry-Moved}
use second_brain_art.Canvas.Lead.{IsLedState}
use second_brain_art.Canvas.Lead.Steps.{enact-IsLed, add_layer-unled}
use second_brain_art.Canvas.Layers.{Controlled, apply_control-Controlled, add_layer-within}

-- Floats that are integers.
abbrev sample_ge : ℤ → ℤ → Bool
sample_ge (pos a) (pos b) = leb b a
sample_ge (pos a) (negsuc b) = true
sample_ge (negsuc a) (pos b) = false
sample_ge (negsuc a) (negsuc b) = leb a b

-- base * a / b, rounded half up
abbrev rounded : ℕ → ℕ → ℕ → ℕ
rounded base a b = (2 * (base * a) + b) / (2 * b)

abbrev sample_scaled : ℕ → ℤ → ℤ → Option ℤ
sample_scaled base (pos a) (pos (suc b)) = some (pos (rounded base a (suc b)))
sample_scaled base _ _ = none

abbrev sample_float : Value → Conversion
sample_float (int z) = converted z
sample_float _ = refused

abbrev sample_positive : ℤ → Bool
sample_positive (pos a) = ltb 0 a
sample_positive (negsuc a) = false

abbrev floats : Floats
floats = record {
  float_of = sample_float;
  is_positive = sample_positive;
  ge = sample_ge;
  round_scaled = sample_scaled;
}

abbrev world : World
world = record { now = 7; fresh = λ i. "fresh"; floats = floats }

abbrev backdrop : Layer
backdrop = record {
  id = some "a";
  slug = text "aurora";
  kind = text "background";
  controls = some 0;
}

abbrev grain : Layer
grain = record { id = some "b"; slug = text "film_grain"; kind = text "filter"; controls = some 1 }

abbrev two_layers : Canvas
two_layers = record {
  width = 1024;
  height = 1024;
  palette_id = "bauhaus";
  layers = backdrop ∷ grain ∷ [];
}

abbrev objects : Heap
objects = (("palette", text "bauhaus") ∷ []) ∷ (("amount", int (pos 3)) ∷ []) ∷ []

abbrev state : CanvasState
state = record {
  canvas_id = "c";
  canvas = two_layers;
  phase = "canvas_idle";
  history = [];
  render_seed = some (pos 5);
  last_error = none;
  undo_stack = [];
  redo_stack = [];
  heap = objects;
}

abbrev blank : Content
blank = record {
  technique_slug = null;
  kind = null;
  max_layers = null;
  controls = none;
  chain_index = null;
  from_index = null;
  to_index = null;
  name = none;
  value = null;
  palette_id = none;
  size = null;
  ratio_w = null;
  ratio_h = null;
  force_new_seed = null;
}

abbrev old : Snapshot
old = record {
  canvas = record {
    width = some 1024;
    height = some 1024;
    size = none;
    palette_id = some "bauhaus";
    layers = some [];
    last_chain = none;
  };
  render_seed = none;
}

two_layers_sound : IsSoundCanvas 2 two_layers
two_layers_sound = record {
  width = omega arith;
  height = omega arith;
  palette = refl;
  layers = ((refl, omega arith), ((refl, omega arith), tt));
}

state-IsSound : IsSound state
state-IsSound = record {
  canvas = two_layers_sound;
  undo = tt;
  redo = tt;
  stacks = omega arith;
  history = omega arith;
}

enact-IsSound_example : IsSound (enact world "clear" blank state).1
enact-IsSound_example = enact-IsSound world "clear" blank state refl state-IsSound

from_dict-to_dict_example : from_dict (λ i. "x") (some (to_dict two_layers)) ≡ two_layers
from_dict-to_dict_example = from_dict-to_dict (λ i. "x") 2 two_layers two_layers_sound

-- What a run of the state machine computes with.
program : Unit {0}
unfolding enact run_action execute create_canvas_action is_undoable finish log_event remember
    snapshot snapshot_eq clear regenerate add_layer remove_layer move_layer set_control set_palette
    set_size set_aspect undo redo layer_cap int_of lookup insert value_eq apply_palette recolour_all
    recolour recolour_object apply_control delete_entry move_entry relocate push_chain_entry
    Chain.set_size set_dimensions clamp Chain.size reset to_dict from_dict backfill is_referred
program = tt

nothing_to_undo : (enact world "undo" blank state).0.ok ≡ false
unfolding program
nothing_to_undo = refl

abbrev UnknownError : CanvasState → Type 0
UnknownError cs =
    (err : CanvasError) × ((enact world "undo" blank cs).0
      ≡ failed "undo" err (stamp world (error err)))
    × ((enact world "undo" blank cs).1 ≡ record cs {
      last_error = some err;
      history = take history_limit (stamp world (error err) ∷ cs.history);
    })

enact-failed_example : UnknownError state
unfolding create_canvas_action
enact-failed_example = enact-failed world "undo" blank state nothing_to_undo

apply_palette-controls_example :
    (lookup "palette" (deref (apply_palette "nord" objects two_layers).0 0)
      ≡ painted (is_referred 0 two_layers.layers) "nord" "palette" (deref objects 0))
    × ((apply_palette "nord" objects two_layers).1 ≡ record two_layers { palette_id = "nord" })
apply_palette-controls_example =
    apply_palette-controls "nord" "palette" objects two_layers 0 (omega arith)

abbrev edit : Content
edit = record blank { chain_index = int (pos 1); name = some "amount"; value = int (pos 9) }

edited :
    snapshot_eq
      (acted world set_control_action edit state).heap
      (snapshot state)
      (snapshot (acted world set_control_action edit state))
    ≡ false
unfolding program acted
edited = refl

other_action : set_control_action ≢ set_palette_action
other_action e = cc

undoable : is_undoable "set_control" ≡ true
unfolding is_undoable
undoable = refl

undo-acted_example :
    SameView state (enact world "undo" blank (acted world set_control_action edit state)).1
undo-acted_example =
    undo-acted world world set_control_action edit blank state state-IsSound refl undoable
      other_action edited

abbrev recoloured : Content
recoloured = record blank { palette_id = some "nord" }

undo-set_palette_example :
    ((enact world "undo" blank (acted world set_palette_action recoloured state)).1.canvas
      ≡ two_layers)
    × (lookup "palette" (
          deref
            (enact world "undo" blank (acted world set_palette_action recoloured state)).1.heap
            0)
        ≡ some (text "nord"))
unfolding is_referred lookup
undo-set_palette_example =
    undo-set_palette world world recoloured blank state "nord" 0 state-IsSound refl refl refl refl
      (omega arith) refl refl

abbrev earlier : CanvasState
earlier = record state { undo_stack = old ∷ [] }

earlier-IsSound : IsSound earlier
unfolding to_dict
earlier-IsSound = record {
  canvas = two_layers_sound;
  undo = (
    (
      record { width = 1024; height = 1024; palette_id = "bauhaus"; layers = [] },
      refl,
      record {
        width = (omega arith, omega arith);
        height = (omega arith, omega arith);
        palette = refl;
        layers = tt;
      },
    ),
    tt,
  );
  redo = tt;
  stacks = omega arith;
  history = omega arith;
}

redo-undo_example :
    SameHistory earlier (enact world "redo" blank (enact world "undo" blank earlier).1).1
redo-undo_example = redo-undo world world blank blank earlier old [] earlier-IsSound refl refl

abbrev three_layers : Canvas
three_layers = record two_layers { layers = backdrop ∷ grain ∷ grain ∷ [] }

move_entry-Moved_example :
    (ls : List Layer) × (move_entry (pos 1) (pos 2) three_layers
      ≡ ok (record three_layers { layers = ls }))
    × Moved 1 2 three_layers.layers ls
move_entry-Moved_example = move_entry-Moved 1 2 three_layers (omega arith) (omega arith) refl

moved : move_entry (pos 2) (pos 1) three_layers ≡ ok three_layers
unfolding program
moved = refl

state-IsLed : IsLedState state
state-IsLed = record { canvas = refl; undo = tt; redo = tt }

enact-IsLed_example : IsLedState (enact world "remove_layer" edit state).1
enact-IsLed_example = enact-IsLed world "remove_layer" edit state (inl (λ t. cc)) state-IsLed

abbrev empty_state : CanvasState
empty_state = record state { canvas = record two_layers { layers = [] } }

abbrev add_grain : Content
add_grain = record blank {
  technique_slug = text "film_grain";
  kind = text "filter";
  max_layers = text "2";
}

cap_of_two : layer_cap (text "2") ≡ ok 2
unfolding program
cap_of_two = refl

add_layer-unled_example :
    (l : Layer) × ((final (add_layer world add_grain empty_state)).canvas.layers ≡ l ∷ [])
    × (is_background l.kind ≡ false)
add_layer-unled_example = add_layer-unled world add_grain empty_state 1 refl refl refl cap_of_two

add_layer-within_example : length (final (add_layer world add_grain state)).canvas.layers ≤ 2
add_layer-within_example = add_layer-within world add_grain state 2 cap_of_two (omega arith)

apply_control-Controlled_example :
    (h' : Heap) × (c' : Canvas) × (apply_control (pos 1) "amount" (int (pos 9)) objects two_layers
      ≡ ok (h', c'))
    × Controlled 1 0 0 "amount" "amount" (int (pos 9)) objects h' two_layers c' grain
apply_control-Controlled_example =
    apply_control-Controlled 1 0 0 "amount" "amount" (int (pos 9)) objects two_layers grain refl
      (omega arith) (omega arith)

abbrev wide : Content
wide = record blank { ratio_w = int (pos 2); ratio_h = int (pos 1) }
