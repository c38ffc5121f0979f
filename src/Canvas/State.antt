-- ===== src/Canvas/State.antt =====
-- canvas/state.py: the state of one canvas, its event log, its snapshots and their comparison.
-- The three lists are kept newest first: the program's `append` is a `∷`, `pop` takes the head, and
-- `del stack[: len(stack) - LIMIT]` keeps the first LIMIT entries.
use second_brain_art.Common.{
  ℕ, Bool, true, false, ◌&&◌, Option, none, some, List, [], ◌∷◌, String, ℤ, int_eq, str_eq, ◌==◌,
  length, take,
}
use second_brain_art.Python.{Value, value_eq}
use second_brain_art.Python.Dict.{lookup}
use second_brain_art.Errors.{ActionError, ActionResult}
use second_brain_art.Canvas.Chain.{Heap, Controls, Layer, Canvas, Exn, controls_of}
use second_brain_art.Canvas.Restore.{CanvasData, to_dict}

abbrev pub canvas_idle : String
canvas_idle = "canvas_idle"

abbrev pub history_limit : ℕ
history_limit = 100

abbrev pub undo_limit : ℕ
undo_limit = 50

-- The messages of the errors of canvas/action.py, with what they print.
pub data Reason : Type 0 where
  not_legal : Reason
  needs_technique_slug needs_integer_index needs_two_indices needs_control_name : Reason
  needs_palette_id needs_integer_size needs_numeric_ratios ratios_not_positive : Reason
  bad_kind : Value → Reason
  at_layer_limit : ℕ → Reason
  nothing_to_undo nothing_to_redo : Reason
  exception : Exn → Reason

abbrev pub CanvasError : Type 0
CanvasError = ActionError Reason String

pub data Happening : Type 0 where
  cleared undone redone : Happening
  regenerated : Bool → Happening
  layer_added : Value → Value → Happening
  layer_removed : ℤ → Happening
  layer_moved : ℤ → ℤ → Happening
  control_set : ℤ → String → Value → Happening
  palette_set : String → Happening
  size_set : ℕ → Happening
  aspect_set : ℕ → ℕ → Happening
  error : CanvasError → Happening

pub record Event : Type 0 where
  pub type_ : Happening
  pub at : ℕ

abbrev pub CanvasResult : Type 0
CanvasResult = ActionResult Reason String Event

pub record Snapshot : Type 0 where
  pub canvas : CanvasData
  pub render_seed : Option ℤ

-- `heap` holds the dict objects of the layers' controls.
pub record CanvasState : Type 0 where
  pub canvas_id : String
  pub canvas : Canvas
  pub phase : String
  pub history : List Event
  pub render_seed : Option ℤ
  pub last_error : Option CanvasError
  pub undo_stack : List Snapshot
  pub redo_stack : List Snapshot
  pub heap : Heap

unfoldable pub snapshot : CanvasState → Snapshot
snapshot cs = record { canvas = to_dict cs.canvas; render_seed = cs.render_seed }

-- Appends to the history, trimmed to its newest `history_limit` events.
unfoldable pub log_event : Event → CanvasState → CanvasState
log_event ev cs = record cs { history = take history_limit (ev ∷ cs.history) }

-- `==` on what a snapshot is made of. Layers are compared by the dict objects they refer to.
abbrev pub option_eq {ℓ} : {A : Type ℓ} → (A → A → Bool) → Option A → Option A → Bool
option_eq eq none none = true
option_eq eq (some a) (some b) = eq a b
option_eq eq _ _ = false

abbrev pub list_eq {ℓ} : {A : Type ℓ} → (A → A → Bool) → List A → List A → Bool
list_eq eq [] [] = true
list_eq eq (a ∷ more) (b ∷ rest) = eq a b && list_eq eq more rest
list_eq eq _ _ = false

abbrev pub nat_eq : ℕ → ℕ → Bool
nat_eq a b = a == b

unfoldable pub agree_on : Controls → Controls → Controls → Bool
agree_on [] d e = true
agree_on ((k, _) ∷ keys) d e = option_eq value_eq (lookup k d) (lookup k e) && agree_on keys d e

-- `d == e` on dicts: as many keys, and each key of one has the same value in the other.
unfoldable pub controls_eq : Controls → Controls → Bool
unfolding agree_on
controls_eq d e = length d == length e && agree_on d d e

unfoldable pub layer_eq : Heap → Layer → Layer → Bool
unfolding controls_eq
layer_eq h l m =
    option_eq str_eq l.id m.id
    && value_eq l.slug m.slug
    && value_eq l.kind m.kind
    && controls_eq (controls_of h l) (controls_of h m)

unfoldable pub snapshot_eq : Heap → Snapshot → Snapshot → Bool
unfolding layer_eq
snapshot_eq h s t =
    option_eq nat_eq s.canvas.width t.canvas.width
    && option_eq nat_eq s.canvas.height t.canvas.height
    && option_eq str_eq s.canvas.palette_id t.canvas.palette_id
    && option_eq (list_eq (layer_eq h)) s.canvas.layers t.canvas.layers
    && option_eq int_eq s.render_seed t.render_seed
