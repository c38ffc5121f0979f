-- ===== src/Canvas/Lead.antt =====
-- The layer at position 0 of the chain of canvas/canvas.py.
pub mod Edits
pub mod Steps
use mathlib.Core.Path.{subst}
use second_brain_art.Common.{
  ℕ, zero, suc, ◌≤◌, ◌<◌, ◌≡◌, ◌≢◌, ◌⊎◌, refl, sym, ap, ◌∙◌, Option, none, some, List, [], ◌∷◌,
  ◌++◌, String, ℤ, Bool, true, false, not, ◌&&◌, length, take, get_elem?, set, All, All-take,
  Bool-cases, inl, inr, arith, in_range, if◌then◌else◌,
}
use second_brain_art.Python.{Value, as_index, truthy}
use second_brain_art.Canvas.Chain
use second_brain_art.Canvas.Chain.{
  Heap, Layer, Canvas, Outcome, ok, raised, is_background, is_transform, push_chain_entry,
  replace_first, delete_at, delete_entry, relocate, place, insert_at, displaces_lead, move_between,
  move_entry, control_of, control_at, apply_control, apply_palette, set_dimensions, reset, is_zero,
}
use second_brain_art.Canvas.Restore.{CanvasData, to_dict, from_dict, backfill, list_or}
use second_brain_art.Canvas.State.{
  CanvasState, Snapshot, undo_limit, snapshot, log_event, snapshot_eq,
}
use second_brain_art.Canvas.Actions.{
  Content, World, Run, done, stopped, clear, regenerate, add_layer, push_layer, push_within,
  remove_layer, remove_at, move_layer, move_from_to, set_control, set_control_at, nonempty,
  set_palette, set_size, set_aspect, undo, undo_to, redo, redo_to,
}
use second_brain_art.Canvas.Dispatch.{
  Action, clear_action, regenerate_action, add_layer_action, remove_layer_action, move_layer_action,
  set_control_action, set_palette_action, set_size_action, set_aspect_action, undo_action,
  redo_action, invalid, execute, finish, run_action, remember, enact, create_canvas_action,
  is_undoable, action_type,
}
use second_brain_art.Canvas.Edits.{final}

-- Empty, or led by a background.
abbrev pub IsLed : List Layer → Type 0
IsLed [] = Unit
IsLed (l ∷ ls) = is_background l.kind ≡ true

abbrev pub IsLedData : Option (List Layer) → Type 0
IsLedData none = Unit
IsLedData (some ls) = IsLed ls

-- No snapshot of the state machine has the legacy key.
abbrev pub IsLedSnapshot : Snapshot → Type 0
IsLedSnapshot s = IsLedData s.canvas.layers × (s.canvas.last_chain ≡ none)

pub record IsLedState (cs : CanvasState) : Type 0 where
  pub canvas : IsLed cs.canvas.layers
  pub undo : All IsLedSnapshot cs.undo_stack
  pub redo : All IsLedSnapshot cs.redo_stack

delete_at-IsLed : (ls : List Layer) (i : ℕ) → 0 < i → IsLed ls → IsLed (delete_at ls i)
delete_at-IsLed [] i p h = tt
delete_at-IsLed (l ∷ ls) zero p h = absurd (omega arith)
delete_at-IsLed (l ∷ ls) (suc i) p h = h

set-IsLed :
    (ls : List Layer) (i : ℕ) (l m : Layer)
    → get_elem? ls i ≡ some l
    → m.kind ≡ l.kind
    → IsLed ls
    → IsLed (set ls i m)
set-IsLed [] i l m e k h = tt
set-IsLed (x ∷ xs) zero l m e k h =
    let q : x ≡ l = cc in rw k (subst (λ (y : Layer). is_background y.kind ≡ true) q h)
set-IsLed (x ∷ xs) (suc i) l m e k h = h

place-IsLed :
    (ls : List Layer) (i j : ℕ) (o : Option Layer)
    → get_elem? ls i ≡ o
    → displaces_lead i j ≡ false
    → IsLed ls
    → IsLed (place ls i j o)
place-IsLed ls i j none e k h = h
place-IsLed [] i j (some l) e k h = cc
place-IsLed (x ∷ xs) zero zero (some l) e k h =
    let q : x ≡ l = cc in subst (λ (y : Layer). is_background y.kind ≡ true) q h
place-IsLed (x ∷ xs) zero (suc j) (some l) e k h = absurd (ground arith)
place-IsLed (x ∷ xs) (suc i) zero (some l) e k h = absurd (ground arith)
place-IsLed (x ∷ xs) (suc i) (suc j) (some l) e k h = h

backfill-IsLed :
    (fresh : ℕ → String) (i : ℕ) (ls : List Layer) → IsLed ls → IsLed (backfill fresh i ls)
unfolding backfill
backfill-IsLed fresh i [] h = tt
backfill-IsLed fresh i (l ∷ ls) h = h

restored-IsLed :
    (fresh : ℕ → String) (d : CanvasData)
    → IsLedData d.layers
    → d.last_chain ≡ none
    → IsLed (from_dict fresh (some d)).layers
unfolding from_dict
restored-IsLed fresh d h e = backfill-IsLed fresh zero _ (rw e (chosen d.layers h))
  where
    chosen : (o : Option (List Layer)) → IsLedData o → IsLed (list_or o [])
    chosen none h = tt
    chosen (some []) h = tt
    chosen (some (l ∷ ls)) h = h
