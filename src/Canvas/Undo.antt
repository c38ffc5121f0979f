-- ===== src/Canvas/Undo.antt =====
-- About undo and redo: CanvasUndo and CanvasRedo of canvas/action.py.
use mathlib.Core.Path.{subst}
use second_brain_art.Common.{
  ℕ, ◌<◌, ◌≡◌, ◌≢◌, refl, sym, ap, ◌∙◌, some, List, String, length, take, ◌∷◌, arith, Bool, true,
  false, All,
}
use second_brain_art.Canvas.Chain.{deref}
use second_brain_art.Canvas.Restore.{to_dict, from_dict}
use second_brain_art.Canvas.RoundTrip.{from_dict-to_dict}
use second_brain_art.Canvas.State.{
  CanvasState, Snapshot, canvas_idle, undo_limit, snapshot, log_event, snapshot_eq,
}
use second_brain_art.Canvas.Actions.{Content, World, Run, done, stopped}
use second_brain_art.Canvas.Dispatch.{
  Action, set_palette_action, execute, finish, run_action, remember, enact, create_canvas_action,
  is_undoable, action_type,
}
use second_brain_art.Canvas.Edits.{IsSound, IsSoundSnapshot, final}
use second_brain_art.Canvas.Effects.{
  create-action, Stepped, undo-step, redo-step, execute-Frame, execute-deref,
}

-- `to` has the canvas and the seed of `from`, and the controls that `from` could see.
pub record SameView (from to : CanvasState) : Type 0 where
  pub canvas : to.canvas ≡ from.canvas
  pub render_seed : to.render_seed ≡ from.render_seed
  pub controls : (r : ℕ) → r < length from.heap → deref to.heap r ≡ deref from.heap r

pub snapshot-finish :
    (w : World) (name : String) (r : Run) → snapshot (finish w name r).1 ≡ snapshot (final r)
unfolding finish log_event snapshot
snapshot-finish w name (done cs what) = refl
snapshot-finish w name (stopped cs f) = refl

finish-Frame :
    (w : World) (name : String) (r : Run)
    → ((finish w name r).1.phase ≡ (final r).phase)
      × ((finish w name r).1.undo_stack ≡ (final r).undo_stack)
      × ((finish w name r).1.heap ≡ (final r).heap)
unfolding finish log_event
finish-Frame w name (done cs what) = (refl, refl, refl)
finish-Frame w name (stopped cs f) = (refl, refl, refl)

-- What `remember` does where the snapshot has changed, and what it leaves alone.
remember-changed :
    (pre : Snapshot) (cs : CanvasState)
    → snapshot_eq cs.heap pre (snapshot cs) ≡ false
    → (remember true pre cs).undo_stack ≡ take undo_limit (pre ∷ cs.undo_stack)
unfolding remember
remember-changed pre cs e = rw e

remember-same_view :
    (b : Bool) (pre : Snapshot) (cs : CanvasState)
    → (snapshot (remember b pre cs) ≡ snapshot cs)
      × ((remember b pre cs).heap ≡ cs.heap)
      × ((remember b pre cs).phase ≡ cs.phase)
unfolding remember snapshot
remember-same_view b pre cs = ground arith

after : World → Action → Content → CanvasState → CanvasState
after w action a cs = (finish w (action_type action) (execute w action a cs)).1

unfoldable pub acted : World → Action → Content → CanvasState → CanvasState
acted w action a cs = (enact w (action_type action) a cs).1

resolved :
    (cs : CanvasState) (action : Action)
    → cs.phase ≡ canvas_idle
    → is_undoable (action_type action) ≡ true
    → create_canvas_action cs.phase (action_type action) ≡ action
resolved cs action idle undoable = rw idle (create-action action undoable)

acted-remember :
    (w : World) (action : Action) (a : Content) (cs : CanvasState)
    → is_undoable (action_type action) ≡ true
    → create_canvas_action cs.phase (action_type action) ≡ action
    → acted w action a cs ≡ remember true (snapshot cs) (after w action a cs)
unfolding enact run_action after acted
acted-remember w action a cs undoable e = rw e (rw undoable)

module _ (w : World) (action : Action) (a : Content) (cs : CanvasState)
    (idle : cs.phase ≡ canvas_idle) (undoable : is_undoable (action_type action) ≡ true) where
  acted_lem : acted w action a cs ≡ remember true (snapshot cs) (after w action a cs)
  acted_lem = acted-remember w action a cs undoable (resolved cs action idle undoable)

  pub acted-phase : (acted w action a cs).phase ≡ canvas_idle
  unfolding after
  acted-phase = rw acted_lem (
      (remember-same_view true (snapshot cs) _).2
      ∙ (finish-Frame w (action_type action) (execute w action a cs)).0
      ∙ (execute-Frame w action a cs undoable).0
      ∙ idle)

  pub acted-heap : (acted w action a cs).heap ≡ (final (execute w action a cs)).heap
  unfolding after
  acted-heap = rw acted_lem (
      (remember-same_view true (snapshot cs) _).1
      ∙ (finish-Frame w (action_type action) (execute w action a cs)).2)

  pub snapshot-acted : snapshot (acted w action a cs) ≡ snapshot (final (execute w action a cs))
  unfolding after
  snapshot-acted = rw acted_lem (
      (remember-same_view true (snapshot cs) _).0
      ∙ snapshot-finish w (action_type action) (execute w action a cs))

  changed-after :
      snapshot_eq (acted w action a cs).heap (snapshot cs) (snapshot (acted w action a cs)) ≡ false
      → snapshot_eq (after w action a cs).heap (snapshot cs) (snapshot (after w action a cs))
        ≡ false
  changed-after changed = cc (
    ap (λ (x : CanvasState). x.heap) acted_lem,
    ap snapshot acted_lem,
    (remember-same_view true (snapshot cs) (after w action a cs)).0,
    (remember-same_view true (snapshot cs) (after w action a cs)).1,
  )

  -- The snapshot from before the action is on top of the stack.
  pub acted-undo_stack :
      snapshot_eq (acted w action a cs).heap (snapshot cs) (snapshot (acted w action a cs)) ≡ false
      → (acted w action a cs).undo_stack ≡ snapshot cs ∷ take 49 cs.undo_stack
  unfolding after
  acted-undo_stack changed = rw acted_lem (
      remember-changed (snapshot cs) _ (changed-after changed)
      ∙ ap (λ x. snapshot cs ∷ take 49 x)
          ((finish-Frame w (action_type action) (execute w action a cs)).1
            ∙ (execute-Frame w action a cs undoable).1))

-- An undo after any undoable action but `set_palette` that changed something gives back the canvas
-- and the seed from before the action, and the controls of every layer that was there: the state
-- must be sound and idle.
pub undo-acted :
    (w v : World) (action : Action) (a b : Content) (cs : CanvasState)
    → IsSound cs
    → cs.phase ≡ canvas_idle
    → is_undoable (action_type action) ≡ true
    → action ≢ set_palette_action
    → snapshot_eq (acted w action a cs).heap (snapshot cs) (snapshot (acted w action a cs)) ≡ false
    → SameView cs (enact v "undo" b (acted w action a cs)).1
unfolding snapshot
undo-acted w v action a b cs s idle undoable other changed = record {
  canvas = step.0.canvas ∙ from_dict-to_dict v.fresh (length cs.heap) cs.canvas s.canvas;
  render_seed = step.0.render_seed;
  controls = λ r h.
      ap (λ x. deref x r) (step.0.heap ∙ acted-heap w action a cs idle undoable)
      ∙ execute-deref w action a cs r other h;
}
  where
    step :
        Stepped (acted w action a cs) (enact v "undo" b (acted w action a cs)).1 v (snapshot cs)
        × ((enact v "undo" b (acted w action a cs)).1.undo_stack ≡ take 49 cs.undo_stack)
        × ((enact v "undo" b (acted w action a cs)).1.redo_stack
            ≡ snapshot (acted w action a cs) ∷ (acted w action a cs).redo_stack)
    step =
        undo-step v b (acted w action a cs) (snapshot cs) (take 49 cs.undo_stack)
          (acted-phase w action a cs idle undoable)
          (acted-undo_stack w action a cs idle undoable changed)

-- A snapshot is what a canvas restored from it is written as.
retaken :
    (w : World) (n : ℕ) (s : Snapshot)
    → IsSoundSnapshot n s
    → to_dict (from_dict w.fresh (some s.canvas)) ≡ s.canvas
retaken w n s (c, e, k) = rw e (ap to_dict (from_dict-to_dict w.fresh n c k))

-- Both stacks and the view are those of `from`.
pub record SameHistory (from to : CanvasState) : Type 0 where
  pub view : SameView from to
  pub undo_stack : to.undo_stack ≡ from.undo_stack
  pub redo_stack : to.redo_stack ≡ from.redo_stack

-- A redo right after an undo gives back the canvas, the seed, the controls and both stacks of a
-- sound idle state that has something to undo.
pub redo-undo :
    (w v : World) (a b : Content) (cs : CanvasState) (s : Snapshot) (stack : List Snapshot)
    → IsSound cs
    → cs.phase ≡ canvas_idle
    → cs.undo_stack ≡ s ∷ stack
    → SameHistory cs (enact v "redo" b (enact w "undo" a cs).1).1
unfolding snapshot
redo-undo w v a b cs s stack sound idle e = record {
  view = record {
    canvas = again.0.canvas ∙ from_dict-to_dict v.fresh (length cs.heap) cs.canvas sound.canvas;
    render_seed = again.0.render_seed;
    controls = λ r h. ap (λ x. deref x r) (again.0.heap ∙ step.0.heap);
  };
  undo_stack = again.2 ∙ (λ j. same j ∷ step.1 j) ∙ sym e;
  redo_stack = again.1;
}
  where
    undone : CanvasState
    undone = (enact w "undo" a cs).1

    step :
        Stepped cs undone w s
        × (undone.undo_stack ≡ stack)
        × (undone.redo_stack ≡ snapshot cs ∷ cs.redo_stack)
    step = undo-step w a cs s stack idle e

    same : snapshot undone ≡ s
    same = λ j. record {
      canvas =
          (ap to_dict step.0.canvas
              ∙ retaken w (length cs.heap) s
                  (subst (All (IsSoundSnapshot (length cs.heap))) e sound.undo).0)
            j;
      render_seed = step.0.render_seed j;
    }

    again :
        Stepped undone (enact v "redo" b undone).1 v (snapshot cs)
        × ((enact v "redo" b undone).1.redo_stack ≡ cs.redo_stack)
        × ((enact v "redo" b undone).1.undo_stack ≡ snapshot undone ∷ undone.undo_stack)
    again = redo-step v b undone (snapshot cs) cs.redo_stack (step.0.phase ∙ idle) step.2
