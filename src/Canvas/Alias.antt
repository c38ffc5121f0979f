-- ===== src/Canvas/Alias.antt =====
-- `apply_palette` writes into dict objects that the snapshots on the undo stack refer to as well.
use second_brain_art.Common.{
  ℕ, ◌<◌, ◌≡◌, refl, ap, ◌∙◌, some, String, str_eq, true, false, length, take, arith,
}
use second_brain_art.Python.{text}
use second_brain_art.Python.Dict.{lookup, has_key}
use second_brain_art.Canvas.Chain.{Heap, deref, apply_palette}
use second_brain_art.Canvas.RoundTrip.{from_dict-to_dict}
use second_brain_art.Canvas.Restore.{to_dict}
use second_brain_art.Canvas.State.{
  CanvasState, Snapshot, canvas_idle, snapshot, snapshot_eq, option_eq,
}
use second_brain_art.Canvas.Actions.{Content, World, set_palette}
use second_brain_art.Canvas.Dispatch.{set_palette_action, execute, enact, is_undoable}
use second_brain_art.Canvas.Wellformed.{IsFilled}
use second_brain_art.Canvas.Edits.{IsSound, final}
use second_brain_art.Canvas.Palette.{is_referred, apply_palette-controls}
use second_brain_art.Canvas.Effects.{undo-step}
use second_brain_art.Canvas.Undo.{acted, acted-phase, acted-heap, acted-undo_stack, snapshot-acted}

snapshot_eq-palette :
    (h : Heap) (s t : Snapshot)
    → option_eq str_eq s.canvas.palette_id t.canvas.palette_id ≡ false
    → snapshot_eq h s t ≡ false
unfolding snapshot_eq
snapshot_eq-palette h s t e = ground arith

module _ (w : World) (a : Content) (cs : CanvasState) (p : String) (given : a.palette_id ≡ some p)
    (filled : IsFilled p) where
  set_palette-final :
      ((final (execute w set_palette_action a cs)).heap ≡ (apply_palette p cs.heap cs.canvas).0)
      × ((final (execute w set_palette_action a cs)).canvas ≡ (apply_palette p cs.heap cs.canvas).1)
  unfolding execute set_palette
  set_palette-final = rw given (rw filled (refl, refl))

  shown :
      str_eq cs.canvas.palette_id p ≡ false
      → option_eq str_eq
          (snapshot cs).canvas.palette_id
          (snapshot (final (execute w set_palette_action a cs))).canvas.palette_id
        ≡ false
  unfolding snapshot to_dict apply_palette
  shown new = rw (ap (λ c. c.palette_id) set_palette-final.1) new

  changed :
      cs.phase ≡ canvas_idle
      → str_eq cs.canvas.palette_id p ≡ false
      → snapshot_eq
          (acted w set_palette_action a cs).heap
          (snapshot cs)
          (snapshot (acted w set_palette_action a cs))
        ≡ false
  unfolding is_undoable
  changed idle new =
      snapshot_eq-palette _ (snapshot cs) _
        (rw (snapshot-acted w set_palette_action a cs idle refl) (shown new))

-- On a sound idle state, an undo of a `set_palette` to a palette that is not empty and not the current
-- one gives back the canvas with its palette, but not the controls of the layers: each existing object
-- with a "palette" to which a layer refers keeps the palette that was set, whatever it held before.
pub undo-set_palette :
    (w v : World) (a b : Content) (cs : CanvasState) (p : String) (r : ℕ)
    → IsSound cs
    → cs.phase ≡ canvas_idle
    → a.palette_id ≡ some p
    → IsFilled p
    → str_eq cs.canvas.palette_id p ≡ false
    → r < length cs.heap
    → is_referred r cs.canvas.layers ≡ true
    → has_key "palette" (deref cs.heap r) ≡ true
    → ((enact v "undo" b (acted w set_palette_action a cs)).1.canvas ≡ cs.canvas)
      × (lookup "palette" (deref (enact v "undo" b (acted w set_palette_action a cs)).1.heap r)
          ≡ some (text p))
unfolding snapshot is_undoable
undo-set_palette w v a b cs p r s idle given filled new lt hit has =
    let (step, _, _) =
      undo-step v b (acted w set_palette_action a cs) (snapshot cs) (take 49 cs.undo_stack)
        (acted-phase w set_palette_action a cs idle refl)
        (acted-undo_stack w set_palette_action a cs idle refl
          (changed w a cs p given filled idle new)) in
    (
      step.canvas ∙ from_dict-to_dict v.fresh (length cs.heap) cs.canvas s.canvas,
      ap (λ h. lookup "palette" (deref h r))
            (step.heap
              ∙ acted-heap w set_palette_action a cs idle refl
              ∙ (set_palette-final w a cs p given filled).0)
          ∙ (apply_palette-controls p "palette" cs.heap cs.canvas r lt).0
          ∙ rw hit (rw has refl),
    )
