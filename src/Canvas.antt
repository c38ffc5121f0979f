-- ===== src/Canvas.antt =====
-- The canvas state machine (canvas/canvas.py, canvas/state.py, canvas/action.py,
-- canvas/action_map.py).
pub mod Chain
pub mod Restore
pub mod State
pub mod Actions
pub mod Dispatch
pub mod Wellformed
pub mod Sound
pub mod RoundTrip
pub mod Edits
pub mod Invariant
pub mod Kept
pub mod Same
pub mod Failure
pub mod Palette
pub mod Effects
pub mod Undo
pub mod Alias
pub mod Order
pub mod Lead
pub mod Layers
mod Tests
