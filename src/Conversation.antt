-- ===== src/Conversation.antt =====
-- The conversation state machine (state_machine/).
pub mod Types
pub mod Exec
pub mod Core
pub mod Env
pub mod Callable
pub mod Actions
pub mod Replay
pub mod Enact
pub mod Tracks
pub mod Turns
pub mod Flat
pub mod Depth
pub mod Approval
mod Tests
