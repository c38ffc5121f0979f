-- ===== src/Pipeline.antt =====
-- The pipeline (pipeline/): the tables of work, the orchestrator, the event trigger and the lock.
pub mod Rows
pub mod Queue
pub mod Tasks
pub mod Files
pub mod World
pub mod Handlers
pub mod Execute
pub mod Runs
pub mod EventRuns
pub mod Orchestrator
pub mod Lock
pub mod Trigger
pub mod Lifecycle
mod Fixtures
mod Tests
mod WorkTests
mod LockTests
