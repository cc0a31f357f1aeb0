-- ===== src/Host.antt =====
-- The host calls of a plugin (internal/runtime/runtime.go), by operation.
pub mod State
pub mod Network
pub mod Objects
pub mod Candidate
pub mod Calls
pub mod Moves
pub mod Steps
pub mod Quota
pub mod Frozen
pub mod Changes
pub mod Orderly
pub mod Published
pub mod Conflicts
pub mod Reach
mod Tests
