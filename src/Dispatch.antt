-- ===== src/Dispatch.antt =====
-- The runtime dispatcher, src/agentic_os/runtime_dispatch.py.
pub mod Rows
pub mod World
pub mod Request
pub mod Replay
pub mod Live
pub mod Pending
pub mod Marks
pub mod Columns
pub mod Persist
pub mod Release
pub mod Storage
pub mod Times
pub mod Flow
pub mod Lifecycle
pub mod Steps
pub mod Moves
pub mod Writes
pub mod Evolution
pub mod Local
pub mod Handlers
pub mod Leads
pub mod Calls
pub mod Returns
pub mod Once
pub mod Accepted
pub mod Outcomes
