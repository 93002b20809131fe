-- ===== src/Metadata.antt =====
-- The metadata contract and the dispatch probe, src/agentic_os/metadata.py and
-- src/agentic_os/metadata_dispatch.py.
pub mod Json
pub mod Fields
pub mod Observation
pub mod AllowLease
pub mod Intents
pub mod Registry
pub mod Probe
pub mod Operations
pub mod Scripted
pub mod Draining
pub mod Binding
pub mod Replay
pub mod Agreement
