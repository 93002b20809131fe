-- ===== src/Budget.antt =====
-- The budget ledger, src/agentic_os/budgets.py.
pub mod Amounts
pub mod Tables
pub mod Identity
pub mod Selection
pub mod Ledger
pub mod Counters
pub mod Events
pub mod PreAdmission
pub mod PreDispatch
pub mod PostAdmission
pub mod PostDispatch
pub mod SettlementAdmission
pub mod SettlementWrites
pub mod Writes
pub mod PostWrites
pub mod Moves
pub mod Reconcile
pub mod Soundness
pub mod LinkedEvents
pub mod SettlementLaws
pub mod Price
pub mod Refusals
pub mod Funding
pub mod Idempotence
