-- ===== src/Scenarios.antt =====
-- Concrete runs of the program's parts, and the theorems applied to them.
mod Fixture
mod Runs
mod Steps
mod Witnesses
mod Probes
mod Dispatches
