-- ===== src/Examples.antt =====
-- Concrete inputs: the theorems applied to small registries, evidence tables and dispatches.
pub mod Stubs
pub mod Transitions
pub mod Policies
pub mod Proofs
pub mod Dispatching
pub mod Matches
pub mod Reviewing
pub mod Intake
