-- ===== src/Scenarios.antt =====
-- Runs of the model on small inputs, and the theorems at those inputs.
pub mod Fixtures
mod Limits
mod Accounts
mod Cvs
mod Payouts
mod Preimages
mod Proofs
mod Records
mod Routes
mod Notifications
