-- ===== src/Deals.antt =====
-- Package deals (backend/internal/deals).
pub mod Preimage
pub mod Status
pub mod Types
pub mod World
pub mod Contract
pub mod Repository
pub mod Escrow
pub mod Release
pub mod Lifecycle
pub mod Payment
pub mod Artifacts
pub mod Verifications
pub mod Access
pub mod Parties
pub mod Silent
pub mod Handlers
