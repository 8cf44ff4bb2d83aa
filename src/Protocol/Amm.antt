-- ===== src/Protocol/Amm.antt =====
-- The constant-product pools and their book of shares (apps/kray-core/src/protocol/amm.ts).
pub mod Quote
pub mod Invariant
pub mod Address
pub mod Views
pub mod Commitment
pub mod Book
pub mod Shares
pub mod Effects
pub mod Journal
pub mod Negative
mod Tests
