-- ===== src/Economics.antt =====
-- The economics of the node: apps/kray-core/src/economics.
pub mod Isqrt
pub mod Honocracy
pub mod AnchorPool
pub mod Raffle
pub mod Governance
pub mod Reward
pub mod RuneKey
pub mod RuneBook
