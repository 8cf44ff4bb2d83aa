-- ===== src/Protocol.antt =====
-- The protocol of the node: apps/kray-core/src/protocol.
pub mod Amm
pub mod CutBook
pub mod Merkle
pub mod Chain
pub mod ClaimBook
pub mod PacketMarket
pub mod StarOffers
pub mod PollBook
pub mod PoolBook
pub mod Runestone
