-- ===== src/Protocol/Runestone.antt =====
-- The Runes protocol decoded from bytes (apps/kray-core/src/protocol/runestone.ts).
pub mod Artifact
pub mod Varint
pub mod Name
pub mod Payload
pub mod Decipher
pub mod Allocation
mod Tests
