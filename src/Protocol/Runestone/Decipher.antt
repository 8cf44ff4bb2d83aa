-- ===== src/Protocol/Runestone/Decipher.antt =====
-- `decipher` (runestone.ts): the message of a transaction's runestone, from its output scripts.
pub mod Message
pub mod Fields
pub mod Artifacts
pub mod Bounds
