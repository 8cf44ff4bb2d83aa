-- ===== src/Economics/RuneBook.antt =====
-- `class RuneBook`, the L2 accounting of a Bitcoin rune
-- (apps/kray-core/src/economics/rune-book.ts).
pub mod NestedMap
pub mod State
pub mod Moves
pub mod Exits
pub mod Views
pub mod Solvency
pub mod Outcomes
pub mod Journal
pub mod Flows
pub mod Conservation
pub mod Once
pub mod Tidy
pub mod Backing
pub mod Effects
pub mod Returns
mod Tests
