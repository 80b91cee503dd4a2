-- ===== src/Chain.antt =====
-- frontend/src/chain/instructions: the transactions that the frontend builds, signs and sends.
pub mod Types
pub mod Flow
pub mod Slots
pub mod ComputeBudget
pub mod Helpers
pub mod Vote
pub mod Override
pub mod Support
pub mod Create
pub mod Finalize
pub mod Sound
pub mod Live
