-- ===== src/Data.antt =====
-- frontend/src/data and its hooks: what is read from the chain, as the pages show it.
pub mod Config
pub mod Memcmp
pub mod Proposals
pub mod Splits
pub mod TopVoters
pub mod Votes
