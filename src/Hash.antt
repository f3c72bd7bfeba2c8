-- ===== src/Hash.antt =====
-- The hash trees of airdcpp/hash.
pub mod Merkle
mod Tests
