-- ===== src/Trapdoor.antt =====
-- The crate `trapdoor-matrices`.
pub mod Error
pub mod Permutation
pub mod Sampling
