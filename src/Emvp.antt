-- ===== src/Emvp.antt =====
-- The protocol crate `emvp`.
pub mod Params
pub mod Protocol
pub mod View
