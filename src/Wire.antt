-- ===== src/Wire.antt =====
-- The wire protocol of `emvp-network`.
pub mod Error
pub mod Stream
pub mod Frame
pub mod Plan
pub mod Upload
pub mod Evaluate
pub mod Products
pub mod Messages
pub mod Handshake
