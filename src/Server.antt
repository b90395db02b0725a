-- ===== src/Server.antt =====
-- The server's connection handling (`server/src`).
pub mod Failure
pub mod Request
pub mod Uploads
pub mod Session
