-- ===== src/Crypto.antt =====
-- Crypto utilities of the server: packages/server/src/utils/crypto.ts.
pub mod Base64
pub mod Utf8
pub mod Platform
