-- ===== src/Util.antt =====
-- packages/util
pub mod Account
pub mod Bytes
