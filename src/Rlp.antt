-- ===== src/Rlp.antt =====
-- packages/rlp/src/index.ts: recursive length prefix encoding.
pub mod Hex
pub mod Item
pub mod Encode
pub mod Decode
pub mod RoundTrip
pub mod Canonical
pub mod Fuel
pub mod Integers
