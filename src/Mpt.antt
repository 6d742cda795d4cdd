-- ===== src/Mpt.antt =====
-- packages/mpt/src: paths of the Merkle Patricia trie and its database.
pub mod Nibbles
pub mod Encoding
pub mod Paths
pub mod Order
pub mod Keys
pub mod CheckpointDb
