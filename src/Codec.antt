-- ===== src/Codec.antt =====
-- src/core: the codec object, its options, its matrices, and the operations on shards.
pub mod Options
pub mod Family
pub mod Checks
pub mod Blocks
pub mod Coding
pub mod State
pub mod CodingMatrix
pub mod Build
pub mod Encode
pub mod Update
pub mod Decode
pub mod Slots
pub mod Split
pub mod Reconstruct
pub mod Verify
pub mod ShardByShard
