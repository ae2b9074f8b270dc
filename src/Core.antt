-- ===== src/Core.antt =====
-- crates/raftvec-core: records, similarity, the bounded top-k heap, the scan, the shard of an id.
pub mod Float
pub mod Record
pub mod Similarity
pub mod TopK
pub mod Search
pub mod Sharding
