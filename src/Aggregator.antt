-- ===== src/Aggregator.antt =====
-- crates/raftvec-aggregator: routing to the shards, retries over their replicas, and the merge.
pub mod Grouping
pub mod Retry
pub mod Merge
pub mod Router
pub mod Service
pub mod Start
