-- ===== src/Cluster.antt =====
-- The aggregator over real nodes: crates/raftvec-aggregator/src/router.rs, whose requests are answered
-- by crates/raftvec-node/src/service.rs or get lost on the way.
pub mod Search
pub mod Finds
pub mod Misses
pub mod Leaves
pub mod Shows
pub mod Complete
pub mod Status
pub mod ReadYourWrites
pub mod ReadYourDeletes
pub mod Acknowledged
pub mod Create
