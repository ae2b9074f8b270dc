-- ===== src/Examples.antt =====
-- Concrete runs of the program, on small data: the fixtures, and one run for each property that has
-- conditions.
pub mod Fixtures
pub mod OfCore
pub mod OfStore
pub mod OfRaft
pub mod OfService
pub mod OfAggregator
pub mod OfRouter
pub mod OfReplicas
pub mod OfNetwork
pub mod OfStart
pub mod OfVecctl
pub mod OfCluster
pub mod OfDurable
pub mod OfReads
pub mod OfShards
pub mod OfBench
