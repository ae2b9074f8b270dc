-- ===== src/Node.antt =====
-- crates/raftvec-node: the store of a replica, its Raft log and state machine, and its service.
pub mod Store
pub mod Raft
pub mod StateMachine
pub mod LogStore
pub mod Service
pub mod Network
pub mod Metrics
pub mod Start
pub mod Baseline
