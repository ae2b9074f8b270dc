-- ===== src/Lib.antt =====
-- RaftVec: a replicated vector database. Each shard is a Raft group of nodes that keep a slice of
-- every collection in memory; an aggregator sends writes to the shard of each id, fans searches out
-- to all shards and merges their rankings.
--
-- The files, and the code that each one models:
--
-- - Core/Record, Core/Similarity, Core/TopK, Core/Search, Core/Sharding:
--   crates/raftvec-core/src/{record,similarity,topk,search,sharding}.rs, one definition for each
--   function under its name. Core/Float is `f32` as a parameter: the operations the code calls, with
--   `total_cmp` a total order on the bit patterns. Loops are functions over their accumulator.
-- - Node/Store: crates/raftvec-node/src/store.rs. A method takes the store and returns the new one
--   beside its result; a method that writes holds its locks from the first read to the last write, so it
--   is one step. `snapshot` and `cluster_status` read all collections at one moment, where the source
--   locks them one after the other. Store/Valid, Contents, Replica, Ranking and Snapshots
--   hold the theorems; Store/Props and Store/OneType make one type of stores and snapshots.
-- - Node/Raft, Node/LogStore, Node/StateMachine: crates/raftvec-node/src/raft.rs. openraft's ids,
--   votes and memberships are type parameters. `build_snapshot` takes the states at the three moments
--   at which it locks.
-- - Node/Service: crates/raftvec-node/src/service.rs. The handle of openraft is a record of what it
--   answers during one request; `search` takes the store at the scan and, for each id, at the lookup of
--   its metadata.
-- - Aggregator/Retry, Aggregator/Grouping, Aggregator/Merge: call_with_retry, connect_with_retry,
--   group_by_shard and merge_scored_records of crates/raftvec-aggregator/src/router.rs. `none` is a
--   panic. An attempt's outcome (a response, a status, a timeout) is a function of the attempt's number
--   and the client.
-- - Aggregator/Router, Aggregator/Router/Queries: ShardRouter of the same file. The calls of an operation
--   run on one shard each, so their order does not matter to the hints they store. `write` is what
--   `insert` and `delete` share. In `search`, `allowed` is how many attempts each call finishes before
--   the router's deadline. `create_collection` hands on the state of the replicas. The theorems are in Router/Fanout, Totals, Writes, Counts, Accepted and
--   Connects.
-- - Aggregator/Service: crates/raftvec-aggregator/src/service.rs, without the metrics.
-- - Node/Network: crates/raftvec-node/src/raft_network.rs. bincode is a pair of functions, tonic a
--   function from a client and bytes to a reply. `get_or_connect` takes the cache at the two moments at
--   which it locks it. Node/Network/Connection has the calls, Service the handlers.
-- - Node/Metrics: crates/raftvec-node/src/metrics.rs, as functions of what the tasks observe.
-- - Node/Start, Aggregator/Start: crates/raftvec-node/src/main.rs and
--   crates/raftvec-aggregator/src/main.rs, from the parsed flags to what is started. Text has the
--   operations on strings that they use.
-- - Cluster: the router of the aggregator over nodes that answer by their service. Search, Complete and
--   Create have the operations that reach all shards, Status the counts; Acknowledged has what a write
--   that succeeds has had openraft commit, Shows what the replicas show of it once they have applied
--   the log of their shard, with Leaves about one command; Finds, Misses, ReadYourWrites and
--   ReadYourDeletes have what a search then finds.
-- - Vecctl: crates/vecctl/src/main.rs. A server is a state with a handler for each request, and a
--   command is run against it; Vecctl/Jsonl is load_jsonl and Vecctl/Query the query vector of a
--   search. Vecctl/OnNode puts the service of one node in the place of the server.
-- - Bench: bench/src/main.rs. Bench/Generate is the loop that sends the requests and `main` around it,
--   Bench itself the way from the outcomes to the report. Bench/Draws draws random vectors.
-- - Node/Baseline: crates/raftvec-node/examples/baseline_bench.rs.
-- - Node/StateMachine/View, Replicas, Creates, Again and Durable: what clients can see of a store, how a
--   replica moves along the log, how a store comes about, a command that the log holds twice, and what
--   one entry of the log comes to in the end. The replicas of Replicas, which the theorems on many
--   replicas are about, install snapshots that are read in one state, and create no collection after the
--   start; CatchUp and Creates have what comes of the others.
-- - Core/TopK/Unordered: rankings over bags of items, a quotient of lists.
-- - Proto: the messages of crates/raftvec-proto/proto/raftvec.proto.
-- - HashMap, BTreeMap, MinHeap, Order: what the code uses of Rust's collections and of `Ord`. A hash map
--   is an association list whose order of iteration is arbitrary. `BTreeMap::range` panics where the
--   start exceeds the end; openraft does not ask for such a range, and the model leaves the panic out.
-- - Base: shared names, Boolean tests, lists over native numbers, results.
-- - Examples: small data, and runs of the program on it.
--
-- Numbers. Ids, dimensions and lengths are natural numbers, as nothing is computed with them; casts to
-- `u32` and sums of `u32` are written as remainders by 2 ^ 32, as a release build computes them, and
-- `debug_assert!` is not compiled in. The loop of `call_with_retry` runs MAX_LEADER_ATTEMPTS = 4
-- times; `call_with_rounds` is the same loop for any number of rounds, which is also what a call that an
-- outer deadline cuts off has done.
--
-- Parameters with assumptions: `f32::total_cmp` is a total order; rayon folds every item once and joins
-- neighbouring pieces in order, in any grouping; bincode reads back what it wrote. FxHasher,
-- tonic and the network are parameters without assumptions. Of openraft, the theorems that need it
-- assume that what it acknowledges is in the log of the shard, at the index it acknowledges.
--
-- Fuel. `chunks_within` cuts a list into at most as many chunks as its length, which is enough as a chunk
-- has at least one element. The loop of the load generator turns until the clock has passed the deadline;
-- its fuel is a parameter, and any fuel that exceeds the number of the ticker's periods by three is
-- enough. The loop that fills the store of the benchmark has as many turns as vectors, and one, which
-- is enough as each batch has one vector at least. All other loops are structural.
--
-- Not modelled: the flags that clap parses, the exporters and servers, which are input and output; the
-- texts of errors and the layout of what is printed, which nothing reads; the time that calls take, of
-- which only the bound READ_ATTEMPT_TIMEOUT on an attempt of a search is used; `get_log_reader` and
-- `get_snapshot_builder`, which clone a handle.
pub mod Base
pub mod Order
pub mod MinHeap
pub mod HashMap
pub mod BTreeMap
pub mod Core
pub mod Proto
pub mod Text
pub mod Node
pub mod Aggregator
pub mod Cluster
pub mod Vecctl
pub mod Bench
pub mod Examples
