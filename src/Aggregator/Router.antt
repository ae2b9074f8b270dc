-- ===== src/Aggregator/Router.antt =====
-- `ShardRouter` of crates/raftvec-aggregator/src/router.rs. `none` is a panic. The calls of one
-- operation run at once, each on a shard of its own; `send` says what each attempt on a client
-- gives. An operation returns the router with the leader hints that the calls have stored.
pub mod Queries
pub mod Fanout
pub mod Totals
pub mod Writes
pub mod Connects
pub mod Counts
pub mod Accepted
use mathlib.Core.List.{flatten}
use raftvec.Base.{
  Bool, true, false, ◌||◌, ℕ, suc, zero, ◌+◌, ◌%◌, Option, none, some, List, [], ◌∷◌, ◌++◌, map,
  String, Result, ok, err, length, ◌==◌, string_eq, if◌then◌else◌,
}
use Prim.Native.Nat.{min}
use raftvec.Core.Float.{Float}
use raftvec.Core.Record.{VectorRecord}
use raftvec.Core.Sharding.{u32_mod}
use raftvec.Proto.{
  Status, InsertRequest, InsertResponse, DeleteRequest, DeleteResponse, SearchRequest,
  SearchResponse, ScoredRecord, CreateCollectionRequest, CreateCollectionResponse,
  ClusterStatusResponse,
}
use raftvec.Aggregator.Retry.{
  RouterError, rpc, ShardReplicaSet, CarriesLeaderHint, insert_hint, delete_hint, search_hint,
  Attempt, call_with_retry, call_with_rounds, connect_with_retry, max_leader_attempts,
}
use raftvec.Aggregator.Grouping.{group_by_shard}
use raftvec.Aggregator.Merge.{merge_scored_records}

pub record ShardRouter (C : Type 0) : Type 0 where
  pub shards : List (ShardReplicaSet C)
  -- in milliseconds
  pub deadline : ℕ

abbrev pub shard_count : {C : Type 0} → ShardRouter C → ℕ
shard_count router = length router.shards % u32_mod

module _ {C E : Type 0} (connecting : String → ℕ → Result E C) where
  -- The inner loop of `connect`.
  unfoldable pub connect_replicas : List String → Option (Result (RouterError E) (List C))
  unfolding connect_with_retry
  connect_replicas [] = some (ok [])
  connect_replicas (addr ∷ addrs) = elim (connect_with_retry (connecting addr) addr) [
    | none ↦ none
    | some (err e) ↦ some (err e)
    | some (ok client) ↦ elim (connect_replicas addrs) [
      | none ↦ none
      | some (err e) ↦ some (err e)
      | some (ok clients) ↦ some (ok (client ∷ clients))
    ]
  ]

  -- The outer loop, then `Self { shards, deadline }`.
  unfoldable pub connect_shards :
      List (List String) → Option (Result (RouterError E) (List (ShardReplicaSet C)))
  unfolding connect_replicas
  connect_shards [] = some (ok [])
  connect_shards (addrs ∷ rest) = elim (connect_replicas addrs) [
    | none ↦ none
    | some (err e) ↦ some (err e)
    | some (ok clients) ↦ elim (connect_shards rest) [
      | none ↦ none
      | some (err e) ↦ some (err e)
      | some (ok shards) ↦
          some (ok (record { clients = clients; addrs = addrs; leader_hint = 0 } ∷ shards))
    ]
  ]

  unfoldable pub connect :
      List (List String) → (deadline : ℕ) → Option (Result (RouterError E) (ShardRouter C))
  unfolding connect_shards
  connect shard_replica_addrs deadline = elim (connect_shards shard_replica_addrs) [
    | none ↦ none
    | some (err e) ↦ some (err e)
    | some (ok shards) ↦ some (ok (record { shards = shards; deadline = deadline }))
  ]

-- `result?` for each of the results.
unfoldable pub first_err :
    {E : Type 0} → List (Result Status CreateCollectionResponse) → Result (RouterError E) (Unit {0})
first_err [] = ok tt
first_err (ok r ∷ results) = first_err results
first_err (err status ∷ results) = err (rpc status)

-- The calls of `create_collection`, on the replicas in the state `S`, and their results in order:
-- `join_all` makes all of them, whatever the others come to. Each is on a replica of its own, so
-- their order does not matter.
unfoldable pub call_each : {C S A : Type 0} → (C → S → S × A) → List C → S → S × List A
call_each call [] s = (s, [])
call_each call (client ∷ clients) s =
    let (s', result) = call client s in
    let (s'', results) = call_each call clients s' in (s'', result ∷ results)

unfoldable pub create_collection :
    {C E S : Type 0}
    → (CreateCollectionRequest → C → S → S × Result Status CreateCollectionResponse)
    → ShardRouter C
    → String
    → ℕ
    → S
    → S × Result (RouterError E) (Unit {0})
unfolding call_each first_err
create_collection send router name dim s =
    let req : CreateCollectionRequest = record {
      name = name;
      dim = dim;
      shard_count = shard_count router;
    } in
    let (s', results) =
      call_each (send req) (flatten (map (λ shard. shard.clients) router.shards)) s in
    (s', first_err results)

module _ {C R E Item : Type 0} ⦃ch : CarriesLeaderHint R⦄
    (send : List Item → ℕ → C → Attempt R) where
  -- One shard's group: no call for an empty one.
  unfoldable pub write_group :
      ShardReplicaSet C → List Item → Option (ShardReplicaSet C × List (Result (RouterError E) R))
  unfolding call_with_retry
  write_group shard [] = some (shard, [])
  write_group shard (item ∷ group) = elim (call_with_retry {E = E} shard (send (item ∷ group))) [
    | none ↦ none
    | some (hint, result) ↦ some (record shard { leader_hint = hint }, result ∷ [])
  ]

  -- `shards.iter().zip(groups)`, and `join_all`.
  unfoldable pub write_each :
      List (ShardReplicaSet C)
      → List (List Item)
      → Option (List (ShardReplicaSet C) × List (Result (RouterError E) R))
  unfolding write_group
  write_each [] groups = some ([], [])
  write_each (shard ∷ shards) [] = some (shard ∷ shards, [])
  write_each (shard ∷ shards) (group ∷ groups) = elim (write_group shard group) [
    | none ↦ none
    | some (shard', result) ↦ elim (write_each shards groups) [
      | none ↦ none
      | some (shards', results) ↦ some (shard' ∷ shards', result ++ results)
    ]
  ]

-- `for result in .. { total += result?.count; }`
unfoldable pub sum_each :
    {E R : Type 0} → (R → ℕ) → ℕ → List (Result (RouterError E) R) → Result (RouterError E) ℕ
sum_each count total [] = ok total
sum_each count total (ok r ∷ results) = sum_each count ((total + count r) % u32_mod) results
sum_each count total (err e ∷ results) = err e

module _ {C R E Item : Type 0} ⦃ch : CarriesLeaderHint R⦄ (fxhash : ℕ → ℕ) (key : Item → ℕ)
    (count : R → ℕ) (send : List Item → ℕ → C → Attempt R) where
  -- What `insert` and `delete` share.
  unfoldable pub write :
      ShardRouter C → List Item → Option (ShardRouter C × Result (RouterError E) ℕ)
  unfolding group_by_shard write_each sum_each
  write router items = elim (group_by_shard fxhash key (shard_count router) items) [
    | none ↦ none
    | some groups ↦ elim (write_each {E = E} send router.shards groups) [
      | none ↦ none
      | some (shards, results) ↦ some (record router { shards = shards }, sum_each count 0 results)
    ]
  ]

unfoldable pub insert :
    {C E F : Type 0}
    → (ℕ → ℕ)
    → (InsertRequest F → ℕ → C → Attempt InsertResponse)
    → ShardRouter C
    → String
    → List (VectorRecord F)
    → Option (ShardRouter C × Result (RouterError E) ℕ)
unfolding write
insert fxhash send router collection records =
    write fxhash (λ r. r.id) (λ r. r.inserted)
      (λ group. send (record { collection = collection; records = group })) router records

unfoldable pub delete :
    {C E : Type 0}
    → (ℕ → ℕ)
    → (DeleteRequest → ℕ → C → Attempt DeleteResponse)
    → ShardRouter C
    → String
    → List ℕ
    → Option (ShardRouter C × Result (RouterError E) ℕ)
unfolding write
delete fxhash send router collection ids =
    write fxhash (λ id. id) (λ r. r.deleted)
      (λ group. send (record { collection = collection; ids = group })) router ids
