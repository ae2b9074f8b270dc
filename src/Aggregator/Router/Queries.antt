-- ===== src/Aggregator/Router/Queries.antt =====
-- `search` and `cluster_status` of `ShardRouter` in crates/raftvec-aggregator/src/router.rs.
use raftvec.Base.{
  Bool, false, ◌||◌, ℕ, suc, ◌+◌, ◌%◌, Option, none, some, List, [], ◌∷◌, ◌++◌, String, Result, ok,
  err, length, ◌==◌, string_eq, if◌then◌else◌,
}
use Prim.Native.Nat.{min}
use raftvec.Core.Float.{Float}
use raftvec.Core.Sharding.{u32_mod}
use raftvec.Proto.{Status, SearchRequest, SearchResponse, ScoredRecord, ClusterStatusResponse}
use raftvec.Aggregator.Retry.{
  RouterError, ShardReplicaSet, insert_hint, delete_hint, search_hint, Attempt, call_with_rounds,
  max_leader_attempts,
}
use raftvec.Aggregator.Merge.{merge_scored_records}
use raftvec.Aggregator.Router.{ShardRouter}

module _ {C F E : Type 0} (send : ℕ → C → Attempt (SearchResponse F)) (allowed : ℕ → ℕ) where
  -- The calls of `search`. The deadline cuts the call on the shard `i` off in or before the attempt
  -- that would follow its first `allowed i` ones: what such a call has stored is what a call of so
  -- few rounds stores, and it counts as an error.
  unfoldable pub search_each :
      ℕ
      → List (ShardReplicaSet C)
      → Option (List (ShardReplicaSet C) × List (Result (RouterError E) (SearchResponse F)))
  unfolding call_with_rounds
  search_each i [] = some ([], [])
  search_each i (shard ∷ shards) =
      elim (call_with_rounds {E = E} (min (allowed i) max_leader_attempts) shard send) [
        | none ↦ none
        | some (hint, result) ↦ elim (search_each (suc i) shards) [
          | none ↦ none
          | some (shards', results) ↦
              some (record shard { leader_hint = hint } ∷ shards', result ∷ results)
        ]
      ]

-- The loop over the responses: the lists of those that answered, and `shards_failed`.
unfoldable pub sort_responses :
    {F E : Type 0}
    → List (Result (RouterError E) (SearchResponse F))
    → ℕ
    → List (List (ScoredRecord F)) × ℕ
sort_responses [] failed = ([], failed)
sort_responses (ok resp ∷ responses) failed =
    let (shard_lists, failed') = sort_responses responses failed in
    (resp.results ∷ shard_lists, failed')
sort_responses (err e ∷ responses) failed = sort_responses responses ((failed + 1) % u32_mod)

-- The result is `(merged, shards_queried, shards_failed)`.
unfoldable pub search :
    {C F : Type 0}
    → (E : Type 0) → ⦃fl : Float F⦄ → (SearchRequest F → ℕ → C → Attempt (SearchResponse F))
    → (allowed : (deadline : ℕ) → ℕ → ℕ) → ShardRouter C
    → String
    → List F
    → ℕ
    → Option (ShardRouter C × List (ScoredRecord F) × ℕ × ℕ)
unfolding search_each sort_responses merge_scored_records
search {F = F} E send allowed router collection query_vector k =
    let req : SearchRequest F = record {
      collection = collection;
      query_vector = query_vector;
      k = k;
    } in
    elim (search_each {E = E} (send req) (allowed router.deadline) 0 router.shards) [
      | none ↦ none
      | some (shards, responses) ↦
          let (shard_lists, shards_failed) = sort_responses responses 0 in
          some (
            record router { shards = shards },
            merge_scored_records shard_lists k,
            length responses % u32_mod,
            shards_failed,
          )
    ]

-- The name is in the list.
abbrev pub has_name : String → List String → Bool
has_name name [] = false
has_name name (n ∷ names) = n == name || has_name name names

-- `collections.extend(..)`: a hash set, each name once.
unfoldable pub extend : List String → List String → List String
extend names [] = names
extend names (name ∷ more) =
    extend (if has_name name names then names else names ++ (name ∷ [])) more

module _ {C : Type 0} (send : C → Result Status ClusterStatusResponse) where
  -- The first replica of a shard that answers.
  unfoldable pub first_status : List C → Option ClusterStatusResponse
  first_status [] = none
  first_status (client ∷ clients) = elim (send client) [
    | ok resp ↦ some resp
    | err status ↦ first_status clients
  ]

  unfoldable pub status_each : List (ShardReplicaSet C) → List String → ℕ → List String × ℕ
  unfolding first_status extend
  status_each [] collections total = (collections, total)
  status_each (shard ∷ shards) collections total = elim (first_status shard.clients) [
    | none ↦ status_each shards collections total
    | some resp ↦
        status_each shards (extend collections resp.collections)
          ((total + resp.vector_count) % u32_mod)
  ]

  unfoldable pub cluster_status : ShardRouter C → List String × ℕ
  unfolding status_each
  cluster_status router = status_each router.shards [] 0
