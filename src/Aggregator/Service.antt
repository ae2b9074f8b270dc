-- ===== src/Aggregator/Service.antt =====
-- crates/raftvec-aggregator/src/service.rs: the gRPC handlers over a router. `none` is a panic of the
-- router; the metrics are left out.
pub mod Answers
use raftvec.Base.{ℕ, true, Option, none, some, List, String, Result, ok, err, ◌>>=◌, map_err}
use raftvec.Core.Float.{Float}
use raftvec.Proto.{
  Status, unavailable, InsertRequest, InsertResponse, DeleteRequest, DeleteResponse, SearchRequest,
  SearchResponse, CreateCollectionRequest, CreateCollectionResponse, ClusterStatusResponse,
}
use raftvec.Aggregator.Retry.{Attempt, RouterError, connect, rpc, shard_unreachable}
use raftvec.Aggregator.Router
use raftvec.Aggregator.Router.{ShardRouter}
use raftvec.Aggregator.Router.Queries

unfoldable pub from_router_error : {E : Type 0} → RouterError E → Status
from_router_error (connect addr source) = unavailable
from_router_error (rpc status) = status
from_router_error shard_unreachable = unavailable

module _ {C : Type 0} (E : Type 0) where
  unfoldable pub create_collection :
      {S : Type 0}
      → (CreateCollectionRequest → C → S → S × Result Status CreateCollectionResponse)
      → ShardRouter C
      → CreateCollectionRequest
      → S
      → S × Result Status CreateCollectionResponse
  unfolding from_router_error
  create_collection send router req s =
      let (s', result) = Router.create_collection {E = E} send router req.name req.dim s in
      (s', do _ ← map_err from_router_error result; ok (record { created = true }))

  unfoldable pub insert :
      {F : Type 0}
      → (ℕ → ℕ)
      → (InsertRequest F → ℕ → C → Attempt InsertResponse)
      → ShardRouter C
      → InsertRequest F
      → Option (ShardRouter C × Result Status InsertResponse)
  unfolding from_router_error
  insert fxhash send router req =
      elim (Router.insert {E = E} fxhash send router req.collection req.records) [
        | none ↦ none
        | some (router', result) ↦ some (
          router',
          do
            inserted ← map_err from_router_error result
            ok (record { inserted = inserted; leader_hint = "" }),
        )
      ]

  unfoldable pub delete :
      (ℕ → ℕ)
      → (DeleteRequest → ℕ → C → Attempt DeleteResponse)
      → ShardRouter C
      → DeleteRequest
      → Option (ShardRouter C × Result Status DeleteResponse)
  unfolding from_router_error
  delete fxhash send router req =
      elim (Router.delete {E = E} fxhash send router req.collection req.ids) [
        | none ↦ none
        | some (router', result) ↦ some (
          router',
          do
            deleted ← map_err from_router_error result
            ok (record { deleted = deleted; leader_hint = "" }),
        )
      ]

  unfoldable pub search :
      {F : Type 0} ⦃fl : Float F⦄
      → (SearchRequest F → ℕ → C → Attempt (SearchResponse F))
      → (allowed : (deadline : ℕ) → ℕ → ℕ) → ShardRouter C
      → SearchRequest F
      → Option (ShardRouter C × Result Status (SearchResponse F))
  unfolding Queries.search
  search send allowed router req =
      elim (Queries.search E send allowed router req.collection req.query_vector req.k) [
        | none ↦ none
        | some (router', results, shards_queried, shards_failed) ↦ some (
          router',
          ok (record {
            results = results;
            shards_queried = shards_queried;
            shards_failed = shards_failed;
            leader_hint = "";
          }),
        )
      ]

unfoldable pub cluster_status :
    {C : Type 0} → (C → Result Status ClusterStatusResponse) → ShardRouter C → ClusterStatusResponse
cluster_status send router =
    let (collections, vector_count) = Queries.cluster_status send router in
    record { collections = collections; vector_count = vector_count }
