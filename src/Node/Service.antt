-- ===== src/Node/Service.antt =====
-- crates/raftvec-node/src/service.rs: the gRPC handlers of a replica. openraft's handle is a
-- parameter: what it answers while a request is handled.
pub mod Reads
pub mod Results
pub mod Writes
use raftvec.Base.{
  ℕ, ◌%◌, Bool, true, false, Option, none, some, List, [], ◌∷◌, map, String, Result, ok, err,
  length, ◌==◌, nat_eq, if◌then◌else◌, ◌>>=◌, map_err,
}
use raftvec.HashMap.{HashMap}
use raftvec.Core.Float.{Float}
use raftvec.Core.Record
use raftvec.Core.Record.{VectorRecord, ScoredId}
use raftvec.Core.Search.{Rayon}
use raftvec.Core.Sharding.{u32_mod}
use raftvec.Node.Raft.{ShardCommand, ShardCommandResponse}
use raftvec.Node.Store
use raftvec.Node.Store.{
  Store, StoreError, collection_exists, collection_not_found, dimension_mismatch,
}
use raftvec.Proto.{
  Status, already_exists, not_found, invalid_argument, unavailable, internal,
  CreateCollectionRequest, CreateCollectionResponse, InsertRequest, InsertResponse, DeleteRequest,
  DeleteResponse, SearchRequest, SearchResponse, ScoredRecord, ClusterStatusResponse,
}

-- `RaftError<ClientWriteError>`, as `write_error_to_hint` matches it: a forward with the address of
-- the leader's node, if openraft knows it, or any other error.
pub data WriteError : Type 0 where
  forward_to_leader : (leader_node : Option String) → WriteError
  other : WriteError

-- The handle of openraft during one request.
pub record Raft (F : Type 0) : Type 0 where
  pub client_write : ShardCommand F → Result WriteError ShardCommandResponse
  -- `metrics().current_leader`, and the address of a node of the membership
  pub current_leader : Option ℕ
  pub get_node : ℕ → Option String
  -- `ensure_linearizable().await.is_ok()`
  pub ensure_linearizable : Bool

pub data Leadership : Type 0 where
  i_am_leader unknown : Leadership
  redirect : String → Leadership

unfoldable pub from_store_error : StoreError → Status
from_store_error (collection_exists _) = already_exists
from_store_error (collection_not_found _) = not_found
from_store_error (dimension_mismatch _ _) = invalid_argument

unfoldable pub write_error_to_hint : WriteError → Result Status String
write_error_to_hint (forward_to_leader (some addr)) = ok addr
write_error_to_hint (forward_to_leader none) = err unavailable
write_error_to_hint other = err internal

module _ {F : Type 0} (raft : Raft F) (node_id : ℕ) where
  unfoldable pub leadership : Leadership
  leadership = elim raft.current_leader [
    | none ↦ unknown
    | some id ↦
        if id == node_id
        then i_am_leader
        else elim (raft.get_node id) [ none ↦ unknown | some addr ↦ redirect addr ]
  ]

unfoldable pub create_collection :
    {F : Type 0}
    → Store F
    → CreateCollectionRequest
    → Store F × Result Status CreateCollectionResponse
create_collection store req =
    let (store', result) = Store.create_collection store req.name req.dim req.shard_count in
    (store', do _ ← map_err from_store_error result; ok (record { created = true }))

module _ {F : Type 0} (raft : Raft F) where
  unfoldable pub insert : InsertRequest F → Result Status InsertResponse
  unfolding Record.new write_error_to_hint
  insert req =
      let records = map (λ r. Record.new r.id r.embedding r.metadata) req.records in
      let count = length records % u32_mod in
      elim (raft.client_write (ShardCommand.upsert req.collection records)) [
        | ok _ ↦ ok (record { inserted = count; leader_hint = "" })
        | err e ↦ do hint ← write_error_to_hint e; ok (record { inserted = 0; leader_hint = hint })
      ]

  unfoldable pub delete : DeleteRequest → Result Status DeleteResponse
  unfolding write_error_to_hint
  delete req =
      let count = length req.ids % u32_mod in
      elim (raft.client_write (ShardCommand.delete req.collection req.ids)) [
        | ok _ ↦ ok (record { deleted = count; leader_hint = "" })
        | err e ↦ do hint ← write_error_to_hint e; ok (record { deleted = 0; leader_hint = hint })
      ]

abbrev pub or_default : Option (HashMap String String) → HashMap String String
or_default none = []
or_default (some m) = m

module _ {F : Type 0} ⦃fl : Float F⦄ ⦃ry : Rayon (VectorRecord F × F)⦄ where
  -- The scan reads the store `scanned`. Each metadata is looked up later, under locks of its own:
  -- `seen id` is the store at the moment when the record `id` is looked up.
  unfoldable pub with_metadata : (ℕ → Store F) → String → List (ScoredId F) → List (ScoredRecord F)
  with_metadata seen collection = map λ s. record {
    id = s.id;
    score = s.score;
    metadata = or_default (Store.get_metadata (seen s.id) collection s.id);
  }

  -- `joined` is false where the blocking task fails.
  unfoldable pub search :
      Raft F
      → ℕ
      → (scanned : Store F) (seen : ℕ → Store F) (joined : Bool) → SearchRequest F
      → Result Status (SearchResponse F)
  search raft node_id scanned seen joined req = elim (leadership raft node_id) [
    | redirect hint ↦
        ok (record { results = []; shards_queried = 0; shards_failed = 0; leader_hint = hint })
    | unknown ↦ err unavailable
    | i_am_leader ↦
        if raft.ensure_linearizable
        then if joined
          then (do
            scored ←
                map_err from_store_error
                  (Store.search scanned req.collection req.query_vector req.k)
            ok (record {
              results = with_metadata seen req.collection scored;
              shards_queried = 1;
              shards_failed = 0;
              leader_hint = "";
            }))
          else err internal
        else err unavailable
  ]

unfoldable pub cluster_status : {F : Type 0} → Store F → ClusterStatusResponse
cluster_status store =
    let (collections, vector_count) = Store.cluster_status store in
    record { collections = collections; vector_count = vector_count }
