-- ===== src/Proto.antt =====
-- The messages of crates/raftvec-proto/proto/raftvec.proto, and the part of tonic's `Status` that
-- the program looks at: its code. The texts of errors are not modelled.
use raftvec.Base.{ℕ, Bool, List, String}
use raftvec.HashMap.{HashMap}
use raftvec.Core.Record.{VectorRecord}

-- A status with another code is `other`.
pub data Status : Type 0 where
  already_exists not_found invalid_argument unavailable internal : Status
  other : ℕ → Status

pub record CreateCollectionRequest : Type 0 where
  pub name : String
  pub dim : ℕ
  pub shard_count : ℕ

pub record CreateCollectionResponse : Type 0 where
  pub created : Bool

-- A `VectorRecord` of the protocol has the fields of one of raftvec-core.
pub record InsertRequest (F : Type 0) : Type 0 where
  pub collection : String
  pub records : List (VectorRecord F)

pub record InsertResponse : Type 0 where
  pub inserted : ℕ
  pub leader_hint : String

pub record DeleteRequest : Type 0 where
  pub collection : String
  pub ids : List ℕ

pub record DeleteResponse : Type 0 where
  pub deleted : ℕ
  pub leader_hint : String

pub record SearchRequest (F : Type 0) : Type 0 where
  pub collection : String
  pub query_vector : List F
  pub k : ℕ

pub record ScoredRecord (F : Type 0) : Type 0 where
  pub id : ℕ
  pub score : F
  pub metadata : HashMap String String

pub record SearchResponse (F : Type 0) : Type 0 where
  pub results : List (ScoredRecord F)
  pub shards_queried : ℕ
  pub shards_failed : ℕ
  pub leader_hint : String

pub record ClusterStatusResponse : Type 0 where
  pub collections : List String
  pub vector_count : ℕ
