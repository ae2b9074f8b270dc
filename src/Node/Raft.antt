-- ===== src/Node/Raft.antt =====
-- The types of crates/raftvec-node/src/raft.rs, and those of openraft that it uses. openraft's log
-- ids `L`, votes, memberships `M` and stored memberships `S` are parameters.
use raftvec.Base.{ℕ, Option, List, String, Result, ok, ◌≡◌}
use raftvec.Core.Record.{VectorRecord}

-- What the program calls of openraft's log ids: the field `index`, and `format!("{id:?}")`.
pub record LogIds (L : Type 0) : Type 0 where
  pub index : L → ℕ
  pub debug : Option L → String

-- `StoredMembership::new`.
pub record Memberships (L M S : Type 0) : Type 0 where
  pub stored_membership : Option L → M → S

-- `ShardCommand`.
pub data ShardCommand (F : Type 0) : Type 0 where
  upsert : (collection : String) (records : List (VectorRecord F)) → ShardCommand F
  delete : (collection : String) (ids : List ℕ) → ShardCommand F

pub record ShardCommandResponse : Type 0 where
  pub applied_count : ℕ

-- `openraft::EntryPayload` and `openraft::Entry`, as the code matches and builds them.
pub data EntryPayload (F M : Type 0) : Type 0 where
  blank : EntryPayload F M
  normal : ShardCommand F → EntryPayload F M
  membership : M → EntryPayload F M

pub record Entry (F L M : Type 0) : Type 0 where
  pub log_id : L
  pub payload : EntryPayload F M

-- `openraft::SnapshotMeta` and `openraft::Snapshot`, whose payload is a byte string `B`.
pub record SnapshotMeta (L S : Type 0) : Type 0 where
  pub last_log_id : Option L
  pub last_membership : S
  pub snapshot_id : String

pub record Snapshot (L S B : Type 0) : Type 0 where
  pub meta : SnapshotMeta L S
  pub snapshot : B

-- `openraft::StorageError` as the code builds it, around an error `E` of bincode.
pub data StorageError (L S E : Type 0) : Type 0 where
  read_state_machine : E → StorageError L S E
  read_snapshot : SnapshotMeta L S → E → StorageError L S E

-- bincode at one type `A` of values. A value that it has written it reads back.
pub record Bincode (A B E : Type 0) : Type 0 where
  pub serialize : A → Result E B
  pub deserialize : B → Result E A
  pub round_trip : (a : A) (b : B) → serialize a ≡ ok b → deserialize b ≡ ok a
