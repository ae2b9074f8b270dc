-- ===== src/Node/StateMachine.antt =====
-- `ShardStateMachine` of crates/raftvec-node/src/raft.rs: committed entries applied to the store.
-- A method that writes returns the new state.
pub mod Apply
pub mod CatchUp
pub mod View
pub mod Replicas
pub mod Again
pub mod Creates
pub mod Durable
use raftvec.Base.{ℕ, ◌%◌, Option, none, some, List, [], ◌∷◌, ◌++◌, Result, ok, err, ◌>>=◌, map_err}
use raftvec.Core.Float.{Float}
use raftvec.Core.Sharding.{u32_mod}
use raftvec.Node.Store
use raftvec.Node.Store.{Store, StoreSnapshot, StoreError}
use raftvec.Node.Raft.{
  LogIds, Memberships, ShardCommand, upsert, delete, ShardCommandResponse, EntryPayload, blank,
  normal, membership, Entry, SnapshotMeta, Snapshot, StorageError, read_state_machine,
  read_snapshot, Bincode,
}

pub record ShardStateMachine (F L S : Type 0) : Type 0 where
  pub store : Store F
  pub last_applied_log : Option L
  pub last_membership : S

-- `unwrap_or(0) as u32`
abbrev pub count_or_zero : Result StoreError ℕ → ℕ
count_or_zero (ok n) = n % u32_mod
count_or_zero (err e) = 0

module _ {F : Type 0} ⦃fl : Float F⦄ where
  unfoldable pub run_command : Store F → ShardCommand F → Store F × ℕ
  unfolding Store.insert Store.delete
  run_command s (upsert collection records) =
      let (s', result) = Store.insert s collection records in (s', count_or_zero result)
  run_command s (delete collection ids) =
      let (s', result) = Store.delete s collection ids in (s', count_or_zero result)

-- `default_membership` is `StoredMembership::default()`.
unfoldable pub new : {F L S : Type 0} → Store F → S → ShardStateMachine F L S
new store default_membership = record {
  store = store;
  last_applied_log = none;
  last_membership = default_membership;
}

module _ {F L M S : Type 0} ⦃fl : Float F⦄ ⦃ms : Memberships L M S⦄ where
  -- The body of the loop of `apply`: first the position, then the payload.
  unfoldable pub apply_payload :
      ShardStateMachine F L S
      → L
      → EntryPayload F M
      → ShardStateMachine F L S × ShardCommandResponse
  unfolding run_command
  apply_payload sm log_id blank = (sm, record { applied_count = 0 })
  apply_payload sm log_id (normal cmd) =
      let (store, applied_count) = run_command sm.store cmd in
      (record sm { store = store }, record { applied_count = applied_count })
  apply_payload sm log_id (membership mem) = (
    record sm { last_membership = ms.stored_membership (some log_id) mem },
    record { applied_count = 0 },
  )

  unfoldable pub apply_entry :
      ShardStateMachine F L S → Entry F L M → ShardStateMachine F L S × ShardCommandResponse
  unfolding apply_payload
  apply_entry sm entry =
      apply_payload (record sm { last_applied_log = some entry.log_id }) entry.log_id entry.payload

  unfoldable pub apply :
      ShardStateMachine F L S
      → List (Entry F L M)
      → ShardStateMachine F L S × List ShardCommandResponse
  unfolding apply_entry
  apply sm [] = (sm, [])
  apply sm (entry ∷ entries) =
      let (sm', response) = apply_entry sm entry in
      let (sm'', responses) = apply sm' entries in (sm'', response ∷ responses)

abbrev pub applied_state : {F L S : Type 0} → ShardStateMachine F L S → Option L × S
applied_state sm = (sm.last_applied_log, sm.last_membership)

module _ {F L S B E : Type 0} ⦃bc : Bincode (StoreSnapshot F) B E⦄ where
  -- The store, the position and the membership are read one after the other, each under a lock of
  -- its own: `at_store`, `at_log` and `at_membership` are the states at these three moments.
  unfoldable pub build_snapshot :
      ⦃li : LogIds L⦄ (at_store at_log at_membership : ShardStateMachine F L S)
      → Result (StorageError L S E) (Snapshot L S B)
  build_snapshot ⦃li⦄ at_store at_log at_membership = do
    bytes ← map_err read_state_machine (bc.serialize (Store.snapshot at_store.store))
    ok (record {
      meta = record {
        last_log_id = at_log.last_applied_log;
        last_membership = at_membership.last_membership;
        snapshot_id = li.debug at_log.last_applied_log;
      };
      snapshot = bytes;
    })

  unfoldable pub install_snapshot :
      ⦃fl : Float F⦄
      → ShardStateMachine F L S
      → SnapshotMeta L S
      → B
      → Result (StorageError L S E) (ShardStateMachine F L S)
  install_snapshot sm meta bytes = do
    store_snapshot ← map_err (read_snapshot meta) (bc.deserialize bytes)
    ok (record {
      store = Store.restore sm.store store_snapshot;
      last_applied_log = meta.last_log_id;
      last_membership = meta.last_membership;
    })

-- An empty buffer for the bytes of a snapshot.
abbrev pub begin_receiving_snapshot : {A : Type 0} → List A
begin_receiving_snapshot = []

-- There is never a snapshot at hand.
abbrev pub get_current_snapshot : {L S B : Type 0} → Option (Snapshot L S B)
get_current_snapshot = none
