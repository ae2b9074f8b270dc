-- ===== src/Node/StateMachine/Creates.antt =====
-- `create_collection` is no command of the log: each replica runs it on its own, at some moment
-- between the entries that it applies.
use raftvec.Base.{
  ℕ, ◌≡◌, refl, ◌∙◌, ap, arith, none, some, List, [], String, true, false, max, ◌==◌, string_eq,
  if◌then◌else◌,
}
use text.Mathlib.TextEquality.{eq_iff}
use raftvec.HashMap
use raftvec.HashMap.{HashMap}
use raftvec.HashMap.Laws.{get-insert}
use raftvec.Core.Float.{Float}
use raftvec.Core.Record.{VectorRecord}
use raftvec.Node.Store
use raftvec.Node.Store.{Store, Collection, create_collection}
use raftvec.Node.Store.Valid.{IsValid, new-IsValid, create_collection-IsValid}
use raftvec.Node.Store.Replica.{restore-snapshot}
use raftvec.Node.Store.Contents.{contents, last_with}
use raftvec.Node.Raft.{ShardCommand, upsert}
use raftvec.Node.StateMachine.{run_command}
use raftvec.Node.StateMachine.Apply.{run_command-IsValid}
use raftvec.Node.StateMachine.View.{view, all_fit, view-run_command, view-ext}

-- The stores that a replica can come to hold.
pub data Reachable {F : Type 0} ⦃fl : Float F⦄ : Store F → Type 0 where
  empty : Reachable Store.new
  created :
      {s : Store F} (name : String) (dim shard_count : ℕ)
      → Reachable s
      → Reachable (create_collection s name dim shard_count).0
  commanded : {s : Store F} (c : ShardCommand F) → Reachable s → Reachable (run_command s c).0
  restored :
      {s t : Store F} → Reachable s → Reachable t → Reachable (Store.restore s (Store.snapshot t))

module _ {F : Type 0} ⦃fl : Float F⦄ where
  -- Every store that a replica can come to hold, by creating collections, by commands of any kind
  -- and by restoring the snapshots of others, is valid.
  pub reachable-IsValid : {s : Store F} → Reachable s → IsValid s
  reachable-IsValid empty = new-IsValid
  reachable-IsValid (created name dim shard_count r) =
      create_collection-IsValid _ name dim shard_count (reachable-IsValid r)
  reachable-IsValid (commanded c r) = run_command-IsValid _ c (reachable-IsValid r)
  reachable-IsValid (restored {s} {t} r q) =
      let v = reachable-IsValid q in rw (restore-snapshot t s v) v

  -- Creating an unknown collection.
  pub view-create :
      (s : Store F) (name : String) (dim shard_count : ℕ)
      → HashMap.get s.collections name ≡ none
      → view (create_collection s name dim shard_count).0 ≡ record (view s) {
        dims = λ other. if name == other then some dim else (view s).dims other;
      }
  unfolding create_collection
  view-create s name dim shard_count e =
      let c : Collection F = record { dim = dim; shard_count = max shard_count 1; vectors = [] } in
      let missing = not_contained s.collections name e in
      rw (missing, create_collection)
        (view-ext _ _ (λ other. ground (arith, get-insert s.collections name other c))
          (λ other id. ground (arith, eq_iff name other, get-insert s.collections name other c)))
    where
      not_contained :
          (m : HashMap String (Collection F)) (name : String)
          → HashMap.get m name ≡ none
          → HashMap.contains_key m name ≡ false
      not_contained m name e = unfold HashMap.contains_key in rw (e, HashMap.contains_key) refl

  rejected :
      (s : Store F) (name : String) (records : List (VectorRecord F))
      → HashMap.get s.collections name ≡ none
      → (run_command s (upsert name records)).0 ≡ s
  unfolding run_command Store.insert
  rejected s name records missing = ground arith

  -- Two replicas with the same valid store that apply the same insert, of records that fit the
  -- dimension, to a collection that neither has yet. One creates the collection before the entry:
  -- it holds the record that is the last of its id in the batch. The other creates it after the
  -- entry: it holds no record with that id.
  pub create_late_diverges :
      (s : Store F) (name : String) (dim shard_count id : ℕ) (records : List (VectorRecord F))
      (r : VectorRecord F)
      → IsValid s
      → HashMap.get s.collections name ≡ none
      → all_fit dim records ≡ true
      → last_with id records ≡ some r
      → (contents
            (run_command (create_collection s name dim shard_count).0 (upsert name records)).0
            name
            id
          ≡ some r)
        × (contents
              (create_collection (run_command s (upsert name records)).0 name dim shard_count).0
              name
              id
            ≡ none)
  create_late_diverges s name dim shard_count id records r v missing fit found = (
    ap (λ w. w.records name id)
          (view-run_command (create_collection s name dim shard_count).0 (upsert name records)
            (create_collection-IsValid s name dim shard_count v))
        ∙ rw (view-create s name dim shard_count missing) (ground (arith, eq_iff name name)),
    ap (λ t. contents (create_collection t name dim shard_count).0 name id)
          (rejected s name records missing)
        ∙ ap (λ w. w.records name id) (view-create s name dim shard_count missing)
        ∙ rw (missing, view, contents) refl,
  )
