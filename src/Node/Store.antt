-- ===== src/Node/Store.antt =====
-- crates/raftvec-node/src/store.rs. A method that writes holds its locks from the first read to the
-- last write, so it is one step; it returns the new store beside its result. `snapshot` and
-- `cluster_status` lock the vectors of one collection after the other; here they read all of them at
-- one moment. The `debug_assert!` of `insert` is not compiled in a release build.
pub mod Valid
pub mod Contents
pub mod Replica
pub mod Ranking
pub mod Props
pub mod Snapshots
pub mod OneType
use raftvec.Base.{
  ℕ, suc, zero, ◌+◌, ◌%◌, max, Option, none, some, List, [], ◌∷◌, map, String, Result, ok, err,
  length, if◌then◌else◌, ◌==◌, nat_eq, string_eq, Bool, true, false,
}
use raftvec.HashMap
use raftvec.HashMap.{HashMap}
use raftvec.Core.Float.{Float}
use raftvec.Core.Record.{VectorRecord, ScoredId}
use raftvec.Core.Similarity.{norm_sq}
use raftvec.Core.Search.{Rayon, brute_force_top_k}
use raftvec.Core.Sharding.{u32_mod}

pub data StoreError : Type 0 where
  collection_exists : String → StoreError
  collection_not_found : String → StoreError
  dimension_mismatch : (expected actual : ℕ) → StoreError

-- The field `record` of the source is `rec`.
pub record StoredVector (F : Type 0) : Type 0 where
  pub rec : VectorRecord F
  pub norm_sq : F

pub record Collection (F : Type 0) : Type 0 where
  pub dim : ℕ
  pub shard_count : ℕ
  pub vectors : HashMap ℕ (StoredVector F)

pub record Store (F : Type 0) : Type 0 where
  pub collections : HashMap String (Collection F)

pub record CollectionSnapshot (F : Type 0) : Type 0 where
  pub dim : ℕ
  pub shard_count : ℕ
  pub vectors : HashMap ℕ (VectorRecord F)

pub record StoreSnapshot (F : Type 0) : Type 0 where
  pub collections : HashMap String (CollectionSnapshot F)

abbrev pub new : {F : Type 0} → Store F
new = record { collections = [] }

module _ {F : Type 0} where
  unfoldable pub create_collection :
      Store F → String → ℕ → ℕ → Store F × Result StoreError (Unit {0})
  unfolding HashMap.contains_key HashMap.insert
  create_collection s name dim shard_count =
      if HashMap.contains_key s.collections name then (s, err (collection_exists name)) else (
        record {
          collections =
              HashMap.insert s.collections name
                (record { dim = dim; shard_count = max shard_count 1; vectors = [] });
        },
        ok tt,
      )

  -- The first loop of `insert`: the length of the first embedding that is not `dim` long.
  unfoldable pub first_mismatch : ℕ → List (VectorRecord F) → Option ℕ
  first_mismatch dim [] = none
  first_mismatch dim (r ∷ rs) =
      if length r.embedding == dim then first_mismatch dim rs else some (length r.embedding)

  -- The loop of `delete`.
  unfoldable pub remove_each :
      HashMap ℕ (StoredVector F) → List ℕ → ℕ → HashMap ℕ (StoredVector F) × ℕ
  unfolding HashMap.remove HashMap.contains_key
  remove_each vectors [] deleted = (vectors, deleted)
  remove_each vectors (id ∷ ids) deleted =
      remove_each (HashMap.remove vectors id) ids
        (if HashMap.contains_key vectors id then deleted + 1 else deleted)

  unfoldable pub delete : Store F → String → List ℕ → Store F × Result StoreError ℕ
  unfolding HashMap.get HashMap.insert remove_each
  delete s collection ids = elim (HashMap.get s.collections collection) [
    | none ↦ (s, err (collection_not_found collection))
    | some coll ↦
        let (vectors, deleted) = remove_each coll.vectors ids 0 in
        (
          record {
            collections =
                HashMap.insert s.collections collection (record coll { vectors = vectors });
          },
          ok deleted,
        )
  ]

  unfoldable pub get_metadata : Store F → String → ℕ → Option (HashMap String String)
  unfolding HashMap.get
  get_metadata s collection id = elim (HashMap.get s.collections collection) [
    | none ↦ none
    | some coll ↦ elim (HashMap.get coll.vectors id) [ none ↦ none | some v ↦ some v.rec.metadata ]
  ]

  -- `sum()` of `u32` counts wraps in a release build.
  unfoldable pub sum_counts : List (Collection F) → ℕ
  sum_counts [] = 0
  sum_counts (c ∷ cs) = (length c.vectors % u32_mod + sum_counts cs) % u32_mod

  unfoldable pub cluster_status : Store F → List String × ℕ
  unfolding sum_counts
  cluster_status s = (HashMap.keys s.collections, sum_counts (HashMap.values s.collections))

  unfoldable pub collection_snapshot : Collection F → CollectionSnapshot F
  unfolding HashMap.collect
  collection_snapshot coll = record {
    dim = coll.dim;
    shard_count = coll.shard_count;
    vectors = HashMap.collect (map (λ s. (s.rec.id, s.rec)) (HashMap.values coll.vectors));
  }

  unfoldable pub snapshot : Store F → StoreSnapshot F
  unfolding collection_snapshot
  snapshot s = record {
    collections = HashMap.collect (map (λ e. (e.0, collection_snapshot e.1)) s.collections);
  }

module _ {F : Type 0} ⦃fl : Float F⦄ where
  unfoldable pub stored : VectorRecord F → StoredVector F
  unfolding norm_sq
  stored r = record { rec = r; norm_sq = norm_sq r.embedding }

  -- The second loop of `insert`.
  unfoldable pub insert_each :
      HashMap ℕ (StoredVector F) → List (VectorRecord F) → HashMap ℕ (StoredVector F)
  unfolding HashMap.insert stored
  insert_each vectors [] = vectors
  insert_each vectors (r ∷ rs) = insert_each (HashMap.insert vectors r.id (stored r)) rs

  unfoldable pub insert : Store F → String → List (VectorRecord F) → Store F × Result StoreError ℕ
  unfolding HashMap.get HashMap.insert first_mismatch insert_each
  insert s collection records = elim (HashMap.get s.collections collection) [
    | none ↦ (s, err (collection_not_found collection))
    | some coll ↦ elim (first_mismatch coll.dim records) [
      | some actual ↦ (s, err (dimension_mismatch coll.dim actual))
      | none ↦ (
        record {
          collections =
              HashMap.insert s.collections collection
                (record coll { vectors = insert_each coll.vectors records });
        },
        ok (length records),
      )
    ]
  ]

  unfoldable pub search :
      ⦃ry : Rayon (VectorRecord F × F)⦄
      → Store F
      → String
      → List F
      → ℕ
      → Result StoreError (List (ScoredId F))
  unfolding HashMap.get brute_force_top_k
  search s collection query k = elim (HashMap.get s.collections collection) [
    | none ↦ err (collection_not_found collection)
    | some coll ↦
        if length query == coll.dim
        then ok (
            brute_force_top_k (map (λ v. (v.rec, v.norm_sq)) (HashMap.values coll.vectors)) query k)
        else err (dimension_mismatch coll.dim (length query))
  ]

  unfoldable pub restore_collection : CollectionSnapshot F → Collection F
  unfolding HashMap.collect stored
  restore_collection snap = record {
    dim = snap.dim;
    shard_count = snap.shard_count;
    vectors = HashMap.collect (map (λ r. (r.id, stored r)) (HashMap.values snap.vectors));
  }

  -- The old contents are cleared, so they do not matter.
  unfoldable pub restore : Store F → StoreSnapshot F → Store F
  unfolding restore_collection
  restore s snap = record {
    collections = HashMap.collect (map (λ e. (e.0, restore_collection e.1)) snap.collections);
  }
