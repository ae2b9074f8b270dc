-- ===== src/Node/Store/Snapshots.antt =====
-- The snapshots of crates/raftvec-node/src/store.rs are another form of the stores.

use raftvec.Base.{
  ℕ, ◌≡◌, ◌≤◌, refl, sym, ap, ◌∙◌, subst, [], ◌∷◌, map, All, nat_eq, string_eq, String, length,
}
use raftvec.HashMap
use raftvec.HashMap.{HashMap}
use raftvec.HashMap.Laws.{IsMap}
use raftvec.HashMap.Build.{collect_self}
use native.Mathlib.Bridge.{le_prop}
use raftvec.Core.Float.{Float}
use raftvec.Core.Record.{VectorRecord}
use raftvec.Node.Store.{
  Store, Collection, StoredVector, CollectionSnapshot, StoreSnapshot, snapshot, restore, stored,
  collection_snapshot, restore_collection,
}
use raftvec.Node.Store.Valid.{IsValid, CollectionIsValid, EntryIsValid}
use raftvec.Node.Store.Replica.{map_values-IsMap, snapshot_keys}
use raftvec.Node.Store.Props.{IsMap-prop, All-prop, string_set, float_set, vector_record_set}

module _ {ℓ κ μ ν} {K : Type ℓ} {V : Type κ} {W : Type κ} where
  All-map_values :
      (f : V → W) (P : K × V → Type μ) (Q : K × W → Type ν) (m : HashMap K V)
      → ((k : K) (v : V) → P (k, v) → Q (k, f v))
      → All P m
      → All Q (map (λ kv. (kv.0, f kv.1)) m)
  All-map_values f P Q [] h a = tt
  All-map_values f P Q ((k, v) ∷ m) h a = (h k v a.0, All-map_values f P Q m h a.1)

module _ {F : Type 0} ⦃fl : Float F⦄ where
  -- A record of a snapshot stands under its own id, and has the collection's dimension.
  abbrev pub EntryHolds : ℕ → ℕ × VectorRecord F → Type 0
  EntryHolds dim (id, r) = (r.id ≡ id) × (length r.embedding ≡ dim)

  pub record CollectionHolds (c : CollectionSnapshot F) : Type 0 where
    pub shards : 1 ≤ c.shard_count
    pub distinct : IsMap c.vectors
    pub entries : All (EntryHolds c.dim) c.vectors

  -- A snapshot with each key once, and with records that fit their collections.
  pub record SnapshotHolds (p : StoreSnapshot F) : Type 0 where
    pub distinct : IsMap p.collections
    pub each : All (λ e. CollectionHolds e.1) p.collections

  collection_snapshot_set : IsSet (CollectionSnapshot F)
  collection_snapshot_set = hlevel (string_set, vector_record_set)

  CollectionHolds-prop : (c : CollectionSnapshot F) → IsProp (CollectionHolds c)
  CollectionHolds-prop c = hlevel (
    le_prop {n = 1} {m = c.shard_count},
    IsMap-prop vector_record_set c.vectors,
    All-prop (EntryHolds c.dim) c.vectors (λ x. hlevel float_set),
  )

  pub SnapshotHolds-prop : (p : StoreSnapshot F) → IsProp (SnapshotHolds p)
  SnapshotHolds-prop p = hlevel (
    IsMap-prop collection_snapshot_set p.collections,
    All-prop (λ e. CollectionHolds e.1) p.collections (λ x. CollectionHolds-prop x.1),
  )

  restored_keys :
      (dim : ℕ) (vs : HashMap ℕ (VectorRecord F))
      → All (EntryHolds dim) vs
      → map {B = ℕ × StoredVector F} (λ r. (r.id, stored r)) (HashMap.values vs)
        ≡ map (λ kv. (kv.0, stored kv.1)) vs
  restored_keys dim [] h = refl
  restored_keys dim ((k, r) ∷ vs) h = λ i. (h.0.0 i, stored r) ∷ restored_keys dim vs h.1 i

  restore_collection_lem :
      (c : CollectionSnapshot F)
      → CollectionHolds c
      → restore_collection c ≡ record {
        dim = c.dim;
        shard_count = c.shard_count;
        vectors = map (λ kv. (kv.0, stored kv.1)) c.vectors;
      }
  unfolding restore_collection
  restore_collection_lem c v =
      let same =
        ap HashMap.collect (restored_keys c.dim c.vectors v.entries)
        ∙ collect_self _ (map_values-IsMap stored c.vectors v.distinct) in
      λ i. record { dim = c.dim; shard_count = c.shard_count; vectors = same i }

  collection_snapshot_lem :
      (c : Collection F)
      → CollectionIsValid c
      → collection_snapshot c ≡ record {
        dim = c.dim;
        shard_count = c.shard_count;
        vectors = map (λ kv. (kv.0, kv.1.rec)) c.vectors;
      }
  unfolding collection_snapshot
  collection_snapshot_lem c v =
      let same =
        ap HashMap.collect (snapshot_keys c.dim c.vectors v.entries)
        ∙ collect_self _ (map_values-IsMap (λ (s : StoredVector F). s.rec) c.vectors v.distinct) in
      λ i. record { dim = c.dim; shard_count = c.shard_count; vectors = same i }

  restore_collection-IsValid :
      (c : CollectionSnapshot F) → CollectionHolds c → CollectionIsValid (restore_collection c)
  unfolding stored
  restore_collection-IsValid c v =
      subst CollectionIsValid (sym (restore_collection_lem c v)) (record {
        shards = v.shards;
        distinct = map_values-IsMap stored c.vectors v.distinct;
        entries =
            All-map_values stored (EntryHolds c.dim) (EntryIsValid c.dim) c.vectors
              (λ k r h. (h.0, h.1, refl)) v.entries;
      })

  collection_snapshot-Holds :
      (c : Collection F) → CollectionIsValid c → CollectionHolds (collection_snapshot c)
  collection_snapshot-Holds c v =
      subst CollectionHolds (sym (collection_snapshot_lem c v)) (record {
        shards = v.shards;
        distinct = map_values-IsMap (λ (s : StoredVector F). s.rec) c.vectors v.distinct;
        entries =
            All-map_values (λ (s : StoredVector F). s.rec) (EntryIsValid c.dim) (EntryHolds c.dim)
              c.vectors (λ k s h. (h.0, h.1)) v.entries;
      })

  records_back :
      (vs : HashMap ℕ (VectorRecord F))
      → map {B = ℕ × VectorRecord F}
          (λ (kv : ℕ × StoredVector F). (kv.0, kv.1.rec))
          (map (λ kv. (kv.0, stored kv.1)) vs)
        ≡ vs
  unfolding stored
  records_back [] = refl
  records_back ((k, r) ∷ vs) = ap (◌∷◌ (k, r)) (records_back vs)

  collection_snapshot-restore :
      (c : CollectionSnapshot F)
      → CollectionHolds c
      → collection_snapshot (restore_collection c) ≡ c
  collection_snapshot-restore c v =
      collection_snapshot_lem (restore_collection c) (restore_collection-IsValid c v)
      ∙ ap
          (λ (d : Collection F). record {
            dim = d.dim;
            shard_count = d.shard_count;
            vectors = map (λ kv. (kv.0, kv.1.rec)) d.vectors;
          })
          (restore_collection_lem c v)
      ∙ (λ i. record {
        dim = c.dim;
        shard_count = c.shard_count;
        vectors = records_back c.vectors i;
      })

  snapshot_lem :
      (s : Store F)
      → IsValid s
      → snapshot s
        ≡ record { collections = map (λ e. (e.0, collection_snapshot e.1)) s.collections }
  unfolding snapshot
  snapshot_lem s v = λ i. record {
    collections = collect_self _ (map_values-IsMap collection_snapshot s.collections v.distinct) i;
  }

  restore_lem :
      (t : Store F) (p : StoreSnapshot F)
      → SnapshotHolds p
      → restore t p
        ≡ record { collections = map (λ e. (e.0, restore_collection e.1)) p.collections }
  unfolding restore
  restore_lem t p v = λ i. record {
    collections = collect_self _ (map_values-IsMap restore_collection p.collections v.distinct) i;
  }

  pub snapshot-Holds : (s : Store F) → IsValid s → SnapshotHolds (snapshot s)
  snapshot-Holds s v = subst SnapshotHolds (sym (snapshot_lem s v)) (record {
    distinct = map_values-IsMap collection_snapshot s.collections v.distinct;
    each =
        All-map_values collection_snapshot (λ (e : String × Collection F). CollectionIsValid e.1)
          (λ (e : String × CollectionSnapshot F). CollectionHolds e.1) s.collections
          (λ k c h. collection_snapshot-Holds c h) v.each;
  })

  pub restore-IsValid :
      (t : Store F) (p : StoreSnapshot F) → SnapshotHolds p → IsValid (restore t p)
  restore-IsValid t p v = subst IsValid (sym (restore_lem t p v)) (record {
    distinct = map_values-IsMap restore_collection p.collections v.distinct;
    each =
        All-map_values restore_collection
          (λ (e : String × CollectionSnapshot F). CollectionHolds e.1)
          (λ (e : String × Collection F). CollectionIsValid e.1) p.collections
          (λ k c h. restore_collection-IsValid c h) v.each;
  })

  collections_back :
      (m : HashMap String (CollectionSnapshot F))
      → All (λ e. CollectionHolds e.1) m
      → map {B = String × CollectionSnapshot F}
          (λ (e : String × Collection F). (e.0, collection_snapshot e.1))
          (map (λ e. (e.0, restore_collection e.1)) m)
        ≡ m
  collections_back [] h = refl
  collections_back ((name, c) ∷ m) h =
      λ i. (name, collection_snapshot-restore c h.0 i) ∷ collections_back m h.1 i

  pub snapshot-restore :
      (t : Store F) (p : StoreSnapshot F) → SnapshotHolds p → snapshot (restore t p) ≡ p
  snapshot-restore t p v =
      snapshot_lem (restore t p) (restore-IsValid t p v)
      ∙ ap
          (λ (s : Store F). record {
            collections = map (λ e. (e.0, collection_snapshot e.1)) s.collections;
          })
          (restore_lem t p v)
      ∙ (λ i. record { collections = collections_back p.collections v.each i })
