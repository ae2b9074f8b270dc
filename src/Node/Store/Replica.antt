-- ===== src/Node/Store/Replica.antt =====
-- `Store::snapshot` and `Store::restore`.
use raftvec.Base.{
  ℕ, ◌≡◌, refl, sym, ap, ◌∙◌, [], ◌∷◌, map, All, Eq, none, some, arith, nat_eq, string_eq, String,
}
use raftvec.HashMap
use raftvec.HashMap.{HashMap}
use raftvec.HashMap.Laws.{IsMap}
use raftvec.HashMap.Build.{collect_self}
use raftvec.Core.Float.{Float}
use raftvec.Core.Record.{VectorRecord}
use raftvec.Node.Store.{
  Store, Collection, StoredVector, CollectionSnapshot, snapshot, restore, stored,
  collection_snapshot, restore_collection,
}
use raftvec.Node.Store.Valid.{IsValid, CollectionIsValid, EntryIsValid}

-- A map whose values are converted under their keys.
module _ {ℓ κ μ} {K : Type ℓ} ⦃e : Eq K⦄ {V : Type κ} {W : Type μ} (f : V → W) where
  pub get-map_values :
      (m : HashMap K V) (k : K)
      → HashMap.get (map (λ kv. (kv.0, f kv.1)) m) k
        ≡ (elim (HashMap.get m k) [ none ↦ none | some v ↦ some (f v) ])
  unfolding HashMap.get
  get-map_values [] k = refl
  get-map_values ((j, v) ∷ m) k = ground (arith, get-map_values m k)

  pub map_values-IsMap : (m : HashMap K V) → IsMap m → IsMap {V = W} (map (λ kv. (kv.0, f kv.1)) m)
  map_values-IsMap [] h = tt
  map_values-IsMap ((j, v) ∷ m) h =
      (ground (arith, get-map_values m j, h.0), map_values-IsMap m h.1)

module _ {F : Type 0} ⦃fl : Float F⦄ where
  pub snapshot_keys :
      (dim : ℕ) (vs : HashMap ℕ (StoredVector F))
      → All (EntryIsValid dim) vs
      → map {B = ℕ × VectorRecord F} (λ s. (s.rec.id, s.rec)) (HashMap.values vs)
        ≡ map (λ kv. (kv.0, kv.1.rec)) vs
  snapshot_keys dim [] h = refl
  snapshot_keys dim ((k, s) ∷ vs) h = λ i. (h.0.0 i, s.rec) ∷ snapshot_keys dim vs h.1 i

  restored_entries :
      (dim : ℕ) (vs : HashMap ℕ (StoredVector F))
      → All (EntryIsValid dim) vs
      → map {B = ℕ × StoredVector F}
          (λ r. (r.id, stored r))
          (HashMap.values (map (λ kv. (kv.0, kv.1.rec)) vs))
        ≡ vs
  unfolding stored
  restored_entries dim [] h = refl
  restored_entries dim ((k, s) ∷ vs) h =
      λ i. (h.0.0 i, record { rec = s.rec; norm_sq = sym h.0.2 i }) ∷ restored_entries dim vs h.1 i

  restored_vectors :
      (dim : ℕ) (vs : HashMap ℕ (StoredVector F))
      → IsMap vs
      → All (EntryIsValid dim) vs
      → HashMap.collect (
          map {B = ℕ × StoredVector F}
            (λ r. (r.id, stored r))
            (HashMap.values (
              HashMap.collect
                (map {B = ℕ × VectorRecord F} (λ s. (s.rec.id, s.rec)) (HashMap.values vs)))))
        ≡ vs
  restored_vectors dim vs d h =
      rw
        (
          snapshot_keys dim vs h,
          collect_self (map {B = ℕ × VectorRecord F} (λ kv. (kv.0, kv.1.rec)) vs)
              (map_values-IsMap (λ (s : StoredVector F). s.rec) vs d),
          restored_entries dim vs h,
        )
        (collect_self vs d)

  restore_collection-snapshot :
      (c : Collection F) → CollectionIsValid c → restore_collection (collection_snapshot c) ≡ c
  unfolding restore_collection collection_snapshot
  restore_collection-snapshot c v = λ i. record {
    dim = c.dim;
    shard_count = c.shard_count;
    vectors = restored_vectors c.dim c.vectors v.distinct v.entries i;
  }

  restored_each :
      (m : HashMap String (Collection F))
      → All (λ e. CollectionIsValid e.1) m
      → map {B = String × Collection F}
          (λ e. (e.0, restore_collection e.1))
          (map {B = String × CollectionSnapshot F} (λ e. (e.0, collection_snapshot e.1)) m)
        ≡ m
  restored_each [] h = refl
  restored_each ((name, c) ∷ m) h =
      λ i. (name, restore_collection-snapshot c h.0 i) ∷ restored_each m h.1 i

  -- Restoring the snapshot of a valid store, into any store, gives that store back: the cached
  -- norms that the snapshot leaves out are recomputed to what they were.
  pub restore-snapshot : (s t : Store F) → IsValid s → restore t (snapshot s) ≡ s
  unfolding restore snapshot
  restore-snapshot s t v = λ i. record { collections = restored i }
    where
      kept :
          HashMap.collect (
            map {B = String × CollectionSnapshot F}
              (λ e. (e.0, collection_snapshot e.1))
              s.collections)
          ≡ map (λ e. (e.0, collection_snapshot e.1)) s.collections
      kept = collect_self _ (map_values-IsMap collection_snapshot s.collections v.distinct)

      restored :
          HashMap.collect (
            map {B = String × Collection F}
              (λ e. (e.0, restore_collection e.1))
              (HashMap.collect (
                map {B = String × CollectionSnapshot F}
                  (λ e. (e.0, collection_snapshot e.1))
                  s.collections)))
          ≡ s.collections
      restored =
          ap
            (λ l.
              HashMap.collect
                (map {B = String × Collection F} (λ e. (e.0, restore_collection e.1)) l))
            kept
          ∙ ap HashMap.collect (restored_each s.collections v.each)
          ∙ collect_self s.collections v.distinct
