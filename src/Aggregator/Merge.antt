-- ===== src/Aggregator/Merge.antt =====
-- `merge_scored_records` of crates/raftvec-aggregator/src/router.rs.
use mathlib.Core.List.{flatten}
use raftvec.Base.{ℕ, String, ◌≡◌, refl, ap, ◌∙◌, List, [], ◌∷◌, map, nat_eq}
use raftvec.HashMap.{HashMap, get, insert, remove}
use raftvec.Proto.{ScoredRecord}
use raftvec.Core.Float.{Float}
use raftvec.Core.Record.{ScoredId}
use raftvec.Core.TopK.{merge_top_k, bounded_top_k}
use raftvec.Core.TopK.Exact.{merge_top_k-exact}
use raftvec.Aggregator.Retry.{unwrap_or}

module _ {F : Type 0} where
  abbrev pub ranked : ScoredRecord F → ScoredId F
  ranked r = record { id = r.id; score = r.score }

  -- `metadata.insert(r.id, r.metadata)` for each record of the lists, in their order.
  unfoldable pub insert_metadata :
      HashMap ℕ (HashMap String String) → List (ScoredRecord F) → HashMap ℕ (HashMap String String)
  insert_metadata metadata [] = metadata
  insert_metadata metadata (r ∷ list) = insert_metadata (insert metadata r.id r.metadata) list

  -- The last `map`: each result takes the metadata of its id out of the map.
  unfoldable pub remove_metadata :
      HashMap ℕ (HashMap String String) → List (ScoredId F) → List (ScoredRecord F)
  remove_metadata metadata [] = []
  remove_metadata metadata (s ∷ list) =
      record { id = s.id; score = s.score; metadata = unwrap_or (get metadata s.id) [] }
      ∷ remove_metadata (remove metadata s.id) list

module _ {F : Type 0} ⦃fl : Float F⦄ where
  unfoldable pub merge_scored_records : List (List (ScoredRecord F)) → ℕ → List (ScoredRecord F)
  unfolding insert_metadata remove_metadata
  merge_scored_records shard_lists k =
      remove_metadata (insert_metadata [] (flatten shard_lists))
        (merge_top_k (map (map ranked) shard_lists) k)

  map-remove_metadata :
      (metadata : HashMap ℕ (HashMap String String)) (list : List (ScoredId F))
      → map ranked (remove_metadata metadata list) ≡ list
  unfolding remove_metadata
  map-remove_metadata metadata [] = refl
  map-remove_metadata metadata (s ∷ list) =
      ap (◌∷◌ s) (map-remove_metadata (remove metadata s.id) list)

  -- When the list of each shard carries the ids and scores of the `k` best of that shard's items,
  -- the merged list carries those of the `k` best of the items of all the shards, in their order.
  pub merge_scored_records-exact :
      (k : ℕ) (shard_lists : List (List (ScoredRecord F))) (items : List (List (ScoredId F)))
      → map (map ranked) shard_lists ≡ map (λ l. bounded_top_k l k) items
      → map ranked (merge_scored_records shard_lists k) ≡ bounded_top_k (flatten items) k
  unfolding merge_scored_records
  merge_scored_records-exact k shard_lists items local =
      map-remove_metadata (insert_metadata [] (flatten shard_lists))
        (merge_top_k (map (map ranked) shard_lists) k)
      ∙ ap (λ l. merge_top_k l k) local
      ∙ merge_top_k-exact items k
