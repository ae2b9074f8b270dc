-- ===== src/Cluster/Misses.antt =====
-- A record that no shard's store shows, in a search of crates/raftvec-aggregator/src/router.rs.
use mathlib.Core.List.{flatten}
use raftvec.Base.{
  ℕ, suc, ◌+◌, ◌≡◌, ◌≢◌, ◌<◌, arith, Option, none, some, Option-cases, inl, inr, List, [], ◌∷◌,
  ◌++◌, map, String, length, nat_eq, string_eq, ◌==◌, All, Bool-cases,
}
use raftvec.HashMap
use raftvec.HashMap.{HashMap}
use raftvec.Order.Every.{top-All}
use raftvec.Core.Float.{Float}
use raftvec.Core.Record.{ScoredId, scored_id_ord}
use raftvec.Core.TopK.Exact.{bounded_top_k-eq-top}
use raftvec.Proto.{SearchRequest, SearchResponse, ScoredRecord}
use raftvec.Node.Store.{Store, StoredVector}
use raftvec.Node.Store.Valid.{IsValid}
use raftvec.Node.Store.Contents.{contents}
use raftvec.Node.Store.Ranking.{direct}
use raftvec.Aggregator.Retry.{Attempt}
use raftvec.Aggregator.Merge.{ranked}
use raftvec.Aggregator.Router.{ShardRouter}
use raftvec.Aggregator.Router.Queries.{search}
use raftvec.Aggregator.Router.Fanout.{answering, failing}
use raftvec.Aggregator.Router.Totals as Totals
use raftvec.Cluster.Search.{scored, ServesEach, HeldBy, cluster_search}

append-All : {A : Type 0} (P : A → Type 0) (xs ys : List A) → All P xs → All P ys → All P (xs ++ ys)
append-All P [] ys h k = k
append-All P (x ∷ xs) ys h k = (h.0, append-All P xs ys h.1 k)

module _ {F : Type 0} ⦃fl : Float F⦄ (id : ℕ) where
  -- The scored record has another id.
  abbrev pub Other : ScoredId F → Type 0
  Other s = s.id ≢ id

  direct-All :
      (query : List F) (m : HashMap ℕ (StoredVector F))
      → HashMap.get m id ≡ none
      → All Other (map (direct query) m)
  unfolding HashMap.get
  direct-All query [] e = tt
  direct-All query ((i, v) ∷ m) e = elim (Bool-cases (i == id)) [
    | inl t ↦ absurd (ground arith)
    | inr f ↦ ((λ same. absurd (ground arith)), direct-All query m (ground arith))
  ]

  scored-All :
      (s : Store F) (name : String) (query : List F)
      → contents s name id ≡ none
      → All Other (scored name query s)
  scored-All s name query h = elim (Option-cases (HashMap.get s.collections name)) [
    | inl e ↦ rw (e, scored) tt
    | inr (c, e) ↦ elim (Option-cases (HashMap.get c.vectors id)) [
      | inl f ↦ rw (e, scored) (direct-All query c.vectors f)
      | inr (v, f) ↦ absurd (ground arith)
    ]
  ]

module _ {C F : Type 0} ⦃fl : Float F⦄ (ask : SearchRequest F → ℕ → C → Attempt (SearchResponse F))
    (stores : ℕ → Store F) (req : SearchRequest F) where
  held-All :
      (id i : ℕ) (items : List (Option (List (ScoredId F))))
      → HeldBy ask stores req i items
      → ((j : ℕ) → j < i + length items → contents (stores j) req.collection id ≡ none)
      → All (Other id) (flatten (answering items))
  unfolding flatten
  held-All id i [] h absent = tt
  held-All id i (none ∷ os) h absent =
      held-All id (suc i) os h (λ j lt. absent j (omega (arith, lt)))
  held-All id i (some l ∷ os) h absent =
      append-All (Other id) l (flatten (answering os))
        (rw h.0 (scored-All id (stores i) req.collection req.query_vector (absent i (omega arith))))
        (held-All id (suc i) os h.1 (λ j lt. absent j (omega (arith, lt))))

  module _ (E : Type 0) (valid : (i : ℕ) → IsValid (stores i)) where
    -- A search through a well-formed router, where every response of a shard is that of a node's
    -- service, a node that leads reads a valid store that holds the shard, and no leader's address
    -- is empty. An id that no shard's store shows is not in the results.
    pub search_misses :
        (allowed : (deadline : ℕ) → ℕ → ℕ) (router : ShardRouter C) (id : ℕ)
        → Totals.IsValid router
        → ServesEach ask stores req 0 router.shards
        → ((i : ℕ) → i < length router.shards → contents (stores i) req.collection id ≡ none)
        → (router' : ShardRouter C) × (results : List (ScoredRecord F)) × (failed : ℕ) × (search E
              ask allowed router req.collection req.query_vector req.k
            ≡ some (router', results, length router.shards, failed))
          × All (Other id) (map ranked results)
    search_misses allowed router id v serves absent =
        let (items, router', results, size, held, _, run, best) =
          cluster_search ask stores req E valid allowed router v serves in
        (
          router',
          results,
          failing items,
          run,
          rw (best, bounded_top_k-eq-top (flatten (answering items)) req.k)
              (top-All (Other id) req.k (flatten (answering items))
                (held-All id 0 items held (λ j lt. absent j (omega (arith, size, lt))))),
        )
