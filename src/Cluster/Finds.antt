-- ===== src/Cluster/Finds.antt =====
-- One record that a shard's store shows, in a search of crates/raftvec-aggregator/src/router.rs.
use mathlib.Core.List.{flatten}
use raftvec.Base.{
  ℕ, zero, suc, ◌+◌, ◌≡◌, ◌<◌, refl, ap, ◌∙◌, arith, Option, none, some, Option-cases, inl, inr,
  ◌⊎◌, List, [], ◌∷◌, ◌++◌, map, String, length, get_elem?, nat_eq, string_eq, ◌==◌, Bool-cases,
  err, subst,
}
use raftvec.HashMap
use raftvec.HashMap.{HashMap}
use raftvec.Order.Found.{In, Ranked, top-Ranked}
use raftvec.Core.Float.{Float}
use raftvec.Core.Record.{VectorRecord, ScoredId, scored_id_ord}
use raftvec.Core.Similarity.{cosine_similarity}
use raftvec.Core.TopK.Exact.{bounded_top_k-eq-top}
use raftvec.Proto.{SearchRequest, SearchResponse, ScoredRecord}
use raftvec.Node.Store.{Store}
use raftvec.Node.Store.Valid.{IsValid}
use raftvec.Node.Store.Contents.{contents}
use raftvec.Node.Store.Ranking.{direct}
use raftvec.Aggregator.Retry.{Attempt, RouterError, ShardReplicaSet, search_hint}
use raftvec.Aggregator.Merge.{ranked}
use raftvec.Aggregator.Router.{ShardRouter}
use raftvec.Aggregator.Router.Queries.{search}
use raftvec.Aggregator.Router.Fanout.{answering, failing}
use raftvec.Aggregator.Router.Totals as Totals
use raftvec.Cluster.Search.{scored, ServesEach, HeldBy, Ends, Outcomes, cluster_search}

module _ {A : Type 0} where
  In-append_left : (x : A) (l r : List A) → In x l → In x (l ++ r)
  In-append_left x [] r (j, e) = absurd (cc)
  In-append_left x (y ∷ l) r (zero, e) = (0, e)
  In-append_left x (y ∷ l) r (suc j, e) = let (i, f) = In-append_left x l r (j, e) in (suc i, f)

  In-append_right : (x : A) (l r : List A) → In x r → In x (l ++ r)
  In-append_right x [] r h = h
  In-append_right x (y ∷ l) r h = let (i, f) = In-append_right x l r h in (suc i, f)

  In-flatten :
      (x : A) (l : List A) (os : List (Option (List A))) (i : ℕ)
      → get_elem? os i ≡ some (some l)
      → In x l
      → In x (flatten (answering os))
  unfolding flatten
  In-flatten x l [] i e h = absurd (cc)
  In-flatten x l (none ∷ os) zero e h = absurd (cc)
  In-flatten x l (none ∷ os) (suc i) e h = In-flatten x l os i e h
  In-flatten x l (some m ∷ os) zero e h =
      let same : m ≡ l = ground arith in rw same (In-append_left x l (flatten (answering os)) h)
  In-flatten x l (some m ∷ os) (suc i) e h =
      In-append_right x m (flatten (answering os)) (In-flatten x l os i e h)

  In-map {ℓ} : {B : Type ℓ} (f : B → A) (b : B) (l : List B) → In b l → In (f b) (map f l)
  In-map f b [] (j, e) = absurd (cc)
  In-map f b (y ∷ l) (zero, e) = (0, ground arith)
  In-map f b (y ∷ l) (suc j, e) = let (i, g) = In-map f b l (j, e) in (suc i, g)

module _ {V : Type 0} where
  get-In : (m : HashMap ℕ V) (k : ℕ) (v : V) → HashMap.get m k ≡ some v → In (k, v) m
  unfolding HashMap.get
  get-In [] k v e = absurd (cc)
  get-In ((i, w) ∷ m) k v e = elim (Bool-cases (i == k)) [
    | inl t ↦ (0, ground arith)
    | inr f ↦ let (j, h) = get-In m k v (ground arith) in (suc j, h)
  ]

module _ {F : Type 0} ⦃fl : Float F⦄ where
  abbrev pub scored_from_scratch : List F → ℕ → VectorRecord F → ScoredId F
  scored_from_scratch query id r = record { id = id; score = cosine_similarity r.embedding query }

  shown-In :
      (s : Store F) (name : String) (query : List F) (id : ℕ) (r : VectorRecord F)
      → contents s name id ≡ some r
      → In (scored_from_scratch query id r) (scored name query s)
  shown-In s name query id r h = elim (Option-cases (HashMap.get s.collections name)) [
    | inl e ↦ absurd (ground arith)
    | inr (c, e) ↦ elim (Option-cases (HashMap.get c.vectors id)) [
      | inl f ↦ absurd (ground arith)
      | inr (v, f) ↦
          let same : v.rec ≡ r = ground arith in
          let at = In-map (direct query) (id, v) c.vectors (get-In c.vectors id v f) in
          rw (e, scored) (rw (← same) at)
    ]
  ]

module _ {C F : Type 0} (ask : SearchRequest F → ℕ → C → Attempt (SearchResponse F))
    (req : SearchRequest F) where
  -- The call to the shard at `i` ends with an error.
  abbrev pub IsUnanswered : (E : Type 0) → (ℕ → ℕ) → List (ShardReplicaSet C) → (i : ℕ) → Type 0
  IsUnanswered E allowed shards i =
      (shard : ShardReplicaSet C) × (e : RouterError E) × (get_elem? shards i ≡ some shard)
      × Ends ask req E allowed i shard (err e)

  unanswered_at :
      (E : Type 0) (allowed : ℕ → ℕ) (i j : ℕ) (shards : List (ShardReplicaSet C))
      (items : List (Option (List (ScoredId F))))
      → Outcomes ask req E allowed i shards items
      → get_elem? items j ≡ some none
      → (shard : ShardReplicaSet C) × (e : RouterError E) × (get_elem? shards j ≡ some shard)
        × Ends ask req E allowed (i + j) shard (err e)
  unanswered_at E allowed i j [] [] h g = absurd (cc)
  unanswered_at E allowed i j [] (o ∷ os) h g = elim h [ ]
  unanswered_at E allowed i j (shard ∷ shards) [] h g = absurd (cc)
  unanswered_at E allowed i zero (shard ∷ shards) (none ∷ os) ((e, ends), h) g =
      let z : i + 0 ≡ i = omega arith in (shard, e, refl, rw z ends)
  unanswered_at E allowed i zero (shard ∷ shards) (some l ∷ os) h g = absurd (cc)
  unanswered_at E allowed i (suc j) (shard ∷ shards) (none ∷ os) h g =
      let z : i + suc j ≡ suc i + j = omega arith in
      rw z (unanswered_at E allowed (suc i) j shards os h.1 g)
  unanswered_at E allowed i (suc j) (shard ∷ shards) (some l ∷ os) h g =
      let z : i + suc j ≡ suc i + j = omega arith in
      rw z (unanswered_at E allowed (suc i) j shards os h.1 g)

module _ {C F : Type 0} ⦃fl : Float F⦄ (ask : SearchRequest F → ℕ → C → Attempt (SearchResponse F))
    (stores : ℕ → Store F) (req : SearchRequest F) where
  held_at :
      (i j : ℕ) (items : List (Option (List (ScoredId F))))
      → HeldBy ask stores req i items
      → j < length items
      → (get_elem? items j ≡ some none)
        ⊎ (get_elem? items j
            ≡ some (some (scored req.collection req.query_vector (stores (i + j)))))
  held_at i j [] h lt = absurd (omega arith)
  held_at i zero (none ∷ os) h lt = inl refl
  held_at i zero (some l ∷ os) h lt = let z : i + 0 ≡ i = omega arith in inr (ground (arith, h.0))
  held_at i (suc j) (none ∷ os) h lt =
      let z : i + suc j ≡ suc i + j = omega arith in rw z (held_at (suc i) j os h (omega arith))
  held_at i (suc j) (some l ∷ os) h lt =
      let z : i + suc j ≡ suc i + j = omega arith in rw z (held_at (suc i) j os h.1 (omega arith))

  module _ (E : Type 0) (valid : (i : ℕ) → IsValid (stores i)) where
    -- A search through a well-formed router, where every response of a shard is that of a node's
    -- service, a node that leads reads a valid store that holds the shard, and no leader's address
    -- is empty. A record that the store of a shard shows is in the results, with the id and the
    -- score that is computed from scratch; or the results are `k` records that it does not
    -- outrank; or the call to the shard ends with an error, and is counted among the failed ones.
    pub search_finds :
        (allowed : (deadline : ℕ) → ℕ → ℕ) (router : ShardRouter C) (i id : ℕ) (r : VectorRecord F)
        → Totals.IsValid router
        → ServesEach ask stores req 0 router.shards
        → i < length router.shards
        → contents (stores i) req.collection id ≡ some r
        → (router' : ShardRouter C) × (results : List (ScoredRecord F)) × (failed : ℕ) × (search E
              ask allowed router req.collection req.query_vector req.k
            ≡ some (router', results, length router.shards, failed))
          × (Ranked req.k (scored_from_scratch req.query_vector id r) (map ranked results)
              ⊎ (IsUnanswered ask req E (allowed router.deadline) router.shards i × (0 < failed)))
    search_finds allowed router i id r v serves lt shown =
        let (items, router', results, size, held, ends, run, best) =
          cluster_search ask stores req E valid allowed router v serves in
        (
          router',
          results,
          failing items,
          run,
          elim (held_at 0 i items held (omega (arith, size, lt))) [
            | inl missing ↦
                let (shard, e, at, ended) =
                  unanswered_at ask req E (allowed router.deadline) 0 i router.shards items ends
                    missing in
                let z : 0 + i ≡ i = omega arith in
                inr (
                  (
                    shard,
                    e,
                    at,
                    subst (λ n. Ends ask req E (allowed router.deadline) n shard (err e)) z ended,
                  ),
                  some_failing items i missing,
                )
            | inr there ↦
                let z : 0 + i ≡ i = omega arith in
                let here =
                  there
                  ∙ ap (λ n. some (some (scored req.collection req.query_vector (stores n)))) z in
                inl (
                  rw (best, bounded_top_k-eq-top (flatten (answering items)) req.k)
                    (top-Ranked req.k (flatten (answering items))
                      (scored_from_scratch req.query_vector id r)
                      (In-flatten (scored_from_scratch req.query_vector id r)
                        (scored req.collection req.query_vector (stores i)) items i here
                        (shown-In (stores i) req.collection req.query_vector id r shown))))
          ],
        )
      where
        some_failing :
            {A : Type 0} (items : List (Option A)) (i : ℕ)
            → get_elem? items i ≡ some none
            → 0 < failing items
        some_failing [] i e = absurd (cc)
        some_failing (none ∷ items) i e = omega arith
        some_failing (some a ∷ items) zero e = absurd (cc)
        some_failing (some a ∷ items) (suc i) e = some_failing items i e
