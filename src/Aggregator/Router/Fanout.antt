-- ===== src/Aggregator/Router/Fanout.antt =====
-- `ShardRouter::search` when some of the shards fail.
use mathlib.Core.List.{flatten}
use Prim.Native.Nat.{min}
use raftvec.Base.{
  Option-cases, inl, inr, ℕ, suc, ◌+◌, ◌%◌, ◌<◌, ◌≡◌, refl, ◌∙◌, arith, Option, none, some, List,
  [], ◌∷◌, map, String, Result, ok, err, length,
}
use native.Mathlib.Nat.{mod-eq_of_lt}
use raftvec.Core.Float.{Float}
use raftvec.Core.Record.{ScoredId}
use raftvec.Core.TopK.{bounded_top_k}
use raftvec.Core.Sharding.{u32_mod}
use raftvec.Proto.{SearchRequest, SearchResponse, ScoredRecord}
use raftvec.Aggregator.Retry.{
  RouterError, ShardReplicaSet, Attempt, call_with_rounds, max_leader_attempts, search_hint,
}
use raftvec.Aggregator.Merge.{ranked, merge_scored_records, merge_scored_records-exact}
use raftvec.Aggregator.Router.{ShardRouter}
use raftvec.Aggregator.Router.Queries.{search_each, sort_responses, search}

module _ {F E : Type 0} ⦃fl : Float F⦄ (k : ℕ) where
  -- A shard with some items, its ranking computed: it answers with the `k` best of the items; or the
  -- shard fails, and there are no items to speak of.
  abbrev pub Answers :
      Result (RouterError E) (SearchResponse F) → Option (List (ScoredId F)) → Type 0
  Answers (ok resp) (some items) = map ranked resp.results ≡ bounded_top_k items k
  Answers (ok resp) none = ⊥
  Answers (err e) (some items) = ⊥
  Answers (err e) none = Unit

  abbrev pub AnswersEach :
      List (Result (RouterError E) (SearchResponse F)) → List (Option (List (ScoredId F))) → Type 0
  AnswersEach [] [] = Unit
  AnswersEach [] (o ∷ os) = ⊥
  AnswersEach (r ∷ rs) [] = ⊥
  AnswersEach (r ∷ rs) (o ∷ os) = Answers r o × AnswersEach rs os

abbrev pub answering : {A : Type 0} → List (Option A) → List A
answering [] = []
answering (none ∷ os) = answering os
answering (some a ∷ os) = a ∷ answering os

abbrev pub failing : {A : Type 0} → List (Option A) → ℕ
failing [] = 0
failing (none ∷ os) = suc (failing os)
failing (some a ∷ os) = failing os

module _ {F E : Type 0} ⦃fl : Float F⦄ (k : ℕ) where
  sorted_lists :
      (responses : List (Result (RouterError E) (SearchResponse F)))
      (items : List (Option (List (ScoredId F)))) (failed : ℕ)
      → AnswersEach k responses items
      → map (map ranked) (sort_responses responses failed).0
        ≡ map (λ l. bounded_top_k l k) (answering items)
  unfolding sort_responses
  sorted_lists [] [] failed h = refl
  sorted_lists [] (o ∷ items) failed h = elim h [ ]
  sorted_lists (r ∷ responses) [] failed h = elim h [ ]
  sorted_lists (ok resp ∷ responses) (none ∷ items) failed h = elim h.0 [ ]
  sorted_lists (ok resp ∷ responses) (some l ∷ items) failed h =
      λ i. h.0 i ∷ sorted_lists responses items failed h.1 i
  sorted_lists (err e ∷ responses) (some l ∷ items) failed h = elim h.0 [ ]
  sorted_lists (err e ∷ responses) (none ∷ items) failed h =
      sorted_lists responses items ((failed + 1) % u32_mod) h.1

  counted_failures :
      (responses : List (Result (RouterError E) (SearchResponse F)))
      (items : List (Option (List (ScoredId F)))) (failed : ℕ)
      → AnswersEach k responses items
      → failed + length responses < u32_mod
      → (sort_responses responses failed).1 ≡ failed + failing items
  unfolding sort_responses
  counted_failures [] [] failed h small = omega arith
  counted_failures [] (o ∷ items) failed h small = elim h [ ]
  counted_failures (r ∷ responses) [] failed h small = elim h [ ]
  counted_failures (ok resp ∷ responses) (none ∷ items) failed h small = elim h.0 [ ]
  counted_failures (ok resp ∷ responses) (some l ∷ items) failed h small =
      counted_failures responses items failed h.1 (omega arith)
  counted_failures (err e ∷ responses) (some l ∷ items) failed h small = elim h.0 [ ]
  counted_failures (err e ∷ responses) (none ∷ items) failed h small =
      let next : (failed + 1) % u32_mod ≡ failed + 1 = mod-eq_of_lt (omega arith) in
      rw (sort_responses, next)
        (counted_failures responses items (failed + 1) h.1 (omega arith)
          ∙ one_more failed (failing items))
    where
      one_more : (a b : ℕ) → a + 1 + b ≡ a + suc b
      one_more a b = omega arith

  length-search_each :
      {C : Type 0} (send : ℕ → C → Attempt (SearchResponse F)) (allowed : ℕ → ℕ) (i : ℕ)
      (shards shards' : List (ShardReplicaSet C))
      (responses : List (Result (RouterError E) (SearchResponse F)))
      → search_each send allowed i shards ≡ some (shards', responses)
      → length responses ≡ length shards
  unfolding search_each
  length-search_each send allowed i [] shards' responses h = ground arith
  length-search_each send allowed i (shard ∷ shards) shards' responses h =
      elim (Option-cases
        (call_with_rounds {E = E} (min (allowed i) max_leader_attempts) shard send)) [
          | inl e ↦ absurd (ground arith)
          | inr ((hint, result), e) ↦
              elim (Option-cases (search_each {E = E} send allowed (suc i) shards)) [
                | inl f ↦ absurd (ground arith)
                | inr ((rest, results), f) ↦
                    ground (arith, length-search_each send allowed (suc i) shards rest results f)
              ]
        ]

module _ {C F : Type 0} (E : Type 0) ⦃fl : Float F⦄
    (send : SearchRequest F → ℕ → C → Attempt (SearchResponse F)) (allowed : (deadline : ℕ) → ℕ → ℕ)
    (router : ShardRouter C) (collection : String) (query_vector : List F) (k : ℕ) where
  -- A search in which each shard either answers with the `k` best of its items or fails, whether by
  -- the deadline or by an error: of a `u32` of shards all are counted as queried, those that failed
  -- are counted as failed, and the results are the `k` best of the items of all the others.
  pub search_degraded :
      (shards' : List (ShardReplicaSet C))
      (responses : List (Result (RouterError E) (SearchResponse F)))
      (items : List (Option (List (ScoredId F))))
      → search_each
          (send (record { collection = collection; query_vector = query_vector; k = k }))
          (allowed router.deadline)
          0
          router.shards
        ≡ some (shards', responses)
      → AnswersEach k responses items
      → length router.shards < u32_mod
      → (results : List (ScoredRecord F)) × (search E send allowed router collection query_vector k
          ≡ some (record router { shards = shards' }, results, length router.shards, failing items))
        × (map ranked results ≡ bounded_top_k (flatten (answering items)) k)
  unfolding search
  search_degraded shards' responses items called answers small =
      let queried =
        length-search_each k
          (send (record { collection = collection; query_vector = query_vector; k = k }))
          (allowed router.deadline) 0 router.shards shards' responses called in
      let count : length responses % u32_mod ≡ length router.shards =
        rw queried (mod-eq_of_lt small) in
      let failed : (sort_responses responses 0).1 ≡ failing items =
        omega
          (arith, counted_failures k responses items 0 answers (omega (arith, queried, small))) in
      (
        merge_scored_records (sort_responses responses 0).0 k,
        rw (called, count, failed, search),
        merge_scored_records-exact k (sort_responses responses 0).0 (answering items)
            (sorted_lists k responses items 0 answers),
      )
