-- ===== src/Cluster/Search.antt =====
-- A search of crates/raftvec-aggregator/src/router.rs whose shards answer by `NodeService::search` of
-- crates/raftvec-node/src/service.rs.
use mathlib.Core.List.{flatten}
use Prim.Native.Nat.{min}
use raftvec.Base.{
  ℕ, suc, ◌≡◌, ◌≢◌, refl, sym, ◌∙◌, ap, arith, true, Option, none, some, Option-cases, inl, inr,
  List, [], ◌∷◌, map, String, Result, ok, err, length, get_elem?, All, nat_eq, string_eq,
}
use raftvec.HashMap
use raftvec.Core.Float.{Float}
use raftvec.Core.Record.{VectorRecord, ScoredId}
use raftvec.Core.Search.{Rayon}
use raftvec.Core.TopK.{bounded_top_k}
use raftvec.Proto.{SearchRequest, SearchResponse, ScoredRecord}
use raftvec.Node.Store
use raftvec.Node.Store.{Store}
use raftvec.Node.Store.Valid.{IsValid}
use raftvec.Node.Store.Ranking.{direct, search_lem}
use raftvec.Node.Service
use raftvec.Node.Service.{Raft}
use raftvec.Node.Service.Reads.{search_answer}
use raftvec.Aggregator.Retry.{
  RouterError, ShardReplicaSet, Attempt, response, max_leader_attempts, search_hint,
  call_with_rounds,
}
use raftvec.Aggregator.Retry.Bounds.{IsAnswered, call_with_rounds-IsAnswered}
use raftvec.Aggregator.Merge.{ranked}
use raftvec.Aggregator.Router.{ShardRouter}
use raftvec.Aggregator.Router.Queries.{search_each, search}
use raftvec.Aggregator.Router.Fanout.{AnswersEach, answering, failing, search_degraded}
use raftvec.Aggregator.Router.Totals as Totals
use raftvec.Aggregator.Router.Totals.{ShardIsValid}

module _ {F : Type 0} ⦃fl : Float F⦄ (collection : String) (query_vector : List F) where
  -- Every record of the collection with its score.
  abbrev pub scored : Store F → List (ScoredId F)
  scored s = elim (HashMap.get s.collections collection) [
    | none ↦ []
    | some c ↦ map (direct query_vector) c.vectors
  ]

  -- What a store answers, if it answers, are the best of its records.
  best_of_store :
      ⦃ry : Rayon (VectorRecord F × F)⦄ (s : Store F) (k : ℕ) (l : List (ScoredId F))
      → IsValid s
      → Store.search s collection query_vector k ≡ ok l
      → l ≡ bounded_top_k (scored s) k
  best_of_store s k l v h =
      let spec = sym (search_lem s collection query_vector k v) ∙ h in
      elim (Option-cases (HashMap.get s.collections collection)) [
        | inl e ↦ absurd (ground arith)
        | inr (c, e) ↦ ground arith
      ]

module _ {C F : Type 0} (ask : SearchRequest F → ℕ → C → Attempt (SearchResponse F))
    (req : SearchRequest F) (E : Type 0) (allowed : ℕ → ℕ) where
  -- How the call to a shard ends: with a response, or with an error.
  abbrev pub Ends : (i : ℕ) → ShardReplicaSet C → Result (RouterError E) (SearchResponse F) → Type 0
  Ends i shard out =
      (hint : ℕ) × (call_with_rounds (min (allowed i) max_leader_attempts) shard (ask req)
        ≡ some (hint, out))

  -- There is an item for each shard from the `i`th on: one that is not missing if the call to the
  -- shard ends with a response, a missing one if it ends with an error.
  abbrev pub Outcomes : ℕ → List (ShardReplicaSet C) → List (Option (List (ScoredId F))) → Type 0
  Outcomes i [] [] = Unit
  Outcomes i [] (o ∷ os) = ⊥
  Outcomes i (shard ∷ shards) [] = ⊥
  Outcomes i (shard ∷ shards) (none ∷ os) =
      ((e : RouterError E) × Ends i shard (err e)) × Outcomes (suc i) shards os
  Outcomes i (shard ∷ shards) (some l ∷ os) =
      ((resp : SearchResponse F) × Ends i shard (ok resp)) × Outcomes (suc i) shards os

module _ {C F : Type 0} ⦃fl : Float F⦄ (ask : SearchRequest F → ℕ → C → Attempt (SearchResponse F))
    (stores : ℕ → Store F) (req : SearchRequest F) where
  -- A response of a replica of the shard `i` is that of its service. If it leads, its store is
  -- `stores i`; no address is empty.
  abbrev pub Serves : ℕ → ShardReplicaSet C → Type 0
  Serves i shard =
      (j round : ℕ) (c : C) (resp : SearchResponse F)
      → get_elem? shard.clients j ≡ some c
      → ask req round c ≡ response resp
      → (ry : Rayon (VectorRecord F × F)) × (raft : Raft F) × (node_id : ℕ) × (seen : ℕ → Store F)
        × ((id : ℕ) → raft.get_node id ≢ some "")
        × (Service.search ⦃fl = fl⦄ ⦃ry = ry⦄ raft node_id (stores i) seen true req ≡ ok resp)

  abbrev pub ServesEach : ℕ → List (ShardReplicaSet C) → Type 0
  ServesEach i [] = Unit
  ServesEach i (shard ∷ shards) = Serves i shard × ServesEach (suc i) shards

  -- The items are the scored records of the shards from the `i`th on, or missing.
  abbrev pub HeldBy : ℕ → List (Option (List (ScoredId F))) → Type 0
  HeldBy i [] = Unit
  HeldBy i (none ∷ os) = HeldBy (suc i) os
  HeldBy i (some l ∷ os) =
      (l ≡ scored req.collection req.query_vector (stores i)) × HeldBy (suc i) os

  module _ (E : Type 0) (valid : (i : ℕ) → IsValid (stores i)) where
    pub response_is_best :
        (i : ℕ) (shard : ShardReplicaSet C) (j round : ℕ) (c : C) (resp : SearchResponse F)
        → Serves i shard
        → get_elem? shard.clients j ≡ some c
        → ask req round c ≡ response resp
        → resp.leader_hint ≡ ""
        → map ranked resp.results
          ≡ bounded_top_k (scored req.collection req.query_vector (stores i)) req.k
    response_is_best i shard j round c resp serves found asked final =
        let (ry, raft, node_id, seen, named, answer) = serves j round c resp found asked in
        elim (search_answer ⦃fl = fl⦄ ⦃ry = ry⦄ raft node_id (stores i) seen true req resp answer) [
          | inl (_, _, local, _, _) ↦
              best_of_store req.collection req.query_vector ⦃ry = ry⦄ (stores i) req.k
                (map ranked resp.results) (valid i) local
          | inr (leader, _, _, addr, _, _) ↦ absurd (named leader (addr ∙ ap some final))
        ]

    search_each_held :
        (allowed : ℕ → ℕ) (i : ℕ) (shards : List (ShardReplicaSet C))
        → All ShardIsValid shards
        → ServesEach i shards
        → (shards' : List (ShardReplicaSet C)) × (responses : List
            (Result (RouterError E) (SearchResponse F)))
          × (items : List (Option (List (ScoredId F)))) × (search_each (ask req) allowed i shards
              ≡ some (shards', responses))
          × AnswersEach req.k responses items
          × HeldBy i items
          × Outcomes ask req E allowed i shards items
          × (length items ≡ length shards)
    unfolding search_each IsAnswered
    search_each_held allowed i [] v s = ([], [], [], refl, tt, tt, tt, refl)
    search_each_held allowed i (shard ∷ shards) v s =
        let (hint, out, run, _, cases) =
          call_with_rounds-IsAnswered E shard (ask req) v.0.0 v.0.1
            (min (allowed i) max_leader_attempts) in
        let (shards', responses, items, rest, answers, held, ends, size) =
          search_each_held allowed (suc i) shards v.1 s.1 in
        elim cases [
          | inl (resp, round, c, is_ok, final, found, asked) ↦ (
            record shard { leader_hint = hint } ∷ shards',
            ok resp ∷ responses,
            some (scored req.collection req.query_vector (stores i)) ∷ items,
            rw (run, rest, is_ok, search_each) refl,
            (response_is_best i shard hint round c resp s.0 found asked final, answers),
            (refl, held),
            ((resp, (hint, run ∙ ap (λ o. some (hint, o)) is_ok)), ends),
            ap suc size,
          )
          | inr (e, is_err) ↦ (
            record shard { leader_hint = hint } ∷ shards',
            err e ∷ responses,
            none ∷ items,
            rw (run, rest, is_err, search_each) refl,
            (tt, answers),
            held,
            ((e, (hint, run ∙ ap (λ o. some (hint, o)) is_err)), ends),
            ap suc size,
          )
        ]

    -- A search through a well-formed router, where every response of a shard is that of a node's
    -- service, a node that leads reads a valid store that holds the shard, and no leader's address
    -- is empty: it does not panic. There is an item for each shard: the scored records of the shard
    -- if the call to it, of as many attempts as the deadline allows, ends with a response, and a
    -- missing one if it ends with an error. The results are the `k` best of all the items that are
    -- there, each scored from scratch; all shards are counted as queried, and those with a missing
    -- item as failed.
    pub cluster_search :
        (allowed : (deadline : ℕ) → ℕ → ℕ) (router : ShardRouter C)
        → Totals.IsValid router
        → ServesEach 0 router.shards
        → (items : List (Option (List (ScoredId F)))) × (router' : ShardRouter C) × (results : List
            (ScoredRecord F))
          × (length items ≡ length router.shards)
          × HeldBy 0 items
          × Outcomes ask req E (allowed router.deadline) 0 router.shards items
          × (search E ask allowed router req.collection req.query_vector req.k
              ≡ some (router', results, length router.shards, failing items))
          × (map ranked results ≡ bounded_top_k (flatten (answering items)) req.k)
    cluster_search allowed router v s =
        let (shards', responses, items, called, answers, held, ends, size) =
          search_each_held (allowed router.deadline) 0 router.shards v.each s in
        let (results, run, best) =
          search_degraded E ask allowed router req.collection req.query_vector req.k shards'
            responses items called answers v.fits in
        (items, record router { shards = shards' }, results, size, held, ends, run, best)
