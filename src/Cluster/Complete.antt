-- ===== src/Cluster/Complete.antt =====
-- A search of crates/raftvec-aggregator/src/router.rs while each shard has a leader that answers.
use mathlib.Core.List.{flatten}
use Prim.Native.Nat.{min}
use raftvec.Base.{
  ℕ, suc, ◌*◌, ◌/◌, ◌≡◌, ◌≤◌, refl, sym, ap, ◌∙◌, arith, Option, some, inl, inr, List, [], ◌∷◌, map,
  Result, ok, length, All,
}
use raftvec.Core.Float.{Float}
use raftvec.Core.Record.{ScoredId}
use raftvec.Core.TopK.{bounded_top_k}
use raftvec.Proto.{SearchRequest, SearchResponse, ScoredRecord}
use raftvec.Node.Store.{Store}
use raftvec.Node.Store.Valid.{IsValid}
use raftvec.Aggregator.Retry.{
  RouterError, ShardReplicaSet, Attempt, max_leader_attempts, read_attempt_timeout, search_hint,
  call_with_rounds,
}
use raftvec.Aggregator.Retry.Bounds.{IsAnswered, call_with_rounds-IsAnswered}
use raftvec.Aggregator.Retry.Finds.{Reaches, retry_finds_live}
use raftvec.Aggregator.Merge.{ranked}
use raftvec.Aggregator.Router.{ShardRouter}
use raftvec.Aggregator.Router.Queries.{search_each, search}
use raftvec.Aggregator.Router.Fanout.{AnswersEach, answering, failing, search_degraded}
use raftvec.Aggregator.Router.Totals as Totals
use raftvec.Aggregator.Router.Totals.{ShardIsValid}
use raftvec.Cluster.Search.{scored, Serves, ServesEach, response_is_best}

all_present : {A : Type 0} (l : List A) → (answering (map some l) ≡ l) × (failing (map some l) ≡ 0)
all_present [] = (refl, refl)
all_present (x ∷ l) = let (same, none_failed) = all_present l in (ap (◌∷◌ x) same, none_failed)

module _ {C F : Type 0} ⦃fl : Float F⦄ (ask : SearchRequest F → ℕ → C → Attempt (SearchResponse F))
    (stores : ℕ → Store F) (req : SearchRequest F) where
  -- One of the shard's replicas answers every request, the others lead to it; the attempts that all
  -- of them need fit in the limit on attempts and in the deadline.
  pub record HasLeader (deadline : ℕ) (shard : ShardReplicaSet C) : Type 0 where
    pub live : ℕ
    pub reaches : Reaches shard.addrs shard.clients (ask req) live
    pub few : length shard.clients ≤ max_leader_attempts
    pub in_time : length shard.clients * read_attempt_timeout ≤ deadline

  -- The scored records of the shards from the `i`th on.
  abbrev pub held_from : ℕ → List (ShardReplicaSet C) → List (List (ScoredId F))
  held_from i [] = []
  held_from i (shard ∷ shards) =
      scored req.collection req.query_vector (stores i) ∷ held_from (suc i) shards

  module _ (E : Type 0) (valid : (i : ℕ) → IsValid (stores i)) where
    shard_answers :
        (i rounds deadline : ℕ) (shard : ShardReplicaSet C)
        → ShardIsValid shard
        → Serves ask stores req i shard
        → HasLeader deadline shard
        → length shard.clients ≤ rounds
        → (hint : ℕ) × (resp : SearchResponse F) × (call_with_rounds {E = E} rounds shard (ask req)
            ≡ some (hint, ok resp))
          × (map ranked resp.results
              ≡ bounded_top_k (scored req.collection req.query_vector (stores i)) req.k)
    unfolding IsAnswered
    shard_answers i rounds deadline shard v s l enough =
        let (hint, out, run, _, cases) =
          call_with_rounds-IsAnswered E shard (ask req) v.0 v.1 rounds in
        let (hint', r, run', _) =
          retry_finds_live shard.addrs shard.clients (ask req) E l.live rounds shard.leader_hint
            l.reaches enough in
        let same : out ≡ ok r = second (sym run ∙ run') in
        elim cases [
          | inl (resp, round, c, is_ok, final, found, asked) ↦ (
            hint,
            resp,
            run ∙ ap (λ o. some (hint, o)) is_ok,
            response_is_best ask stores req E valid i shard hint round c resp s found asked final,
          )
          | inr (e, is_err) ↦ absurd (ground (arith, same, is_err))
        ]
      where
        second :
            {a b : ℕ} {x y : Result (RouterError E) (SearchResponse F)}
            → ◌≡◌ {A = Option (ℕ × Result (RouterError E) (SearchResponse F))}
                (some (a, x))
                (some (b, y))
            → x ≡ y
        second e = cc

    search_each_answers :
        (allowed : ℕ → ℕ) (deadline i : ℕ) (shards : List (ShardReplicaSet C))
        → ((j : ℕ) → deadline / read_attempt_timeout ≤ allowed j)
        → All ShardIsValid shards
        → ServesEach ask stores req i shards
        → All (HasLeader deadline) shards
        → (shards' : List (ShardReplicaSet C)) × (responses : List
            (Result (RouterError E) (SearchResponse F)))
          × (search_each (ask req) allowed i shards ≡ some (shards', responses))
          × AnswersEach req.k responses (map some (held_from i shards))
    unfolding search_each
    search_each_answers allowed deadline i [] t v s l = ([], [], refl, tt)
    search_each_answers allowed deadline i (shard ∷ shards) t v s l =
        let fits : length shard.clients ≤ deadline / read_attempt_timeout =
          omega (arith, l.0.in_time) in
        let (hint, resp, run, best) =
          shard_answers i (min (allowed i) max_leader_attempts) deadline shard v.0 s.0 l.0
            (omega (arith, fits, t i, l.0.few)) in
        let (shards', responses, rest, answers) =
          search_each_answers allowed deadline (suc i) shards t v.1 s.1 l.1 in
        (
          record shard { leader_hint = hint } ∷ shards',
          ok resp ∷ responses,
          rw (run, rest, search_each) refl,
          (best, answers),
        )

    -- A search through a well-formed router, where every response of a shard is that of a node's
    -- service, a node that leads reads a valid store that holds the shard, and no leader's address
    -- is empty; where one replica of each shard answers every request with a response that names no
    -- leader, and the others fail, hang or lead to it; where a shard has at most as many replicas
    -- as a call makes attempts, and they can all be tried within the deadline, each for the time of
    -- an attempt; and where the calls make as many attempts within the deadline as there is time
    -- for. The search does not degrade: no shard is reported as failed, and the results are the `k`
    -- best of the records of all shards.
    pub search_complete :
        (allowed : (deadline : ℕ) → ℕ → ℕ) (router : ShardRouter C)
        → Totals.IsValid router
        → ServesEach ask stores req 0 router.shards
        → All (HasLeader router.deadline) router.shards
        → ((i : ℕ) → router.deadline / read_attempt_timeout ≤ allowed router.deadline i)
        → (router' : ShardRouter C) × (results : List (ScoredRecord F)) × (search E ask allowed
              router req.collection req.query_vector req.k
            ≡ some (router', results, length router.shards, 0))
          × (map ranked results ≡ bounded_top_k (flatten (held_from 0 router.shards)) req.k)
    search_complete allowed router v s l t =
        let (shards', responses, called, answers) =
          search_each_answers (allowed router.deadline) router.deadline 0 router.shards t v.each s
            l in
        let items = map some (held_from 0 router.shards) in
        let (results, run, best) =
          search_degraded E ask allowed router req.collection req.query_vector req.k shards'
            responses items called answers v.fits in
        let (present, none_failed) = all_present (held_from 0 router.shards) in
        (
          record router { shards = shards' },
          results,
          run
              ∙ ap
                  (λ n. some (record router { shards = shards' }, results, length router.shards, n))
                  none_failed,
          best ∙ ap (λ lists. bounded_top_k (flatten lists) req.k) present,
        )
