-- ===== src/Examples/OfShards.antt =====
-- Runs of a search over shards that all answer.
use raftvec.Base.{
  ℕ, zero, suc, ◌≡◌, refl, arith, true, List, [], ◌∷◌, map, some, String, ok, get_elem?, ap, All,
}
use raftvec.Core.Record
use raftvec.Core.Record.{VectorRecord, scored_id_ord}
use raftvec.Proto.{SearchRequest, SearchResponse, ScoredRecord}
use raftvec.Node.Service
use raftvec.Node.Store
use raftvec.Aggregator.Retry.Finds.{Reaches}
use raftvec.Cluster.Complete.{HasLeader, held_from, search_complete}
use raftvec.Core.TopK.{bounded_top_k}
use mathlib.Core.List.{flatten}
use raftvec.Aggregator.Retry.{ShardReplicaSet, Attempt, delete_hint, search_hint}
use raftvec.Aggregator.Merge.{ranked}
use raftvec.Aggregator.Router.{ShardRouter}
use raftvec.Aggregator.Router.Queries.{search}
use raftvec.Cluster.Search as ClusterSearch
use raftvec.Examples.Fixtures.{
  nat_float, halves, fruit_store, nat_log_ids, latest_membership, as_is,
}
use raftvec.Examples.OfStore.{fruit-IsValid}
use raftvec.Examples.OfRouter.{router, router-IsValid}
use raftvec.Examples.OfCluster.{leader, via, via_ok, no_addr}
use raftvec.Node.Service.Results.{IsResult, search_results}
use raftvec.Examples.OfReads.{query}

-- Both shards answer.
abbrev ask_both : SearchRequest ℕ → ℕ → ℕ → Attempt (SearchResponse ℕ)
ask_both req round c = via (Service.search leader 1 fruit_store (λ id. fruit_store) true req)

serves_both :
    (i : ℕ) (shard : ShardReplicaSet ℕ)
    → ClusterSearch.Serves ask_both (λ i. fruit_store) query i shard
serves_both i shard j round c resp found asked =
    (halves, leader, 1, (λ id. fruit_store), no_addr, via_ok _ resp asked)

abbrev best : SearchResponse ℕ
best = record {
  results = record { id = 1; score = 0; metadata = ("name", "apple") ∷ [] } ∷ [];
  shards_queried = 1;
  shards_failed = 0;
  leader_hint = "";
}

best_found : Service.search leader 1 fruit_store (λ id. fruit_store) true query ≡ ok best
unfolding Service.search Service.leadership Store.search Service.with_metadata Record.cmp
    Store.get_metadata
best_found = refl

alone : (addr : String) (i : ℕ) → Reaches (addr ∷ []) (i ∷ []) (ask_both query) 0
alone addr i = record {
  same = refl;
  live-lt = omega arith;
  answers = λ round c e. (best, ap via best_found, refl);
  steers = λ round idx c away e. only idx c away e;
}
  where
    only : {P : Type 0} (idx c : ℕ) → ¬ (idx ≡ 0) → get_elem? (i ∷ []) idx ≡ some c → P
    only zero c away e = absurd (away refl)
    only (suc idx) c away e = absurd (cc)

has_leader :
    (addr : String) (i : ℕ)
    → HasLeader ask_both
        (λ i. fruit_store)
        query
        2000
        (record { clients = i ∷ []; addrs = addr ∷ []; leader_hint = 0 })
has_leader addr i = record {
  live = 0;
  reaches = alone addr i;
  few = omega arith;
  in_time = omega arith;
}

both_serve : ClusterSearch.ServesEach ask_both (λ i. fruit_store) query 0 router.shards
both_serve = (
  serves_both 0 (record { clients = 0 ∷ []; addrs = "a" ∷ []; leader_hint = 0 }),
  (serves_both 1 (record { clients = 1 ∷ []; addrs = "b" ∷ []; leader_hint = 0 }), tt),
)

search_complete_example :
    (router' : ShardRouter ℕ) × (results : List (ScoredRecord ℕ)) × (search String ask_both
        (λ deadline i. 5)
        router
        "fruit"
        (1 ∷ 1 ∷ [])
        1
      ≡ some (router', results, 2, 0))
    × (map ranked results
        ≡ bounded_top_k (flatten (held_from ask_both (λ i. fruit_store) query 0 router.shards)) 1)
search_complete_example =
    search_complete ask_both (λ i. fruit_store) query String (λ i. fruit-IsValid) (λ deadline i. 5)
      router router-IsValid both_serve (has_leader "a" 0, (has_leader "b" 1, tt)) (λ i. omega arith)

search_results_example :
    All (IsResult fruit_store (λ id. fruit_store) "fruit" (1 ∷ 1 ∷ [])) best.results
search_results_example =
    search_results leader 1 fruit_store (λ id. fruit_store) true query best fruit-IsValid best_found
