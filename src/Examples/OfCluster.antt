-- ===== src/Examples/OfCluster.antt =====
-- Runs of the aggregator over nodes that answer by their service. The first shard's node answers;
-- the second's answers inserts only.
use mathlib.Core.List.{flatten}
use raftvec.Base.{
  ℕ, zero, suc, ◌≡◌, ◌≢◌, refl, arith, true, List, [], ◌∷◌, map, none, some, String, Result, ok,
  err, Option, length, get_elem?,
}
use raftvec.Core.Record.{VectorRecord, ScoredId}
use raftvec.Core.Sharding.{shard_id}
use raftvec.Core.TopK.{bounded_top_k}
use raftvec.Proto.{
  Status, InsertRequest, InsertResponse, SearchRequest, SearchResponse, ScoredRecord,
}
use raftvec.Node.Raft.{upsert}
use raftvec.Node.Service
use raftvec.Node.Service.{Raft, forward_to_leader}
use raftvec.Aggregator.Grouping.{set}
use raftvec.Aggregator.Merge.{ranked}
use raftvec.Aggregator.Retry.{Attempt, response, failed, elapsed, ShardReplicaSet}
use raftvec.Aggregator.Router
use raftvec.Aggregator.Router.{ShardRouter}
use raftvec.Aggregator.Router.Queries.{search}
use raftvec.Aggregator.Router.Fanout.{answering, failing}
use raftvec.Cluster.Search as ClusterSearch
use raftvec.Cluster.Search.{ServesEach, HeldBy, Outcomes, cluster_search}
use raftvec.Cluster.Acknowledged as Acknowledged
use raftvec.Cluster.Acknowledged.{insert_acknowledged, Committed}
use raftvec.Aggregator.Router.Accepted.{together}
use raftvec.Base.{◌⊎◌, All, nat_eq}
use raftvec.Proto.{CreateCollectionRequest, already_exists}
use raftvec.Node.Store
use raftvec.Node.Store.{Store, Collection}
use raftvec.Aggregator.Retry.{rpc, unwrap_or}
use raftvec.Cluster.Create as Create
use raftvec.Cluster.Status.{answer, stores_up, total_of, known_to, IsDistinct, cluster_status_lem}
use raftvec.Aggregator.Router.Queries.{cluster_status, has_name}
use raftvec.Core.Sharding.{u32_mod}
use raftvec.Base.{◌%◌}
use raftvec.Cluster.Create.{create_collection_everywhere}
use raftvec.Examples.Fixtures.{nat_float, halves, pear, fruit_store}
use raftvec.Examples.OfStore.{fruit-IsValid}
use raftvec.Examples.OfRouter.{router, router-IsValid}

abbrev pub leader : Raft ℕ
leader = record {
  client_write = λ c. ok (record { applied_count = 1 });
  current_leader = some 1;
  get_node = λ id. none;
  ensure_linearizable = true;
}

abbrev pub via : {R : Type 0} → Result Status R → Attempt R
via (ok r) = response r
via (err status) = failed status

pub via_ok : {R : Type 0} (x : Result Status R) (r : R) → via x ≡ response r → x ≡ ok r
via_ok (ok a) r e = ground arith
via_ok (err s) r e = absurd (cc)

abbrev ask_search : SearchRequest ℕ → ℕ → ℕ → Attempt (SearchResponse ℕ)
ask_search req round zero = via (Service.search leader 1 fruit_store (λ id. fruit_store) true req)
ask_search req round (suc c) = elapsed

abbrev query : SearchRequest ℕ
query = record { collection = "fruit"; query_vector = 1 ∷ 1 ∷ []; k = 1 }

pub no_addr : (id : ℕ) → leader.get_node id ≢ some ""
no_addr id e = cc

serves_search :
    (i : ℕ) (shard : ShardReplicaSet ℕ)
    → ClusterSearch.Serves ask_search (λ i. fruit_store) query i shard
serves_search i shard j round zero resp found asked =
    (halves, leader, 1, (λ id. fruit_store), no_addr, via_ok _ resp asked)
serves_search i shard j round (suc c) resp found asked = absurd (cc)

cluster_search_example :
    (items : List (Option (List (ScoredId ℕ)))) × (router' : ShardRouter ℕ) × (results : List
      (ScoredRecord ℕ))
    × (length items ≡ 2)
    × HeldBy ask_search (λ i. fruit_store) query 0 items
    × Outcomes ask_search query String (λ i. 4) 0 router.shards items
    × (search String ask_search (λ deadline i. 4) router "fruit" (1 ∷ 1 ∷ []) 1
        ≡ some (router', results, 2, failing items))
    × (map ranked results ≡ bounded_top_k (flatten (answering items)) 1)
cluster_search_example =
    cluster_search ask_search (λ i. fruit_store) query String (λ i. fruit-IsValid) (λ deadline i. 4)
      router router-IsValid
      (
        serves_search 0 (record { clients = 0 ∷ []; addrs = "a" ∷ []; leader_hint = 0 }),
        (serves_search 1 (record { clients = 1 ∷ []; addrs = "b" ∷ []; leader_hint = 0 }), tt),
      )

abbrev pub ask_insert : InsertRequest ℕ → ℕ → ℕ → Attempt InsertResponse
ask_insert req round c = via (Service.insert leader req)

pub serves_insert : Acknowledged.Serves Service.insert ask_insert (λ round c. leader)
serves_insert = record {
  served = λ req round c resp asked. via_ok _ resp asked;
  named = λ cmd round c e. cc;
}

pub pear_inserted :
    Router.insert {E = String} (λ id. id) ask_insert router "fruit" (pear ∷ [])
    ≡ some (router, ok 1)
unfolding Router.insert Service.insert set shard_id
pear_inserted = refl

insert_acknowledged_example :
    (1 ≡ length (pear ∷ []))
    × (shard : ShardReplicaSet ℕ) × (get_elem? router.shards 0 ≡ some shard)
    × ((k : ℕ) × (get_elem?
            (together (λ id. id) (λ (r : VectorRecord ℕ). r.id) router (pear ∷ []) pear)
            k
          ≡ some pear))
    × Committed
        (λ round c. leader)
        shard
        (upsert "fruit"
          (together (λ id. id) (λ (r : VectorRecord ℕ). r.id) router (pear ∷ []) pear))
insert_acknowledged_example =
    insert_acknowledged String (λ id. id) (λ round c. leader) ask_insert router router "fruit"
      (pear ∷ []) 1 0 pear router-IsValid serves_insert (omega arith) pear_inserted refl

-- One replica has the collection, the other has not.
abbrev stores : ℕ → Store ℕ
stores zero = fruit_store
stores (suc c) = Store.new

abbrev fruit_request : CreateCollectionRequest
fruit_request = record { name = "fruit"; dim = 3; shard_count = 2 }

apart : Create.Apart (Create.replicas router)
unfolding flatten
apart = (((λ e. omega (arith, e)), tt), (tt, tt))

create_collection_everywhere_example :
    (let out = Router.create_collection {E = String} Create.reply router "fruit" 3 stores in
      All
        (λ c.
          Create.at (out.0 c) "fruit"
          ≡ some (unwrap_or (Create.at (stores c) "fruit") (Create.fresh fruit_request)))
        (Create.replicas router)
      × ((All (λ c. Create.at (stores c) "fruit" ≡ none) (Create.replicas router) × (out.1 ≡ ok tt))
          ⊎ (((j : ℕ) × (c : ℕ) × (d : Collection ℕ) × (get_elem? (Create.replicas router) j
                  ≡ some c)
                × (Create.at (stores c) "fruit" ≡ some d))
              × (out.1 ≡ err (rpc already_exists)))))
create_collection_everywhere_example =
    create_collection_everywhere {E = String} router "fruit" 3 stores apart

-- The second shard is down.
abbrev up : ℕ → Option (Store ℕ)
up zero = some fruit_store
up (suc c) = none

cluster_status_lem_example :
    ((cluster_status (answer up) router).1 ≡ total_of (stores_up up router.shards) % u32_mod)
    × (has_name "fruit" (cluster_status (answer up) router).0
        ≡ known_to "fruit" (stores_up up router.shards))
    × IsDistinct (cluster_status (answer up) router).0
cluster_status_lem_example = cluster_status_lem up router "fruit"
