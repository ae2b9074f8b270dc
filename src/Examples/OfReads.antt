-- ===== src/Examples/OfReads.antt =====
-- Runs of a search after an insert and after a delete.
use raftvec.Base.{
  ℕ, zero, suc, ◌≡◌, ◌≢◌, ◌<◌, ◌⊎◌, refl, arith, true, List, [], ◌∷◌, map, none, some, String, All,
  get_elem?,
}
use raftvec.Core.Record.{scored_id_ord}
use raftvec.Order.Found.{Ranked}
use raftvec.Proto.{SearchRequest, SearchResponse, ScoredRecord}
use raftvec.Node.Service
use raftvec.Node.Raft.{Entry, upsert, delete, normal}
use raftvec.Core.Record.{VectorRecord}
use raftvec.Node.Store.Valid.{IsValid}
use raftvec.Node.StateMachine.{ShardStateMachine, apply}
use raftvec.Node.StateMachine.Replicas.{Replica}
use raftvec.Node.StateMachine.Durable.{Touched}
use raftvec.Aggregator.Grouping.{filter}
use raftvec.Aggregator.Retry.{Attempt, elapsed, delete_hint, search_hint}
use raftvec.Aggregator.Merge.{ranked}
use raftvec.Aggregator.Router.{ShardRouter}
use raftvec.Aggregator.Router.Queries.{search}
use raftvec.Cluster.Search as ClusterSearch
use raftvec.Cluster.Finds.{scored_from_scratch, IsUnanswered}
use raftvec.Aggregator.Router.Accepted.{together}
use raftvec.Cluster.ReadYourWrites.{Leads, read_your_writes}
use raftvec.Examples.Fixtures.{
  nat_float, halves, pear, fruit_store, nat_log_ids, latest_membership, as_is,
}
use raftvec.Examples.OfStore.{fruit-IsValid}
use raftvec.Examples.OfRouter.{router, router-IsValid}
use raftvec.Examples.OfCluster.{
  leader, via, via_ok, no_addr, ask_insert, serves_insert, pear_inserted,
}
use raftvec.Node.StateMachine.Apply.{apply-IsValid}
use raftvec.Cluster.Misses.{Other}
use raftvec.Cluster.ReadYourDeletes.{read_your_deletes}
use raftvec.Node.Store.Contents.{contents}
use raftvec.Examples.OfDurable.{
  start, log, applied, has_applied, commits, upserts, deletes, ask_delete, serves_delete,
  one_deleted, fruit_dim,
}

abbrev pub query : SearchRequest ℕ
query = record { collection = "fruit"; query_vector = 1 ∷ 1 ∷ []; k = 1 }

-- The first shard's leader answers, the second's is not reached.
abbrev ask_search : SearchRequest ℕ → ℕ → ℕ → Attempt (SearchResponse ℕ)
ask_search req round zero =
    via (Service.search leader 1 (applied upserts 0).store (λ id. fruit_store) true req)
ask_search req round (suc c) = elapsed

serves_first :
    ClusterSearch.Serves ask_search
      (λ i. (applied upserts i).store)
      query
      0
      (record { clients = 0 ∷ []; addrs = "a" ∷ []; leader_hint = 0 })
serves_first j round zero resp found asked =
    (halves, leader, 1, (λ id. fruit_store), no_addr, via_ok _ resp asked)
serves_first j round (suc c) resp found asked = absurd (cc)

serves_second :
    ClusterSearch.Serves ask_search
      (λ i. (applied upserts i).store)
      query
      1
      (record { clients = 1 ∷ []; addrs = "b" ∷ []; leader_hint = 0 })
serves_second zero round zero resp found asked = absurd (ground arith)
serves_second (suc j) round zero resp found asked = absurd (cc)
serves_second j round (suc c) resp found asked = absurd (cc)

leads : Leads as_is (λ s. start) (applied upserts) (log upserts)
leads = record { valid = λ i. fruit-IsValid; caught_up = has_applied upserts }

read_your_writes_example :
    (e : Entry ℕ ℕ (List ℕ)) × (get_elem? (log upserts 0) 0 ≡ some e)
    × (e.payload
        ≡ normal (
            upsert "fruit"
              (together (λ id. id) (λ (r : VectorRecord ℕ). r.id) router (pear ∷ []) pear)))
    × (Touched "fruit" 2 (log upserts 0) 1 1
        ⊎ ((reader' : ShardRouter ℕ) × (results : List (ScoredRecord ℕ)) × (failed : ℕ) × (search
                String ask_search
                (λ deadline i. 4)
                router
                "fruit"
                (1 ∷ 1 ∷ [])
                1
              ≡ some (reader', results, 2, failed))
            × (Ranked 1 (scored_from_scratch (1 ∷ 1 ∷ []) 2 pear) (map ranked results)
                ⊎ (IsUnanswered ask_search query String (λ i. 4) router.shards 0 × (0 < failed)))))
read_your_writes_example =
    read_your_writes as_is (λ round c. leader) (λ s. start) (applied upserts) (log upserts) String
      (λ id. id) ask_insert ask_search (λ deadline i. 4) router router router (pear ∷ []) 1 2 2 pear
      query router-IsValid router-IsValid refl serves_insert (serves_first, (serves_second, tt))
      (commits upserts) leads fruit_dim (omega arith) refl refl pear_inserted

-- The store of the first shard has never held the record 1.
abbrev starts : ℕ → ShardStateMachine ℕ ℕ (List ℕ)
starts zero = applied deletes 1
starts (suc i) = start

abbrev after : ℕ → ShardStateMachine ℕ ℕ (List ℕ)
after i = (apply (starts i) (log deletes i)).0

has_deleted : Leads as_is starts after (log deletes)
has_deleted = record {
  valid = valid;
  caught_up = λ i. Replica.applied (log deletes i) [] Replica.begin refl refl refl;
}
  where
    valid : (i : ℕ) → IsValid (starts i).store
    valid zero = apply-IsValid start (log deletes 1) fruit-IsValid
    valid (suc i) = fruit-IsValid

abbrev ask_after : SearchRequest ℕ → ℕ → ℕ → Attempt (SearchResponse ℕ)
ask_after req round zero = elapsed
ask_after req round (suc c) =
    via (Service.search leader 1 (after 1).store (λ id. fruit_store) true req)

serves_after : ClusterSearch.ServesEach ask_after (λ i. (after i).store) query 0 router.shards
serves_after = (first, (second, tt))
  where
    first :
        ClusterSearch.Serves ask_after
          (λ i. (after i).store)
          query
          0
          (record { clients = 0 ∷ []; addrs = "a" ∷ []; leader_hint = 0 })
    first j round zero resp found asked = absurd (ground arith)
    first zero round (suc c) resp found asked = absurd (cc)
    first (suc j) round (suc c) resp found asked = absurd (cc)

    second :
        ClusterSearch.Serves ask_after
          (λ i. (after i).store)
          query
          1
          (record { clients = 1 ∷ []; addrs = "b" ∷ []; leader_hint = 0 })
    second j round zero resp found asked = absurd (ground arith)
    second j round (suc c) resp found asked =
        (halves, leader, 1, (λ id. fruit_store), no_addr, via_ok _ resp asked)

never_there : contents (after 0).store "fruit" 1 ≡ none
unfolding apply filter
never_there = refl

elsewhere : (i : ℕ) → i < 2 → i ≢ 1 → contents (after i).store "fruit" 1 ≡ none
elsewhere zero lt away = never_there
elsewhere (suc zero) lt away = absurd (away refl)
elsewhere (suc (suc i)) lt away = absurd (omega (arith, lt))

read_your_deletes_example :
    (e : Entry ℕ ℕ (List ℕ)) × (get_elem? (log deletes 1) 0 ≡ some e)
    × (e.payload ≡ normal (delete "fruit" (together (λ id. id) (λ id. id) router (1 ∷ []) 1)))
    × (Touched "fruit" 1 (log deletes 1) 1 1
        ⊎ ((reader' : ShardRouter ℕ) × (results : List (ScoredRecord ℕ)) × (failed : ℕ) × (search
                String ask_after
                (λ deadline i. 4)
                router
                "fruit"
                (1 ∷ 1 ∷ [])
                1
              ≡ some (reader', results, 2, failed))
            × All (Other 1) (map ranked results)))
read_your_deletes_example =
    read_your_deletes as_is (λ round c. leader) starts after (log deletes) String (λ id. id)
      ask_delete ask_after (λ deadline i. 4) router router router (1 ∷ []) 1 0 1 query
      router-IsValid router-IsValid serves_delete serves_after (commits deletes) has_deleted
      elsewhere (omega arith) refl one_deleted
