-- ===== src/Cluster/ReadYourDeletes.antt =====
-- A search through crates/raftvec-aggregator/src/router.rs after an acknowledged delete: the leaders of
-- the shards have applied the logs of their shards.
use raftvec.Base.{
  ℕ, suc, ◌%◌, ◌≡◌, ◌≢◌, ◌<◌, ap, ◌∙◌, arith, some, none, List, ◌⊎◌, inl, inr, ok, length, map,
  get_elem?, All, Bool-cases, nat_eq, ◌==◌,
}
use raftvec.Order.Found.{In-lt}
use raftvec.Core.Float.{Float}
use raftvec.Core.Sharding.{u32_mod}
use raftvec.Proto.{DeleteRequest, DeleteResponse, SearchRequest, SearchResponse, ScoredRecord}
use raftvec.Node.Raft.{LogIds, Memberships, delete, normal, Entry, Bincode}
use raftvec.Node.Service
use raftvec.Node.Service.{Raft}
use raftvec.Node.Store.{StoreSnapshot}
use raftvec.Node.Store.Contents.{contents}
use raftvec.Node.StateMachine.{ShardStateMachine}
use raftvec.Node.StateMachine.Durable.{Touched}
use raftvec.Aggregator.Grouping.{filter, belongs}
use raftvec.Aggregator.Retry.{Attempt}
use raftvec.Aggregator.Merge.{ranked}
use raftvec.Aggregator.Router
use raftvec.Aggregator.Router.{ShardRouter}
use raftvec.Aggregator.Router.Queries.{search}
use raftvec.Aggregator.Router.Totals.{IsValid}
use raftvec.Aggregator.Router.Accepted.{together}
use raftvec.Cluster.Acknowledged.{Serves}
use raftvec.Cluster.Search.{ServesEach}
use raftvec.Cluster.Shows.{Commits, delete_shows}
use raftvec.Cluster.Misses.{Other, search_misses}
use raftvec.Cluster.ReadYourWrites.{Leads, leader-IsValid}

module _ {C F L M S B E : Type 0} ⦃fl : Float F⦄ ⦃li : LogIds L⦄ ⦃ms : Memberships L M S⦄
    (bc : Bincode (StoreSnapshot F) B E) (raft : ℕ → C → Raft F)
    (starts leaders : ℕ → ShardStateMachine F L S) (logs : ℕ → List (Entry F L M)) where
  -- A delete of fewer than 2 ^ 32 ids through a well-formed router that succeeds, and then a search
  -- of the same collection through a well-formed router; where every response is that of a node's
  -- service, no leader's address is empty, and what openraft acknowledges is in the log of its
  -- shard at a known index. Each leader has started with a valid store and has come to the end of
  -- the log of its shard, and since it started has only applied entries and installed snapshots of
  -- replicas like itself, each read with no write in between; and the stores of the shards that the
  -- id does not hash to show no record with it. Then the log of the id's shard has, at the index
  -- that openraft has acknowledged, the ids of the delete that belong to the shard; and an entry
  -- after this index touches the record, or the search ends without a panic and none of its results
  -- has the id.
  pub read_your_deletes :
      (E' : Type 0) (fxhash : ℕ → ℕ) (ask : DeleteRequest → ℕ → C → Attempt DeleteResponse)
      (ask_search : SearchRequest F → ℕ → C → Attempt (SearchResponse F))
      (allowed : (deadline : ℕ) → ℕ → ℕ) (router router' reader : ShardRouter C) (ids : List ℕ)
      (n j id : ℕ) (query : SearchRequest F)
      → IsValid router
      → IsValid reader
      → Serves Service.delete ask raft
      → ServesEach ask_search (λ i. (leaders i).store) query 0 reader.shards
      → (openraft : Commits raft logs router (λ s.
          delete query.collection
            (filter (belongs fxhash (λ id. id) (length router.shards) s) ids)))
      → Leads bc starts leaders logs
      → ((i : ℕ)
          → i < length reader.shards
          → i ≢ fxhash id % length router.shards
          → contents (leaders i).store query.collection id ≡ none)
      → length ids < u32_mod
      → get_elem? ids j ≡ some id
      → Router.delete {E = E'} fxhash ask router query.collection ids ≡ some (router', ok n)
      → (let s = fxhash id % length router.shards in
          (e : Entry F L M) × (get_elem? (logs s) (openraft.position s) ≡ some e)
          × (e.payload
              ≡ normal (delete query.collection (together fxhash (λ id. id) router ids id)))
          × (Touched query.collection id (logs s) (suc (openraft.position s)) (length (logs s))
              ⊎ ((reader' : ShardRouter C) × (results : List (ScoredRecord F)) × (failed : ℕ)
                  × (search E' ask_search allowed reader query.collection query.query_vector query.k
                      ≡ some (reader', results, length reader.shards, failed))
                  × All (Other id) (map ranked results))))
  read_your_deletes E' fxhash ask ask_search allowed router router' reader ids n j id query v w
        serves answers openraft leads elsewhere small at h =
      let s = fxhash id % length router.shards in
      let (e, found, sent, shows) =
        delete_shows bc raft starts logs E' fxhash ask router router' query.collection ids n j id v
          serves openraft (leads.valid s, leads.caught_up s) small at h in
      let lt = In-lt (openraft.position s) e (logs s) found in
      (
        e,
        found,
        sent,
        elim shows [
          | inl before ↦ absurd (omega (arith, lt, before))
          | inr (inl t) ↦ inl t
          | inr (inr gone) ↦ inr (
              search_misses ask_search (λ i. (leaders i).store) query E'
                (leader-IsValid bc starts leaders logs leads) allowed reader id w answers
                (λ i lt. elim (Bool-cases (i == s)) [
                  | inl t ↦
                      let here : i ≡ s = ground arith in
                      ap (λ k. contents (leaders k).store query.collection id) here ∙ gone
                  | inr f ↦ elsewhere i lt (λ same. absurd (ground arith))
                ]))
        ],
      )
