-- ===== src/Cluster/ReadYourWrites.antt =====
-- A search through crates/raftvec-aggregator/src/router.rs after an acknowledged insert: the leaders of
-- the shards have applied the logs of their shards.
use raftvec.Base.{
  ℕ, suc, ◌%◌, ◌≡◌, ◌<◌, sym, arith, subst, some, List, ◌⊎◌, inl, inr, ok, length, map, true, take,
  get_elem?,
}
use native.Mathlib.Nat.{mod-lt}
use raftvec.Order.Found.{Ranked, In-lt}
use raftvec.Core.Float.{Float}
use raftvec.Core.Record.{VectorRecord, scored_id_ord}
use raftvec.Core.Sharding.{u32_mod}
use raftvec.Proto.{InsertRequest, InsertResponse, SearchRequest, SearchResponse, ScoredRecord}
use raftvec.Node.Raft.{LogIds, Memberships, upsert, normal, Entry, Bincode}
use raftvec.Node.Service
use raftvec.Node.Service.{Raft}
use raftvec.Node.Store.{StoreSnapshot}
use raftvec.Node.Store.Valid as Store
use raftvec.Node.Store.Contents.{last_with}
use raftvec.Node.StateMachine.{ShardStateMachine}
use raftvec.Node.StateMachine.Apply.{apply-IsValid}
use raftvec.Node.StateMachine.View.{view, all_fit}
use raftvec.Node.StateMachine.Replicas.{Replica, Replica-state}
use raftvec.Node.StateMachine.Durable.{Touched}
use raftvec.Aggregator.Grouping.{filter, belongs}
use raftvec.Aggregator.Retry.{Attempt}
use raftvec.Aggregator.Merge.{ranked}
use raftvec.Aggregator.Router
use raftvec.Aggregator.Router.{ShardRouter}
use raftvec.Aggregator.Router.Queries.{search}
use raftvec.Aggregator.Router.Totals.{IsValid}
use raftvec.Aggregator.Router.Accepted.{together}
use raftvec.Cluster.Acknowledged.{Serves}
use raftvec.Cluster.Search.{ServesEach}
use raftvec.Cluster.Shows.{Commits, insert_shows}
use raftvec.Cluster.Finds.{scored_from_scratch, IsUnanswered, search_finds}

module _ {F L M S B E : Type 0} ⦃fl : Float F⦄ ⦃li : LogIds L⦄ ⦃ms : Memberships L M S⦄
    (bc : Bincode (StoreSnapshot F) B E) (starts leaders : ℕ → ShardStateMachine F L S)
    (logs : ℕ → List (Entry F L M)) where
  -- The leader of each shard has come to the end of the log of the shard.
  pub record Leads : Type 0 where
    pub valid : (i : ℕ) → Store.IsValid (starts i).store
    pub caught_up : (i : ℕ) → Replica bc (starts i) (logs i) (length (logs i)) (leaders i)

  pub leader-IsValid : Leads → (i : ℕ) → Store.IsValid (leaders i).store
  leader-IsValid l i =
      subst (λ (t : ShardStateMachine F L S). Store.IsValid t.store)
        (sym (Replica-state bc (starts i) (logs i) (l.valid i) (l.caught_up i)))
        (apply-IsValid (starts i) (take (length (logs i)) (logs i)) (l.valid i))

module _ {C F L M S B E : Type 0} ⦃fl : Float F⦄ ⦃li : LogIds L⦄ ⦃ms : Memberships L M S⦄
    (bc : Bincode (StoreSnapshot F) B E) (raft : ℕ → C → Raft F)
    (starts leaders : ℕ → ShardStateMachine F L S) (logs : ℕ → List (Entry F L M)) where
  -- An insert of fewer than 2 ^ 32 records through a well-formed router that succeeds, and then a
  -- search of the same collection through a well-formed router of as many shards; where every
  -- response is that of a node's service, no leader's address is empty, what openraft acknowledges
  -- is in the log of its shard at a known index, and all records have the dimension of the
  -- collection. Each leader has started with a valid store, that of the id's shard with the
  -- collection, and has come to the end of the log of its shard, and since it started has only
  -- applied entries and installed snapshots of replicas like itself, each read with no write in
  -- between. Then the log of the id's shard has, at the index that openraft has acknowledged, the
  -- records of the insert that belong to the shard; and an entry after this index touches the
  -- record, or the search ends and the last record of the insert with the id is in the results,
  -- with the score that is computed from scratch, or the results are `k` records that it does not
  -- outrank, or the call to the shard ends with an error and is counted among the failed ones.
  pub read_your_writes :
      (E' : Type 0) (fxhash : ℕ → ℕ) (ask : InsertRequest F → ℕ → C → Attempt InsertResponse)
      (ask_search : SearchRequest F → ℕ → C → Attempt (SearchResponse F))
      (allowed : (deadline : ℕ) → ℕ → ℕ) (router router' reader : ShardRouter C)
      (records : List (VectorRecord F)) (n dim id : ℕ) (rec : VectorRecord F)
      (query : SearchRequest F)
      → IsValid router
      → IsValid reader
      → length reader.shards ≡ length router.shards
      → Serves Service.insert ask raft
      → ServesEach ask_search (λ i. (leaders i).store) query 0 reader.shards
      → (openraft : Commits raft logs router (λ s. upsert query.collection (
          filter (belongs fxhash (λ (r : VectorRecord F). r.id) (length router.shards) s) records)))
      → Leads bc starts leaders logs
      → (view (starts (fxhash rec.id % length router.shards)).store).dims query.collection
        ≡ some dim
      → length records < u32_mod
      → all_fit dim records ≡ true
      → last_with id records ≡ some rec
      → Router.insert {E = E'} fxhash ask router query.collection records ≡ some (router', ok n)
      → (let s = fxhash rec.id % length router.shards in
          (e : Entry F L M) × (get_elem? (logs s) (openraft.position s) ≡ some e)
          × (e.payload
              ≡ normal (upsert query.collection (together fxhash (λ r. r.id) router records rec)))
          × (Touched query.collection id (logs s) (suc (openraft.position s)) (length (logs s))
              ⊎ ((reader' : ShardRouter C) × (results : List (ScoredRecord F)) × (failed : ℕ)
                  × (search E' ask_search allowed reader query.collection query.query_vector query.k
                      ≡ some (reader', results, length reader.shards, failed))
                  × (Ranked query.k
                        (scored_from_scratch query.query_vector id rec)
                        (map ranked results)
                      ⊎ (IsUnanswered ask_search query E' (allowed reader.deadline) reader.shards s
                          × (0 < failed))))))
  read_your_writes E' fxhash ask ask_search allowed router router' reader records n dim id rec query
        v w same serves answers openraft leads known small fit last h =
      let len = length router.shards in
      let s = fxhash rec.id % len in
      let (e, at, sent, shows) =
        insert_shows bc raft starts logs E' fxhash ask router router' query.collection records n dim
          id rec v serves openraft (leads.valid s, known, leads.caught_up s) small fit last h in
      let lt = In-lt (openraft.position s) e (logs s) at in
      (
        e,
        at,
        sent,
        elim shows [
          | inl before ↦ absurd (omega (arith, lt, before))
          | inr (inl t) ↦ inl t
          | inr (inr shown) ↦
              let there : s < length reader.shards =
                omega (arith, same, mod-lt (fxhash rec.id) v.some_shard) in
              inr (
                search_finds ask_search (λ i. (leaders i).store) query E'
                  (leader-IsValid bc starts leaders logs leads) allowed reader s id rec w answers
                  there shown)
        ],
      )
