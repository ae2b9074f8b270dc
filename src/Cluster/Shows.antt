-- ===== src/Cluster/Shows.antt =====
-- What the replicas show after inserts and deletes of crates/raftvec-aggregator/src/router.rs that have
-- been acknowledged. What openraft commits is in the log of its shard.
use raftvec.Base.{
  ℕ, suc, ◌%◌, ◌≡◌, ◌≤◌, ◌<◌, ap, ◌∙◌, arith, some, none, List, String, Option, true, ◌⊎◌, inl, inr,
  ok, length, get_elem?, nat_eq, string_eq,
}
use raftvec.Core.Float.{Float}
use raftvec.Core.Record.{VectorRecord}
use raftvec.Core.Sharding.{u32_mod}
use raftvec.Proto.{InsertRequest, InsertResponse, DeleteRequest, DeleteResponse}
use raftvec.Node.Raft.{LogIds, Memberships, ShardCommand, upsert, delete, normal, Entry, Bincode}
use raftvec.Node.Service
use raftvec.Node.Service.{Raft}
use raftvec.Node.Store.{StoreSnapshot}
use raftvec.Node.Store.Valid as Store
use raftvec.Node.Store.Contents.{contents, last_with}
use raftvec.Node.StateMachine.{ShardStateMachine}
use raftvec.Node.StateMachine.View.{View, view, meant, meant_payload, all_fit}
use raftvec.Node.StateMachine.Replicas.{Replica}
use raftvec.Node.StateMachine.Durable.{Touched, entry_shows}
use raftvec.Aggregator.Grouping.{filter, belongs}
use raftvec.Aggregator.Retry.{ShardReplicaSet, Attempt}
use raftvec.Aggregator.Router
use raftvec.Aggregator.Router.{ShardRouter}
use raftvec.Aggregator.Router.Totals.{IsValid}
use raftvec.Aggregator.Router.Accepted.{together}
use raftvec.Cluster.Acknowledged.{Serves, Committed, insert_acknowledged, delete_acknowledged}
use raftvec.Cluster.Leaves.{
  last_with-In, last_with-filter, all_fit-filter, upsert_leaves, delete_leaves,
}

module _ {C F L M : Type 0} (raft : ℕ → C → Raft F) (logs : ℕ → List (Entry F L M)) where
  -- `position s` is the log index at which openraft acknowledges the command that is sent to the
  -- shard `s`: if it acknowledges it to a replica of the shard, the log has the command there.
  pub record Commits (router : ShardRouter C) (sent : ℕ → ShardCommand F) : Type 0 where
    pub position : ℕ → ℕ
    pub logged :
        (s : ℕ) (shard : ShardReplicaSet C)
        → get_elem? router.shards s ≡ some shard
        → Committed raft shard (sent s)
        → (e : Entry F L M) × (get_elem? (logs s) (position s) ≡ some e)
          × (e.payload ≡ normal (sent s))

module _ {F L M S : Type 0} (log : List (Entry F L M)) where
  -- The log has the command at `pos`. A replica with `m` entries of the log behind it has not come to
  -- this entry, or has applied an entry after it that touches the record, or shows `leaves`.
  abbrev pub ShowsOf :
      ShardStateMachine F L S
      → (m pos : ℕ) → ShardCommand F
      → String
      → ℕ
      → Option (VectorRecord F)
      → Type 0
  ShowsOf sm m pos cmd name id leaves =
      (e : Entry F L M) × (get_elem? log pos ≡ some e)
      × (e.payload ≡ normal cmd)
      × ((m ≤ pos) ⊎ Touched name id log (suc pos) m ⊎ (contents sm.store name id ≡ leaves))

module _ {C F L M S B E : Type 0} ⦃fl : Float F⦄ ⦃li : LogIds L⦄ ⦃ms : Memberships L M S⦄
    (bc : Bincode (StoreSnapshot F) B E) (raft : ℕ → C → Raft F)
    (starts : ℕ → ShardStateMachine F L S) (logs : ℕ → List (Entry F L M)) where
  command_shows :
      {m : ℕ} {sm : ShardStateMachine F L S} (router : ShardRouter C) (s : ℕ)
      (shard : ShardReplicaSet C) (sent : ℕ → ShardCommand F) (name : String) (id : ℕ)
      (leaves : Option (VectorRecord F))
      → (openraft : Commits raft logs router sent) → Store.IsValid (starts s).store
      → Replica bc (starts s) (logs s) m sm
      → get_elem? router.shards s ≡ some shard
      → Committed raft shard (sent s)
      → ((w : View F)
          → w.dims ≡ (view (starts s).store).dims
          → (meant w (sent s)).records name id ≡ leaves)
      → ShowsOf (logs s) sm m (openraft.position s) (sent s) name id leaves
  command_shows router s shard sent name id leaves openraft v r found committed leaving =
      let (e, at, normal_cmd) = openraft.logged s shard found committed in
      let pos = openraft.position s in
      (
        e,
        at,
        normal_cmd,
        elim (entry_shows bc (starts s) (logs s) name id pos e v r at) [
          | inl before ↦ inl before
          | inr (inl t) ↦ inr (inl t)
          | inr (inr (w, dims, same)) ↦ inr (
              inr
                (same ∙ ap (λ p. (meant_payload w p).records name id) normal_cmd ∙ leaving w dims))
        ],
      )

  -- An insert of fewer than 2 ^ 32 records through a well-formed router that succeeds, where every
  -- response is that of a node's service, no leader's address is empty, what openraft acknowledges
  -- is in the log of its shard at a known index, and all records have the dimension of the
  -- collection. A replica of the shard that an id hashes to, which has started with a valid store
  -- that has the collection, and since then has only applied entries of the log and installed
  -- snapshots of other such replicas, each read with no write in between, has not come to the entry
  -- at this index, or has applied an entry after it that touches the record, or shows the last
  -- record of the insert with the id.
  pub insert_shows :
      {m : ℕ} {sm : ShardStateMachine F L S} (E : Type 0) (fxhash : ℕ → ℕ)
      (ask : InsertRequest F → ℕ → C → Attempt InsertResponse) (router router' : ShardRouter C)
      (collection : String) (records : List (VectorRecord F)) (n dim id : ℕ) (rec : VectorRecord F)
      → IsValid router
      → Serves Service.insert ask raft
      → (openraft : Commits raft logs router (λ s. upsert collection (
          filter (belongs fxhash (λ (r : VectorRecord F). r.id) (length router.shards) s) records)))
      → (let s = fxhash rec.id % length router.shards in
          Store.IsValid (starts s).store
          × ((view (starts s).store).dims collection ≡ some dim)
          × Replica bc (starts s) (logs s) m sm)
      → length records < u32_mod
      → all_fit dim records ≡ true
      → last_with id records ≡ some rec
      → Router.insert {E = E} fxhash ask router collection records ≡ some (router', ok n)
      → (let group = together fxhash (λ r. r.id) router records rec in
          ShowsOf
            (logs (fxhash rec.id % length router.shards))
            sm
            m
            (openraft.position (fxhash rec.id % length router.shards))
            (upsert collection group)
            collection
            id
            (some rec))
  insert_shows E fxhash ask router router' collection records n dim id rec v serves openraft
        (valid, known, r) small fit last h =
      let (j, at, named) = last_with-In id records rec last in
      let (_, shard, found, _, committed) =
        insert_acknowledged E fxhash raft ask router router' collection records n j rec v serves
          small h at in
      let len = length router.shards in
      let s = fxhash rec.id % len in
      let there = belongs fxhash (λ (r : VectorRecord F). r.id) len s in
      command_shows router s shard
        (λ s.
          upsert collection (filter (belongs fxhash (λ (r : VectorRecord F). r.id) len s) records))
        collection id (some rec) openraft valid r found committed
        (λ w dims.
          upsert_leaves w collection dim id (filter there records) rec
            (ap (λ d. d collection) dims ∙ known) (all_fit-filter there dim records fit)
            (last_with-filter there id records (λ q e. ground (arith, e, named)) ∙ last))

  -- A delete of fewer than 2 ^ 32 ids through a well-formed router that succeeds, where every
  -- response is that of a node's service, no leader's address is empty, and what openraft
  -- acknowledges is in the log of its shard at a known index. A replica of the shard that an id
  -- hashes to, which has started with a valid store, and since then has only applied entries of the
  -- log and installed snapshots of other such replicas, each read with no write in between, has not
  -- come to the entry at this index, or has applied an entry after it that touches the record, or
  -- shows no record with the id.
  pub delete_shows :
      {m : ℕ} {sm : ShardStateMachine F L S} (E : Type 0) (fxhash : ℕ → ℕ)
      (ask : DeleteRequest → ℕ → C → Attempt DeleteResponse) (router router' : ShardRouter C)
      (collection : String) (ids : List ℕ) (n j id : ℕ)
      → IsValid router
      → Serves Service.delete ask raft
      → (openraft : Commits raft logs router (λ s.
          delete collection (filter (belongs fxhash (λ id. id) (length router.shards) s) ids)))
      → (let s = fxhash id % length router.shards in
          Store.IsValid (starts s).store × Replica bc (starts s) (logs s) m sm)
      → length ids < u32_mod
      → get_elem? ids j ≡ some id
      → Router.delete {E = E} fxhash ask router collection ids ≡ some (router', ok n)
      → (let group = together fxhash (λ id. id) router ids id in
          ShowsOf
            (logs (fxhash id % length router.shards))
            sm
            m
            (openraft.position (fxhash id % length router.shards))
            (delete collection group)
            collection
            id
            none)
  delete_shows E fxhash ask router router' collection ids n j id v serves openraft (valid, r) small
        at h =
      let (_, shard, found, (k, member), committed) =
        delete_acknowledged E fxhash raft ask router router' collection ids n j id v serves small h
          at in
      let group = together fxhash (λ id. id) router ids id in
      command_shows router (fxhash id % length router.shards) shard
        (λ s. delete collection (filter (belongs fxhash (λ id. id) (length router.shards) s) ids))
        collection id none openraft valid r found committed
        (λ w dims. delete_leaves w collection group id k member)
