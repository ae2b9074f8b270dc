-- ===== src/Cluster/Acknowledged.antt =====
-- Inserts and deletes of crates/raftvec-aggregator/src/router.rs, and what the replicas have
-- committed by `NodeService` of crates/raftvec-node/src/service.rs.
use raftvec.Base.{
  ℕ, ◌%◌, ◌≡◌, ◌<◌, ◌≢◌, ◌⊎◌, ◌∙◌, ap, some, inl, inr, List, String, Result, ok, err, length,
  get_elem?, nat_eq,
}
use raftvec.Core.Record.{VectorRecord}
use raftvec.Proto.{Status, InsertRequest, InsertResponse, DeleteRequest, DeleteResponse}
use raftvec.Node.Raft.{ShardCommand, ShardCommandResponse, upsert, delete}
use raftvec.Node.Service
use raftvec.Node.Service.{Raft, forward_to_leader}
use raftvec.Node.Service.Writes.{insert_answer, delete_answer}
use raftvec.Aggregator.Retry.{
  CarriesLeaderHint, ShardReplicaSet, Attempt, response, insert_hint, delete_hint,
}
use raftvec.Aggregator.Router
use raftvec.Aggregator.Router.{ShardRouter, write}
use raftvec.Aggregator.Router.Totals.{IsValid}
use raftvec.Aggregator.Router.Counts.{write_counts_all}
use native.Mathlib.Nat.{mod-eq_of_lt}
use raftvec.Core.Sharding.{u32_mod}
use raftvec.Aggregator.Router.Accepted.{together, write-Accepted}

module _ {C F Req Resp : Type 0} (serve : Raft F → Req → Result Status Resp)
    (ask : Req → ℕ → C → Attempt Resp) (raft : ℕ → C → Raft F) where
  -- A response of a replica is that of its service, over what openraft answers it in that round;
  -- no address is empty.
  pub record Serves : Type 0 where
    pub served :
        (req : Req) (round : ℕ) (c : C) (resp : Resp)
        → ask req round c ≡ response resp
        → serve (raft round c) req ≡ ok resp
    pub named :
        (cmd : ShardCommand F) (round : ℕ) (c : C)
        → (raft round c).client_write cmd ≢ err (forward_to_leader (some ""))

module _ {C F : Type 0} (raft : ℕ → C → Raft F) where
  -- One of the replicas has had openraft commit the command.
  abbrev pub Committed : ShardReplicaSet C → ShardCommand F → Type 0
  Committed shard cmd =
      (round : ℕ) × (i : ℕ) × (c : C) × (r : ShardCommandResponse) × (get_elem? shard.clients i
        ≡ some c)
      × ((raft round c).client_write cmd ≡ ok r)

  module _ {Req Resp Item : Type 0} ⦃ch : CarriesLeaderHint Resp⦄ (E : Type 0) (fxhash : ℕ → ℕ)
      (key : Item → ℕ) (count : Resp → ℕ) (serve : Raft F → Req → Result Status Resp)
      (ask : Req → ℕ → C → Attempt Resp) (request : List Item → Req)
      (command : List Item → ShardCommand F) where
    -- A successful answer to a group has its command committed and counts it, or hands on the
    -- address of a leader.
    abbrev Answers : Type 0
    Answers =
        (node : Raft F) (group : List Item) (resp : Resp)
        → serve node (request group) ≡ ok resp
        → ((r : ShardCommandResponse) × (node.client_write (command group) ≡ ok r)
            × (count resp ≡ length group % u32_mod))
          ⊎ (node.client_write (command group)
              ≡ err (forward_to_leader (some (ch.leader_hint resp))))

    -- A response that names no other leader: the group is committed, and counted.
    answer_committed :
        (group : List Item) (round : ℕ) (c : C) (resp : Resp)
        → Answers
        → Serves serve ask raft
        → ask (request group) round c ≡ response resp
        → ch.leader_hint resp ≡ ""
        → ((r : ShardCommandResponse) × ((raft round c).client_write (command group) ≡ ok r))
          × (count resp ≡ length group % u32_mod)
    answer_committed group round c resp answers s sent final =
        elim (answers (raft round c) group resp (s.served (request group) round c resp sent)) [
          | inl (r, committed, counted) ↦ ((r, committed), counted)
          | inr forward ↦
              absurd
                (s.named _ round c (forward ∙ ap (λ x. err (forward_to_leader (some x))) final))
        ]

    -- A write of fewer than 2 ^ 32 items that succeeds.
    write_acknowledged :
        (router router' : ShardRouter C) (items : List Item) (n j : ℕ) (item : Item)
        → Answers
        → Serves serve ask raft
        → IsValid router
        → length items < u32_mod
        → write {E = E} fxhash key count (λ group. ask (request group)) router items
          ≡ some (router', ok n)
        → get_elem? items j ≡ some item
        → (let group = together fxhash key router items item in
            (n ≡ length items)
            × (shard : ShardReplicaSet C) × (get_elem? router.shards
                  (fxhash (key item) % length router.shards)
                ≡ some shard)
            × ((k : ℕ) × (get_elem? group k ≡ some item))
            × Committed shard (command group))
    write_acknowledged router router' items n j item answers s v small h at =
        let send : List Item → ℕ → C → Attempt Resp = λ group. ask (request group) in
        let total =
          write_counts_all E fxhash key count send router items router' n
            (λ group round c resp sent final fits.
              (answer_committed group round c resp answers s sent final).1 ∙ mod-eq_of_lt fits)
            v small h in
        let (shard, found, member, (resp, round, i, c, client, sent, final)) =
          write-Accepted E fxhash key count send router router' items n j item v h at in
        let (r, committed) = (answer_committed _ round c resp answers s sent final).0 in
        (total, shard, found, member, (round, i, c, r, client, committed))

module _ {C F : Type 0} (E : Type 0) (fxhash : ℕ → ℕ) (raft : ℕ → C → Raft F) where
  -- An insert of fewer than 2 ^ 32 records through a well-formed router that succeeds, where every
  -- response is that of a node's service and no leader's address is empty: the number it reports is
  -- the number of the records; and for each record, some replica of the shard that its id hashes to
  -- has had openraft commit one upsert of all the records of the insert that go to that shard, the
  -- record among them.
  pub insert_acknowledged :
      (ask : InsertRequest F → ℕ → C → Attempt InsertResponse) (router router' : ShardRouter C)
      (collection : String) (records : List (VectorRecord F)) (n j : ℕ) (rec : VectorRecord F)
      → IsValid router
      → Serves Service.insert ask raft
      → length records < u32_mod
      → Router.insert {E = E} fxhash ask router collection records ≡ some (router', ok n)
      → get_elem? records j ≡ some rec
      → (let group = together fxhash (λ r. r.id) router records rec in
          (n ≡ length records)
          × (shard : ShardReplicaSet C) × (get_elem? router.shards
                (fxhash rec.id % length router.shards)
              ≡ some shard)
          × ((k : ℕ) × (get_elem? group k ≡ some rec))
          × Committed raft shard (upsert collection group))
  unfolding Router.insert
  insert_acknowledged ask router router' collection records n j rec v s small h at =
      write_acknowledged raft E fxhash (λ r. r.id) (λ r. r.inserted) Service.insert ask
        (λ group. record { collection = collection; records = group }) (upsert collection) router
        router' records n j rec
        (λ node group resp sent.
          elim (insert_answer node (record { collection = collection; records = group }) resp
            sent) [
              | inl (r, committed, counted) ↦ inl (r, committed, ap (λ x. x.inserted) counted)
              | inr (forward, _) ↦ inr forward
            ])
        s v small h at

  -- A delete of fewer than 2 ^ 32 ids through a well-formed router that succeeds, where every
  -- response is that of a node's service and no leader's address is empty: the number it reports is
  -- the number of the ids; and for each id, some replica of the shard that it hashes to has had
  -- openraft commit one delete of all the ids that go to that shard, the id among them.
  pub delete_acknowledged :
      (ask : DeleteRequest → ℕ → C → Attempt DeleteResponse) (router router' : ShardRouter C)
      (collection : String) (ids : List ℕ) (n j id : ℕ)
      → IsValid router
      → Serves Service.delete ask raft
      → length ids < u32_mod
      → Router.delete {E = E} fxhash ask router collection ids ≡ some (router', ok n)
      → get_elem? ids j ≡ some id
      → (let group = together fxhash (λ id. id) router ids id in
          (n ≡ length ids)
          × (shard : ShardReplicaSet C) × (get_elem? router.shards
                (fxhash id % length router.shards)
              ≡ some shard)
          × ((k : ℕ) × (get_elem? group k ≡ some id))
          × Committed raft shard (delete collection group))
  unfolding Router.delete
  delete_acknowledged ask router router' collection ids n j id v s small h at =
      write_acknowledged raft E fxhash (λ id. id) (λ r. r.deleted) Service.delete ask
        (λ group. record { collection = collection; ids = group }) (delete collection) router
        router' ids n j id
        (λ node group resp sent.
          elim (delete_answer node (record { collection = collection; ids = group }) resp sent) [
            | inl (r, committed, counted) ↦ inl (r, committed, ap (λ x. x.deleted) counted)
            | inr (forward, _) ↦ inr forward
          ])
        s v small h at
