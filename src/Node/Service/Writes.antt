-- ===== src/Node/Service/Writes.antt =====
-- The answers of `NodeService::insert` and `delete`, against the command that openraft commits.
use raftvec.Base.{
  ◌+◌, ◌%◌, ◌<◌, ◌≡◌, ◌⊎◌, inl, inr, refl, none, some, List, String, ok, err, length, arith,
  Result-cases, map, ◌>>=◌, string_eq, [], ◌∷◌, ap,
}
use native.Mathlib.Nat.{mod-eq_of_lt}
use raftvec.HashMap
use raftvec.Core.Float.{Float}
use raftvec.Core.Record
use raftvec.Core.Record.{VectorRecord}
use raftvec.Core.Sharding.{u32_mod}
use raftvec.Node.Raft.{ShardCommand, ShardCommandResponse}
use raftvec.Node.Store
use raftvec.Node.Store.{Store}
use raftvec.Node.Store.Valid.{IsValid}
use raftvec.Node.Store.Contents.{delete_ok}
use raftvec.Node.StateMachine.{run_command}
use raftvec.Node.Service.{
  Raft, WriteError, forward_to_leader, other, write_error_to_hint, insert, delete,
}
use raftvec.Proto.{InsertRequest, InsertResponse, DeleteRequest, DeleteResponse}

forwarded :
    {A : Type 0} (e : WriteError) (answer : String → A) (a : A)
    → (do hint ← write_error_to_hint e; ok (answer hint)) ≡ ok a
    → (hint : String) × (e ≡ forward_to_leader (some hint)) × (answer hint ≡ a)
unfolding write_error_to_hint
forwarded (forward_to_leader (some addr)) answer a h = (addr, refl, ground arith)
forwarded (forward_to_leader none) answer a h = absurd (cc)
forwarded other answer a h = absurd (cc)

module _ {F : Type 0} where
  pub rebuilt :
      (rs : List (VectorRecord F)) → map (λ r. Record.new r.id r.embedding r.metadata) rs ≡ rs
  unfolding Record.new
  rebuilt [] = refl
  rebuilt (r ∷ rs) = ap (◌∷◌ r) (rebuilt rs)

  -- A successful answer to an insert is one of two: openraft has committed the whole batch as one
  -- command, and the answer counts the batch and has no hint; or openraft has named the leader's
  -- address, and the answer hands it on and counts nothing.
  pub insert_answer :
      (raft : Raft F) (req : InsertRequest F) (resp : InsertResponse)
      → insert raft req ≡ ok resp
      → ((r : ShardCommandResponse) × (raft.client_write
              (ShardCommand.upsert req.collection req.records)
            ≡ ok r)
          × (resp ≡ record { inserted = length req.records % u32_mod; leader_hint = "" }))
        ⊎ ((raft.client_write (ShardCommand.upsert req.collection req.records)
              ≡ err (forward_to_leader (some resp.leader_hint)))
            × (resp.inserted ≡ 0))
  unfolding insert
  insert_answer raft req resp h =
      elim (Result-cases (raft.client_write (ShardCommand.upsert req.collection req.records))) [
        | inl (r, e) ↦ inl (r, e, ground (arith, rebuilt req.records))
        | inr (w, e) ↦
            let (hint, forward, answer) =
              forwarded w (λ hint. record { inserted = 0; leader_hint = hint }) resp
                (rw (rebuilt req.records, e, insert) at h) in
            inr (ground arith, ground arith)
      ]

  -- A successful answer to a delete is one of two: openraft has committed all the ids as one
  -- command, and the answer counts the ids of the request and has no hint; or openraft has named
  -- the leader's address, and the answer hands it on and counts nothing.
  pub delete_answer :
      (raft : Raft F) (req : DeleteRequest) (resp : DeleteResponse)
      → delete raft req ≡ ok resp
      → ((r : ShardCommandResponse) × (raft.client_write
              (ShardCommand.delete req.collection req.ids)
            ≡ ok r)
          × (resp ≡ record { deleted = length req.ids % u32_mod; leader_hint = "" }))
        ⊎ ((raft.client_write (ShardCommand.delete req.collection req.ids)
              ≡ err (forward_to_leader (some resp.leader_hint)))
            × (resp.deleted ≡ 0))
  unfolding delete
  delete_answer raft req resp h =
      elim (Result-cases (raft.client_write (ShardCommand.delete req.collection req.ids))) [
        | inl (r, e) ↦ inl (r, e, ground arith)
        | inr (w, e) ↦
            let (hint, forward, answer) =
              forwarded w (λ hint. record { deleted = 0; leader_hint = hint }) resp
                (rw (e, delete) at h) in
            inr (ground arith, ground arith)
      ]

module _ {F : Type 0} ⦃fl : Float F⦄ where
  -- The answer to an insert counts records that the state machine has rejected: where the command
  -- is committed and applied to a store without the collection, the store stays as it is and the
  -- applied count is 0, and the answer still counts the whole batch.
  pub insert_counts_rejected :
      (raft : Raft F) (req : InsertRequest F) (s : Store F)
      → HashMap.get s.collections req.collection ≡ none
      → (let cmd = ShardCommand.upsert req.collection req.records in
          raft.client_write cmd ≡ ok (record { applied_count = (run_command s cmd).1 }))
      → (run_command s (ShardCommand.upsert req.collection req.records) ≡ (s, 0))
        × (insert raft req
            ≡ ok (record { inserted = length req.records % u32_mod; leader_hint = "" }))
  unfolding insert run_command Store.insert
  insert_counts_rejected raft req s missing committed =
      (ground arith, ground (arith, rebuilt req.records))

  -- The answer to a delete may count more than has been removed: where the ids of the request,
  -- fewer than 2 ^ 32, outnumber the records of the collection, and the command is committed and
  -- applied to a valid store. The applied count is the number of records by which the collection
  -- has shrunk, and the answer counts more.
  pub delete_overcounts :
      (raft : Raft F) (req : DeleteRequest) (s : Store F) (c : Store.Collection F)
      → IsValid s
      → HashMap.get s.collections req.collection ≡ some c
      → length c.vectors < length req.ids
      → length req.ids < u32_mod
      → (let cmd = ShardCommand.delete req.collection req.ids in
          raft.client_write cmd ≡ ok (record { applied_count = (run_command s cmd).1 }))
      → (let applied = run_command s (ShardCommand.delete req.collection req.ids) in
          (d : Store.Collection F) × (resp : DeleteResponse) × (HashMap.get applied.0.collections
              req.collection
            ≡ some d)
          × (length d.vectors + applied.1 ≡ length c.vectors)
          × (delete raft req ≡ ok resp)
          × (applied.1 < resp.deleted))
  unfolding delete run_command
  delete_overcounts raft req s c v found fewer fits committed =
      elim (Result-cases (Store.delete s req.collection req.ids).1) [
        | inl (n, e) ↦
            let (c', d, found', left, size, _) =
              delete_ok s req.collection req.collection req.ids n 0 v e in
            let count : length req.ids % u32_mod ≡ length req.ids = mod-eq_of_lt fits in
            let same : length c'.vectors ≡ length c.vectors = ground arith in
            let few : n < length req.ids = omega (arith, size, same, fewer) in
            let cast : n % u32_mod ≡ n = mod-eq_of_lt (omega (arith, few, fits)) in
            (
              d,
              record { deleted = length req.ids % u32_mod; leader_hint = "" },
              ground (arith, left),
              ground (arith, cast, size, same),
              ground arith,
              ground (arith, count, few, cast),
            )
        | inr (e, f) ↦ absurd (unfold Store.delete in ground arith)
      ]
