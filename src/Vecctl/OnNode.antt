-- ===== src/Vecctl/OnNode.antt =====
-- crates/vecctl/src/main.rs against one node: the client's inserts are answered by
-- `NodeService::insert` of crates/raftvec-node/src/service.rs.
use raftvec.Base.{
  ℕ, ◌%◌, ◌≡◌, refl, ◌∙◌, ap, arith, Option, some, List, [], ◌∷◌, ◌++◌, String, ok, err, length,
  Option-cases, inl, inr, true, ◌&&◌, nat_eq, string_eq,
}
use native.Mathlib.Nat.{mod-eq_of_lt}
use raftvec.Core.Float.{Float}
use raftvec.Core.Record.{VectorRecord}
use raftvec.Core.Sharding.{u32_mod}
use raftvec.Proto.{InsertRequest}
use raftvec.Node.Service
use raftvec.Node.Service.{Raft, forward_to_leader}
use raftvec.Node.Service.Writes.{rebuilt}
use raftvec.Node.Store.{Store}
use raftvec.Node.Raft.{ShardCommand, upsert}
use raftvec.Node.StateMachine.{run_command}
use raftvec.Node.StateMachine.View.{View, view, meant, accepts, all_fit, view-ext, view-insert}
use raftvec.Node.Store.Contents.{last_with, or_else}
use raftvec.Vecctl.Chunks.{chunks, concat}
use raftvec.Vecctl.Query.{Host}
use raftvec.Vecctl
use raftvec.Vecctl.{Client, Cmd, Printed, batch_size, insert_records, insert_chunks}
use raftvec.Vecctl.Batching.{received, CountsEach, run_inserts-All}

module _ {F : Type 0} where
  last_with-append :
      (id : ℕ) (xs ys : List (VectorRecord F))
      → last_with id (xs ++ ys) ≡ or_else (last_with id ys) (last_with id xs)
  last_with-append id [] ys = ground arith
  last_with-append id (x ∷ xs) ys = ground (arith, last_with-append id xs ys)

  all_fit-append :
      (dim : ℕ) (xs ys : List (VectorRecord F))
      → all_fit dim (xs ++ ys) ≡ (all_fit dim xs && all_fit dim ys)
  all_fit-append dim [] ys = refl
  all_fit-append dim (x ∷ xs) ys = ground (arith, all_fit-append dim xs ys)

  accepts_both :
      (v : View F) (name : String) (xs ys : List (VectorRecord F))
      → accepts v name (xs ++ ys) ≡ true
      → (accepts v name xs ≡ true) × (accepts v name ys ≡ true)
  accepts_both v name xs ys h = elim (Option-cases (v.dims name)) [
    | inl e ↦ absurd (ground arith)
    | inr (dim, e) ↦
        (ground (arith, all_fit-append dim xs ys), ground (arith, all_fit-append dim xs ys))
  ]

  -- Two batches that are accepted together are one batch.
  meant-append :
      (v : View F) (name : String) (xs ys : List (VectorRecord F))
      → accepts v name (xs ++ ys) ≡ true
      → meant (meant v (upsert name xs)) (upsert name ys) ≡ meant v (upsert name (xs ++ ys))
  meant-append v name xs ys h =
      let (first, second) = accepts_both v name xs ys h in
      view-ext _ _ (λ other. refl)
        (λ other id. ground (arith, first, second, h, last_with-append id xs ys))

module _ {F : Type 0} ⦃fl : Float F⦄ (raft : Store F → Raft F) (client : Client F (Store F)) where
  -- A node that leads and whose commands are committed and applied before they are answered.
  pub record Leads : Type 0 where
    pub committed :
        (s : Store F) (c : ShardCommand F)
        → (raft s).client_write c ≡ ok (record { applied_count = (run_command s c).1 })
    pub served :
        (s : Store F) (req : InsertRequest F)
        → client.insert s req
          ≡ ((run_command s (upsert req.collection req.records)).0, Service.insert (raft s) req)

  leader-CountsEach : (collection : String) → Leads → CountsEach client collection
  unfolding Service.insert
  leader-CountsEach collection l s records h =
      let req : InsertRequest F = record { collection = collection; records = records } in
      (
        record { inserted = length records % u32_mod; leader_hint = "" },
        ap (λ p. p.1) (l.served s req)
            ∙ ground (arith, l.committed s (upsert collection records), rebuilt records),
        mod-eq_of_lt (omega arith),
      )

  view-received :
      (collection : String) (bs : List (List (VectorRecord F))) (s : Store F)
      → Leads
      → accepts (view s) collection (concat bs) ≡ true
      → view (received client collection bs s) ≡ meant (view s) (upsert collection (concat bs))
  unfolding run_command
  view-received collection [] s l h = view-ext _ _ (λ other. refl) (λ other id. ground arith)
  view-received collection (b ∷ bs) s l h =
      let (first, second) = accepts_both (view s) collection b (concat bs) h in
      let req : InsertRequest F = record { collection = collection; records = b } in
      let step : view (client.insert s req).0 ≡ meant (view s) (upsert collection b) =
        ap (λ p. view p.0) (l.served s req) ∙ view-insert s collection b in
      view-received collection bs (client.insert s req).0 l
        (ap (λ w. accepts w collection (concat bs)) step ∙ second)
      ∙ ap (λ w. meant w (upsert collection (concat bs))) step
      ∙ meant-append (view s) collection b (concat bs) h

  -- An insert command of vecctl against a node that leads, and that commits and applies each
  -- command before it answers: where the records that are given all fit the collection, the batches
  -- lead to what one insert of all the records is meant to do, and the number printed as inserted
  -- is the number of the records as a `u32`.
  pub run_inserts_as_one :
      {B : Type 0} (host : Host F B) (collection : String) (file : Option String) (id : Option ℕ)
      (embedding : Option (List F)) (records : List (VectorRecord F)) (s : Store F)
      → Leads
      → insert_records host file id embedding ≡ ok records
      → accepts (view s) collection records ≡ true
      → (let (s', result) = Vecctl.run host client (Cmd.insert collection file id embedding) s in
          (view s' ≡ meant (view s) (upsert collection records))
          × (result
              ≡ ok (Printed.inserted (length records % u32_mod) (length records) collection ∷ [])))
  run_inserts_as_one host collection file id embedding records s l given fits =
      let (bs, all, small, answer) =
        run_inserts-All host client collection file id embedding records s given
          (leader-CountsEach collection l) in
      (
        ap (λ p. view p.0) answer
            ∙ view-received collection bs s l (ap (accepts (view s) collection) all ∙ fits)
            ∙ ap (λ rs. meant (view s) (upsert collection rs)) all,
        ap (λ p. p.1) answer,
      )

module _ {F S : Type 0} (client : Client F S) (raft : S → Raft F) where
  -- A node that does not lead, and knows who does.
  pub record Follows : Type 0 where
    pub forwards :
        (s : S) (c : ShardCommand F)
        → (addr : String) × ((raft s).client_write c ≡ err (forward_to_leader (some addr)))
    pub served :
        (s : S) (req : InsertRequest F) → client.insert s req ≡ (s, Service.insert (raft s) req)

  insert_on_follower :
      (s : S) (collection : String) (records : List (VectorRecord F))
      → Follows
      → (addr : String) × (client.insert s (record { collection = collection; records = records })
          ≡ (s, ok (record { inserted = 0; leader_hint = addr })))
  unfolding Service.insert Service.write_error_to_hint
  insert_on_follower s collection records f =
      let req : InsertRequest F = record { collection = collection; records = records } in
      let (addr, e) = f.forwards s (upsert collection records) in
      (addr, f.served s req ∙ ap (λ r. (s, r)) (ground (arith, e, rebuilt records)))

  insert_chunks_on_follower :
      (collection : String) (bs : List (List (VectorRecord F))) (s : S)
      → Follows
      → insert_chunks client collection bs 0 s ≡ (s, ok 0)
  unfolding insert_chunks
  insert_chunks_on_follower collection [] s f = refl
  insert_chunks_on_follower collection (b ∷ bs) s f =
      let (addr, e) = insert_on_follower s collection b f in
      rw (ap (λ p. p.1) e, insert_chunks)
        (rw (ap (λ p. p.0) e) (insert_chunks_on_follower collection bs s f))

  -- An insert command of vecctl against a node that does not lead and knows the address of the
  -- leader: the command succeeds, prints 0 records as inserted, and the node is as it was.
  pub run_insert_on_follower :
      {B : Type 0} (host : Host F B) (collection : String) (file : Option String) (id : Option ℕ)
      (embedding : Option (List F)) (records : List (VectorRecord F)) (s : S)
      → Follows
      → insert_records host file id embedding ≡ ok records
      → Vecctl.run host client (Cmd.insert collection file id embedding) s
        ≡ (s, ok (Printed.inserted 0 (length records) collection ∷ []))
  unfolding Vecctl.run
  run_insert_on_follower host collection file id embedding records s f given =
      rw (given, Vecctl.run)
        (rw (insert_chunks_on_follower collection (chunks batch_size records) s f) refl)
