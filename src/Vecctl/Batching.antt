-- ===== src/Vecctl/Batching.antt =====
-- The batches in which crates/vecctl/src/main.rs sends the records of a file.
use raftvec.Base.{
  ℕ, ◌+◌, ◌%◌, ◌≤◌, ◌<◌, ◌≡◌, ap, arith, Option, List, [], ◌∷◌, String, ok, length, length-append,
  All, nat_eq, string_eq,
}
use raftvec.Core.Record.{VectorRecord}
use raftvec.Core.Sharding.{u32_mod}
use raftvec.Proto.{InsertResponse}
use raftvec.Vecctl.Chunks.{chunks, concat, concat-chunks, chunks_le}
use raftvec.Vecctl.Query.{Host}
use raftvec.Vecctl
use raftvec.Vecctl.{Client, Cmd, Printed, batch_size, insert_records, insert_chunks}

module _ {F S : Type 0} (client : Client F S) where
  -- The server's state after it has received the batches in order.
  abbrev pub received : String → List (List (VectorRecord F)) → S → S
  received collection [] s = s
  received collection (b ∷ bs) s =
      received collection bs (client.insert s (record { collection = collection; records = b })).0

  -- The server answers each batch that is not too long, and counts its records.
  abbrev pub CountsEach : String → Type 0
  CountsEach collection =
      (s : S) (records : List (VectorRecord F))
      → length records ≤ batch_size
      → (r : InsertResponse) × ((client.insert s
            (record { collection = collection; records = records })).1
          ≡ ok r)
        × (r.inserted ≡ length records)

  pub insert_chunks_counts :
      (collection : String) (bs : List (List (VectorRecord F))) (n : ℕ) (s : S)
      → CountsEach collection
      → All (λ b. length b ≤ batch_size) bs
      → n < u32_mod
      → insert_chunks client collection bs n s
        ≡ (received collection bs s, ok ((n + length (concat bs)) % u32_mod))
  unfolding insert_chunks
  insert_chunks_counts collection [] n s h all lt = grind arith
  insert_chunks_counts collection (b ∷ bs) n s h (fits, all) lt =
      let (r, answer, count) = h s b fits in
      let ih =
        insert_chunks_counts collection bs ((n + r.inserted) % u32_mod)
          (client.insert s (record { collection = collection; records = b })).0 h all
          (omega arith) in
      rw (answer, ih, insert_chunks)
        (ap
          (λ k. (
            received collection bs
                (client.insert s (record { collection = collection; records = b })).0,
            ok k,
          ))
          (omega (arith, count, length-append b (concat bs))))

module _ {F B S : Type 0} (host : Host F B) (client : Client F S) where
  -- Against a server that answers each batch and counts its records, all the records are sent, in
  -- batches of at most `batch_size`, and all of them are counted.
  pub run_inserts-All :
      (collection : String) (file : Option String) (id : Option ℕ) (embedding : Option (List F))
      (records : List (VectorRecord F)) (s : S)
      → insert_records host file id embedding ≡ ok records
      → CountsEach client collection
      → (bs : List (List (VectorRecord F))) × (concat bs ≡ records)
        × All (λ b. length b ≤ batch_size) bs
        × (Vecctl.run host client (Cmd.insert collection file id embedding) s ≡ (
          received client collection bs s,
          ok (Printed.inserted (length records % u32_mod) (length records) collection ∷ []),
        ))
  unfolding Vecctl.run
  run_inserts-All collection file id embedding records s given counts =
      let bs : List (List (VectorRecord F)) = chunks batch_size records in
      let all : concat bs ≡ records = concat-chunks batch_size records (omega arith) in
      let sent =
        insert_chunks_counts client collection bs 0 s counts (chunks_le batch_size records)
          (omega arith) in
      (
        bs,
        all,
        chunks_le batch_size records,
        rw (given, Vecctl.run)
            (rw sent (
              ap
                (λ k. (
                  received client collection bs s,
                  ok (Printed.inserted k (length records) collection ∷ []),
                ))
                (omega (arith, ap length all)))),
      )
