-- ===== src/Vecctl/Stops.antt =====
-- An insert command of crates/vecctl/src/main.rs, whatever the server answers to its batches.
use raftvec.Base.{
  ℕ, ◌+◌, ◌%◌, ◌≡◌, ◌⊎◌, inl, inr, refl, ap, arith, Option, List, [], ◌∷◌, ◌++◌, String, Result, ok,
  err, length, Result-cases, string_eq, ◌<◌, ◌≤◌, ◌∙◌, All,
}
use native.Mathlib.Nat.{mod-lt}
use raftvec.Core.Record.{VectorRecord}
use raftvec.Core.Sharding.{u32_mod}
use raftvec.Proto.{Status, InsertRequest, InsertResponse}
use raftvec.Vecctl.Errors.{Failure, refused}
use raftvec.Vecctl.Chunks.{chunks, concat, concat-chunks, chunks_le}
use raftvec.Vecctl.Query.{Host}
use raftvec.Vecctl
use raftvec.Vecctl.{Client, Cmd, Printed, batch_size, insert_records, insert_chunks}
use raftvec.Vecctl.Batching.{received}

-- What the server has counted, as a `u32`.
abbrev pub sum : List InsertResponse → ℕ
sum [] = 0
sum (r ∷ rs) = r.inserted + sum rs

module _ {F S : Type 0} (client : Client F S) (collection : String) where
  abbrev request : List (VectorRecord F) → InsertRequest F
  request b = record { collection = collection; records = b }

  -- The server accepts the batches in order, with these responses.
  abbrev pub Accepts : List (List (VectorRecord F)) → S → List InsertResponse → Type 0
  Accepts [] s [] = Unit
  Accepts [] s (r ∷ rs) = ⊥
  Accepts (b ∷ bs) s [] = ⊥
  Accepts (b ∷ bs) s (r ∷ rs) =
      ((client.insert s (request b)).1 ≡ ok r) × Accepts bs (client.insert s (request b)).0 rs

  -- The server has accepted all the batches: all of them have reached it, and the loop ends with
  -- what it has counted on top of `n`.
  abbrev pub SentAll : List (List (VectorRecord F)) → ℕ → S → S × Result Failure ℕ → Type 0
  SentAll bs n s out =
      (rs : List InsertResponse) × Accepts bs s rs
      × (out ≡ (received client collection bs s, ok ((n + sum rs) % u32_mod)))

  -- The server has accepted some batches and refused the next: these have reached the server, and
  -- those after them have not been sent.
  abbrev pub StoppedAt : List (List (VectorRecord F)) → S → S × Result Failure ℕ → Type 0
  StoppedAt bs s out =
      (sent : List (List (VectorRecord F))) × (rs : List InsertResponse) × (b : List
        (VectorRecord F))
      × (rest : List (List (VectorRecord F))) × (status : Status) × (bs ≡ sent ++ b ∷ rest)
      × Accepts sent s rs
      × ((client.insert (received client collection sent s) (request b)).1 ≡ err status)
      × (out ≡ (received client collection (sent ++ b ∷ []) s, err (refused status)))

  insert_chunks_cases :
      (bs : List (List (VectorRecord F))) (n : ℕ) (s : S)
      → n < u32_mod
      → SentAll bs n s (insert_chunks client collection bs n s)
        ⊎ StoppedAt bs s (insert_chunks client collection bs n s)
  unfolding insert_chunks
  insert_chunks_cases [] n s small = inl ([], tt, ap (λ k. (s, ok k)) (omega (arith, small)))
  insert_chunks_cases (b ∷ bs) n s small = elim (Result-cases (client.insert s (request b)).1) [
    | inr (status, e) ↦ inr ([], [], b, bs, status, refl, tt, e, rw (e, insert_chunks) refl)
    | inl (r, e) ↦
        elim (insert_chunks_cases bs ((n + r.inserted) % u32_mod) (client.insert s (request b)).0
          (mod-lt (n + r.inserted) (omega arith))) [
            | inl (rs, accepted, out) ↦ inl (
              r ∷ rs,
              (e, accepted),
              rw (e, insert_chunks)
                  (out
                    ∙ ap
                        (λ k. (received client collection bs (client.insert s (request b)).0, ok k))
                        (omega arith)),
            )
            | inr (sent, rs, c, rest, status, split, accepted, answer, out) ↦ inr (
              b ∷ sent,
              r ∷ rs,
              c,
              rest,
              status,
              ap (◌∷◌ b) split,
              (e, accepted),
              answer,
              rw (e, insert_chunks) out,
            )
          ]
  ]

module _ {F B S : Type 0} (host : Host F B) (client : Client F S) where
  -- The three ways in which an insert command can end: the records cannot be read, the server has
  -- accepted all the batches, or it has refused one of them.
  abbrev pub Ends :
      (collection : String) (file : Option String) (id : Option ℕ) (embedding : Option (List F))
      → S
      → S × Result Failure (List (Printed F))
      → Type 0
  Ends collection file id embedding s out =
      ((e : Failure) × (insert_records host file id embedding ≡ err e) × (out ≡ (s, err e)))
      ⊎ ((records : List (VectorRecord F)) × (bs : List (List (VectorRecord F))) × (insert_records
              host file id embedding
            ≡ ok records)
          × (concat bs ≡ records)
          × All (λ b. length b ≤ batch_size) bs
          × (((rs : List InsertResponse) × Accepts client collection bs s rs
                × (out ≡ (
                  received client collection bs s,
                  ok (Printed.inserted (sum rs % u32_mod) (length records) collection ∷ []),
                )))
              ⊎ ((sent : List (List (VectorRecord F))) × (rs : List InsertResponse) × (b : List
                    (VectorRecord F))
                  × (rest : List (List (VectorRecord F))) × (status : Status) × (bs
                      ≡ sent ++ b ∷ rest)
                  × Accepts client collection sent s rs
                  × ((client.insert (received client collection sent s)
                        (record { collection = collection; records = b })).1
                      ≡ err status)
                  × (out ≡ (received client collection (sent ++ b ∷ []) s, err (refused status))))))

  -- An insert command, whatever the server answers, ends in one of three ways. The records cannot
  -- be read: the command fails as the reading does, and the server is as it was. Or they are split,
  -- in their order, into batches of at most 1000, and the server accepts each batch: all of them
  -- have reached the server, and the command prints the sum of what the server has counted, modulo
  -- 2 ^ 32, and the number of the records. Or the server accepts some of the batches and refuses
  -- the next: the command fails with its status, these batches have reached the server, and those
  -- after them are not sent.
  pub run_insert_cases :
      (collection : String) (file : Option String) (id : Option ℕ) (embedding : Option (List F))
      (s : S)
      → Ends collection file id embedding s
          (Vecctl.run host client (Cmd.insert collection file id embedding) s)
  unfolding Vecctl.run
  run_insert_cases collection file id embedding s =
      elim (Result-cases (insert_records host file id embedding)) [
        | inr (e, f) ↦ inl (e, f, rw (f, Vecctl.run) refl)
        | inl (records, f) ↦
            let bs : List (List (VectorRecord F)) = chunks batch_size records in
            inr (
              records,
              bs,
              f,
              concat-chunks batch_size records (omega arith),
              chunks_le batch_size records,
              elim (insert_chunks_cases client collection bs 0 s (omega arith)) [
                | inl (rs, accepted, out) ↦
                    let all : 0 + sum rs ≡ sum rs = omega arith in
                    inl (rs, accepted, rw (f, Vecctl.run) (rw (out, all) refl))
                | inr (sent, rs, b, rest, status, split, accepted, answer, out) ↦ inr (
                  sent,
                  rs,
                  b,
                  rest,
                  status,
                  split,
                  accepted,
                  answer,
                  rw (f, Vecctl.run) (rw out refl),
                )
              ],
            )
      ]
