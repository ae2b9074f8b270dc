-- ===== src/Bench/Generate.antt =====
-- bench/src/main.rs: the loop that sends the requests, and `main` around it. The flags are as clap has
-- parsed them. The connection, the clock, the ticker, the server and the order in which the requests
-- end are parameters; instants are in nanoseconds.
pub mod Ends
use raftvec.Base.{
  ℕ, zero, suc, ◌+◌, ◌*◌, Option, none, some, List, [], ◌∷◌, String, Result, ok, err, ltb, true,
  false, Bool,
}
use raftvec.Core.Float.{Float}
use raftvec.Proto.{Status, SearchRequest}
use raftvec.Bench.{Report, report}
use raftvec.Bench.Draws.{draw_each}

pub record Args : Type 0 where
  pub addr : String
  pub collection : String
  pub dim : ℕ
  pub qps : ℕ
  pub duration_secs : ℕ
  pub k : ℕ

module _ {R F : Type 0} (gen_range : R → R × F) (args : Args) (now : ℕ → ℕ) (deadline : ℕ) where
  -- The loop: `now i` is what the clock reads before the `i`th turn. `none` is fuel that has run out.
  unfoldable pub generate : (fuel i : ℕ) → R → Option (List (SearchRequest F))
  unfolding draw_each
  generate zero i rng = none
  generate (suc fuel) i rng = elim (ltb (now i) deadline) [
    | false ↦ some []
    | true ↦
        let (rng', query_vector) = draw_each gen_range rng args.dim in
        elim (generate fuel (suc i) rng') [
          | none ↦ none
          | some requests ↦ some (
              record { collection = args.collection; query_vector = query_vector; k = args.k }
              ∷ requests)
        ]
  ]

module _ {F A : Type 0} where
  -- The outcomes of the requests, the first of which is the `i`th.
  unfoldable pub outcomes :
      (answer : ℕ → SearchRequest F → A) → (i : ℕ) → List (SearchRequest F) → List A
  outcomes answer i [] = []
  outcomes answer i (req ∷ requests) = answer i req ∷ outcomes answer (suc i) requests

-- `ticker qps` is the clock of the run, as the ticks let it go on; `none` is a panic, of a rate that
-- gives no period. `begun` is the clock's reading from which the deadline is counted, `seeded` is
-- `StdRng::seed_from_u64(42)`.
module _ {R F G P E C S : Type 0} ⦃fl64 : Float G⦄ (gen_range : R → R × F) (seeded : R)
    (connect : String → Result E C) (ticker : ℕ → Option (ℕ → ℕ)) (begun : ℕ)
    (answer : C → ℕ → SearchRequest F → Result Status S × G)
    (ends : List (Result Status S × G) → List (Result Status S × G)) (nearest : ℕ → P → ℕ)
    (half most : P) where
  unfoldable pub main : (fuel : ℕ) → Args → Option (Result E (Report G))
  unfolding generate outcomes report
  main fuel args = elim (connect args.addr) [
    | err e ↦ some (err e)
    | ok client ↦ elim (ticker args.qps) [
      | none ↦ none
      | some now ↦
          let deadline = begun + args.duration_secs * 1_000_000_000 in
          elim (generate gen_range args now deadline fuel 0 seeded) [
            | none ↦ none
            | some requests ↦
                some (ok (report nearest half most (ends (outcomes (answer client) 0 requests))))
          ]
    ]
  ]
