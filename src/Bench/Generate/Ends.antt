-- ===== src/Bench/Generate/Ends.antt =====
-- The load generator of bench/src/main.rs ends, with a number of requests that its flags bound.
use mathlib.Core.List.{Perm}
use mathlib.Core.List.Perm
use raftvec.Base.{
  ℕ, zero, suc, ◌+◌, ◌-◌, ◌*◌, ◌/◌, ◌≡◌, ◌≤◌, ◌<◌, refl, sym, ap, ◌∙◌, arith, Option, some, List,
  [], ◌∷◌, String, Result, ok, ltb, length, Bool-cases, inl, inr, All,
}
use native.Mathlib.Decide.{dec_lt}
use native.Mathlib.Nat.{lt-div-mul-add}
use raftvec.Core.Float.{Float}
use raftvec.Proto.{Status, SearchRequest}
use raftvec.Bench.{report}
use raftvec.Bench.Reports.{report-Perm}
use raftvec.Bench.Draws.{draw_each, length-draw_each}
use raftvec.Bench.Generate.{Args, generate, outcomes, main}

module _ {F : Type 0} (args : Args) where
  -- A request as the flags ask for it.
  abbrev pub IsAsked : SearchRequest F → Type 0
  IsAsked req =
      (req.collection ≡ args.collection) × (req.k ≡ args.k) × (length req.query_vector ≡ args.dim)

module _ {R F : Type 0} (gen_range : R → R × F) (args : Args) (now : ℕ → ℕ) (deadline : ℕ) where
  not_yet : (i last : ℕ) → i ≤ last → deadline ≤ now last → now i < deadline → i < last
  not_yet i last le d here = elim (dec_lt i last) [
    | yes lt ↦ lt
    | no ge ↦
        let same : i ≡ last = omega arith in
        let equal : now i ≡ now last = ap now same in absurd (omega (arith, equal, d, here))
  ]

  -- The loop ends when the clock has come to the deadline before the `last` turn.
  generate_ends :
      (fuel i last : ℕ) (rng : R)
      → deadline ≤ now last
      → i ≤ last
      → last < i + fuel
      → (requests : List (SearchRequest F)) × (generate gen_range args now deadline fuel i rng
          ≡ some requests)
        × All (IsAsked args) requests
        × (i + length requests ≤ last)
  unfolding generate
  generate_ends zero i last rng d le lt = absurd (omega arith)
  generate_ends (suc fuel) i last rng d le lt = elim (Bool-cases (ltb (now i) deadline)) [
    | inr stop ↦ ([], rw (stop, generate) refl, tt, omega arith)
    | inl go ↦
        let (rng', query_vector) = draw_each gen_range rng args.dim in
        let here : now i < deadline = ground (arith, go) in
        let more : i < last = not_yet i last le d here in
        let (requests, run, asked, few) =
          generate_ends fuel (suc i) last rng' d (omega arith) (omega arith) in
        (
          record { collection = args.collection; query_vector = query_vector; k = args.k }
              ∷ requests,
          rw (go, run, generate) refl,
          ((refl, refl, length-draw_each gen_range rng args.dim), asked),
          omega (arith, few),
        )
  ]

module _ {F A : Type 0} where
  length-outcomes :
      (answer : ℕ → SearchRequest F → A) (i : ℕ) (requests : List (SearchRequest F))
      → length (outcomes answer i requests) ≡ length requests
  unfolding outcomes
  length-outcomes answer i [] = refl
  length-outcomes answer i (req ∷ requests) = ap suc (length-outcomes answer (suc i) requests)

-- After this many turns the ticks, one period apart, have come to the deadline.
ticked : (span period : ℕ) → 0 < period → span ≤ (span / period + 1) * period
ticked span period p = omega (arith, lt-div-mul-add {a = span} {b = period} p)

module _ {R F G P E C S : Type 0} ⦃fl64 : Float G⦄ (gen_range : R → R × F) (seeded : R)
    (connect : String → Result E C) (ticker : ℕ → Option (ℕ → ℕ)) (begun : ℕ)
    (answer : C → ℕ → SearchRequest F → Result Status S × G)
    (ends : List (Result Status S × G) → List (Result Status S × G)) (nearest : ℕ → P → ℕ)
    (half most : P) where
  -- A run of the load generator that has connected, where the ticks are at least a period apart
  -- from `start` on, each request ends once, in any order, the rounded position of each percentile
  -- is below the number of latencies, and the fuel is greater than the bound. It sends at most two
  -- requests more than there are periods from `start` to the deadline, each of them with the
  -- collection, the `k` and the dimension of the flags; it ends with the report of their outcomes,
  -- whose total is their number, and neither percentile is out of range.
  pub main_ends :
      (fuel period start : ℕ) (args : Args) (client : C) (now : ℕ → ℕ)
      → ((n : ℕ) (p : P) → 0 < n → nearest n p < n)
      → ((l : List (Result Status S × G)) → Perm (ends l) l)
      → connect args.addr ≡ ok client
      → ticker args.qps ≡ some now
      → 0 < period
      → start ≤ begun
      → ((i : ℕ) → start + i * period ≤ now (suc i))
      → (begun + args.duration_secs * 1_000_000_000 - start) / period + 2 < fuel
      → (requests : List (SearchRequest F)) × All (IsAsked args) requests
        × (length requests ≤ (begun + args.duration_secs * 1_000_000_000 - start) / period + 2)
        × (let rep = report nearest half most (outcomes (answer client) 0 requests) in
            (main gen_range seeded connect ticker begun answer ends nearest half most fuel args
              ≡ some (ok rep))
            × (rep.total ≡ length requests)
            × ((p50 : G) × (rep.p50 ≡ some p50))
            × ((p99 : G) × (rep.p99 ≡ some p99)))
  unfolding main
  main_ends fuel period start args client now in_range perm connected rate p le ticks enough =
      let deadline = begun + args.duration_secs * 1_000_000_000 in
      let turns = (deadline - start) / period + 1 in
      let reached : deadline ≤ now (suc turns) =
        omega (arith, ticked (deadline - start) period p, ticks turns, le) in
      let (requests, sent, asked, few) =
        generate_ends gen_range args now deadline fuel 0 (suc turns) seeded reached (omega arith)
          (omega (arith, enough)) in
      let all = outcomes (answer client) 0 requests in
      let (same, total, p50, p99) =
        report-Perm nearest in_range half most all (ends all) (Perm.symm (perm all)) in
      (
        requests,
        asked,
        omega (arith, few),
        (
          rw (connected, rate, sent, main) (ap (λ r. some (ok r)) (sym same)),
          total ∙ length-outcomes (answer client) 0 requests,
          p50,
          p99,
        ),
      )
