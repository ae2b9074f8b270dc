-- ===== src/Node/Baseline.antt =====
-- crates/raftvec-node/examples/baseline_bench.rs: a store is filled and searched. The generator of
-- random numbers, in the states `R`, the clock and the arithmetic on `f64` are parameters; `F` stands
-- for `f32` and `G` for `f64`. `none` is a panic.
pub mod Loads
pub mod Completes
use raftvec.Base.{
  ℕ, zero, suc, ◌+◌, ◌-◌, Option, none, some, List, [], ◌∷◌, ok, err, ltb, true, false, length,
  get_elem?, ◌==◌, nat_eq, string_eq,
}
use Prim.Native.Nat.{min}
use raftvec.Order.{sort_desc}
use raftvec.Core.Float.{Float}
use raftvec.Core.Record
use raftvec.Core.Record.{VectorRecord}
use raftvec.Core.Search.{Rayon}
use raftvec.Node.Store
use raftvec.Node.Store.{Store}
use raftvec.Bench.{ascending}
use raftvec.Bench.Draws.{draw_each}

-- `sorted_ms[idx]`, where `nearest n p` is `((n as f64 - 1.0) * p).round() as usize`.
unfoldable pub percentile : {G P : Type 0} → (nearest : ℕ → P → ℕ) → List G → P → Option G
percentile nearest sorted_ms p = get_elem? sorted_ms (nearest (length sorted_ms) p)

module _ {R F : Type 0} (gen_range : R → R × F) where
  unfoldable pub random_vector : R → (dim : ℕ) → R × List F
  unfolding draw_each
  random_vector rng dim = draw_each gen_range rng dim

  -- The records of one batch: the ids from `id` on, `count` of them.
  unfoldable pub batch_from : (dim count id : ℕ) → R → R × List (VectorRecord F)
  unfolding random_vector Record.new
  batch_from dim zero id rng = (rng, [])
  batch_from dim (suc count) id rng =
      let (rng', embedding) = random_vector rng dim in
      let (rng'', records) = batch_from dim count (id + 1) rng' in
      (rng'', Record.new id embedding [] ∷ records)

  module _ ⦃fl : Float F⦄ (dim : ℕ) where
    -- The loop that inserts; its ids stay below 2 ^ 64.
    unfoldable pub load : (n fuel batch id : ℕ) → R → Store F → Option (R × Store F)
    unfolding batch_from Store.insert
    load n zero batch id rng store = none
    load n (suc fuel) batch id rng store = elim (ltb id n) [
      | false ↦ some (rng, store)
      | true ↦
          let batch_end = min (id + batch) n in
          let (rng', records) = batch_from dim (batch_end - id) id rng in
          let (store', result) = Store.insert store "bench" records in
          elim result [ err e ↦ none | ok count ↦ load n fuel batch batch_end rng' store' ]
    ]

    -- The loop that measures: `queries` are left, and `elapsed_ms i` is the time of the `i`th.
    unfoldable pub measure :
        {G : Type 0} ⦃ry : Rayon (VectorRecord F × F)⦄
        → (elapsed_ms : ℕ → G) (k queries i : ℕ) → R
        → Store F
        → Option (List G)
    unfolding random_vector Store.search
    measure elapsed_ms k zero i rng store = some []
    measure elapsed_ms k (suc queries) i rng store =
        let (rng', query) = random_vector rng dim in
        elim (Store.search store "bench" query k) [
          | err e ↦ none
          | ok results ↦ elim (length results == k) [
            | false ↦ none
            | true ↦ elim (measure elapsed_ms k queries (i + 1) rng' store) [
              | none ↦ none
              | some latencies_ms ↦ some (elapsed_ms i ∷ latencies_ms)
            ]
          ]
        ]

pub record Report (F G : Type 0) : Type 0 where
  pub store : Store F
  pub mean : G
  pub p50 : G
  pub p99 : G

module _ {R F G P : Type 0} ⦃fl : Float F⦄ ⦃fl64 : Float G⦄ ⦃ry : Rayon (VectorRecord F × F)⦄
    (gen_range : R → R × F) (elapsed_ms : ℕ → G) (nearest : ℕ → P → ℕ) (half most : P)
    (sum : List G → G) (as_f64 : ℕ → G) where
  -- The end of `main`, from the latencies on.
  unfoldable pub summary : Store F → List G → Option (Report F G)
  unfolding percentile sort_desc
  summary store latencies_ms =
      let sorted = sort_desc ⦃o = ascending⦄ latencies_ms in
      elim (percentile nearest sorted half) [
        | none ↦ none
        | some p50 ↦ elim (percentile nearest sorted most) [
          | none ↦ none
          | some p99 ↦ some (record {
            store = store;
            mean = fl64.div (sum sorted) (as_f64 (length sorted));
            p50 = p50;
            p99 = p99;
          })
        ]
      ]

  -- `main`, over its constants: each turn of the loop that inserts has at least one new id, so `n`
  -- turns and one are enough.
  unfoldable pub run : (n dim k queries batch : ℕ) → R → Option (Report F G)
  unfolding load measure summary
  run n dim k queries batch rng =
      let (store, created) = Store.create_collection Store.new "bench" dim 1 in
      elim created [
        | err e ↦ none
        | ok u ↦ elim (load gen_range dim n (n + 1) batch 0 rng store) [
          | none ↦ none
          | some (rng', loaded) ↦
              let (rng'', warmup_query) = random_vector gen_range rng' dim in
              elim (Store.search loaded "bench" warmup_query k) [
                | err e ↦ none
                | ok results ↦ elim (measure gen_range dim elapsed_ms k queries 0 rng'' loaded) [
                  | none ↦ none
                  | some latencies_ms ↦ summary loaded latencies_ms
                ]
              ]
        ]
      ]

  -- `seeded` is `StdRng::seed_from_u64(1)`.
  unfoldable pub main : (seeded : R) → Option (Report F G)
  unfolding run
  main seeded = run 500_000 384 10 200 10_000 seeded
