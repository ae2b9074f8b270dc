-- ===== src/Node/Baseline/Completes.antt =====
-- The runs of crates/raftvec-node/examples/baseline_bench.rs: no `unwrap`, assertion or index fails.
use raftvec.Base.{
  ℕ, ◌+◌, ◌≡◌, ◌≤◌, ◌<◌, refl, ap, arith, none, some, List, [], ok, length, get_elem?-lt, nat_eq,
  string_eq,
}
use raftvec.HashMap
use raftvec.HashMap.{HashMap}
use raftvec.Order.Top.{length-sort_desc}
use raftvec.Order.{sort_desc}
use raftvec.Core.Float.{Float}
use raftvec.Core.Record.{VectorRecord, scored_id_ord}
use raftvec.Core.Search.{Rayon}
use raftvec.Node.Store
use raftvec.Node.Store.{Store, Collection, StoredVector, stored, insert_each, first_mismatch}
use raftvec.Node.Store.Valid.{IsValid, new-IsValid, create_collection-IsValid}
use raftvec.Bench.{ascending}
use raftvec.Node.Baseline.{random_vector, percentile, summary, Report, run, main}
use raftvec.Node.Baseline.Loads.{
  Loaded, load-Loaded, search-Loaded, measure-Loaded, length-random_vector,
}

module _ {R F G P : Type 0} ⦃fl : Float F⦄ ⦃fl64 : Float G⦄ ⦃ry : Rayon (VectorRecord F × F)⦄
    (gen_range : R → R × F) (elapsed_ms : ℕ → G) (nearest : ℕ → P → ℕ) (half most : P)
    (sum : List G → G) (as_f64 : ℕ → G) (in_range : (n : ℕ) (p : P) → 0 < n → nearest n p < n) where
  created :
      (dim : ℕ)
      → (s : Store F) × (Store.create_collection Store.new "bench" dim 1 ≡ (s, ok tt))
        × Loaded gen_range dim s 0
  unfolding HashMap.get
  created dim =
      let s = (Store.create_collection {F = F} Store.new "bench" dim 1).0 in
      (
        s,
        (unfold Store.create_collection in refl),
        record {
          valid = create_collection-IsValid Store.new "bench" dim 1 new-IsValid;
          coll = record { dim = dim; shard_count = 1; vectors = [] };
          found = unfold Store.create_collection in refl;
          dims = refl;
          size = refl;
          fresh = λ j le. refl;
        },
      )

  summary_returns :
      (s : Store F) (ms : List G)
      → 0 < length ms
      → (rep : Report F G) × (summary gen_range elapsed_ms nearest half most sum as_f64 s ms
          ≡ some rep)
        × (rep.store ≡ s)
  unfolding summary percentile
  summary_returns s ms some_ms =
      let sorted = sort_desc ⦃o = ascending⦄ ms in
      let many : 0 < length sorted = omega (arith, length-sort_desc ⦃o = ascending⦄ ms, some_ms) in
      let (p50, e) =
        get_elem?-lt sorted (nearest (length sorted) half) (in_range (length sorted) half many) in
      let (p99, f) =
        get_elem?-lt sorted (nearest (length sorted) most) (in_range (length sorted) most many) in
      (
        record {
          store = s;
          mean = fl64.div (sum sorted) (as_f64 (length sorted));
          p50 = p50;
          p99 = p99;
        },
        rw (e, f, summary) refl,
        refl,
      )

  -- A run of the loops over any sizes: the collection holds `n` vectors.
  run_completes :
      (n dim k queries batch : ℕ) (rng : R)
      → 0 < batch
      → k ≤ n
      → 0 < queries
      → (rep : Report F G) × (run gen_range elapsed_ms nearest half most sum as_f64 n dim k queries
            batch rng
          ≡ some rep)
        × Loaded gen_range dim rep.store n
  unfolding run
  run_completes n dim k queries batch rng b le q =
      let (s, made, l) = created dim in
      let (rng', loaded, filled, l') =
        load-Loaded gen_range dim n (n + 1) batch 0 rng s l b (omega arith) (omega arith) in
      let (rng'', warmup) = random_vector gen_range rng' dim in
      let (_, warm, _) =
        search-Loaded gen_range dim loaded n k warmup l' le
          (length-random_vector gen_range rng' dim) in
      let (ms, measured, count) =
        measure-Loaded gen_range dim elapsed_ms n k queries 0 rng'' loaded l' le in
      let (rep, summed, same) = summary_returns loaded ms (omega (arith, count, q)) in
      (
        rep,
        rw (ap (λ p. p.1) made, ap (λ p. p.0) made, filled, run) (rw (warm, measured) summed),
        rw same l',
      )

  -- A run of the benchmark, where the rounded position of each percentile is below the number of
  -- latencies, ends with a report: the loop that inserts ends, and no `unwrap`, assertion or index
  -- fails. Then the store is valid, and its collection "bench" holds 500000 vectors of dimension
  -- 384, none of them under an id from 500000 on.
  pub main_completes :
      (seeded : R)
      → (rep : Report F G) × (main gen_range elapsed_ms nearest half most sum as_f64 seeded
          ≡ some rep)
        × IsValid rep.store
        × (c : Collection F) × (HashMap.get rep.store.collections "bench" ≡ some c)
        × (c.dim ≡ 384)
        × (length c.vectors ≡ 500_000)
        × ((id : ℕ) → 500_000 ≤ id → HashMap.get c.vectors id ≡ none)
  unfolding main
  main_completes seeded =
      let (rep, done, l) =
        run_completes 500_000 384 10 200 10_000 seeded (omega arith) (omega arith) (omega arith) in
      (rep, done, l.valid, l.coll, l.found, l.dims, l.size, l.fresh)
