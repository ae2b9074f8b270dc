-- ===== src/Node/Baseline/Loads.antt =====
-- The loops of crates/raftvec-node/examples/baseline_bench.rs: the collection while it is filled, and
-- the searches after that.
use Prim.Native.Nat.{min}
use raftvec.Base.{
  ℕ, zero, suc, subst, ◌+◌, ◌-◌, ◌≡◌, ◌≤◌, ◌<◌, refl, ap, ◌∙◌, arith, none, some, List, [], ◌∷◌,
  map, ok, true, ltb, length, length-map, nat_eq, string_eq, ◌==◌, Bool-cases, inl, inr,
}
use raftvec.HashMap
use raftvec.HashMap.{HashMap}
use raftvec.HashMap.Laws.{get-insert}
use raftvec.Core.Float.{Float}
use raftvec.Core.Record
use raftvec.Core.Record.{VectorRecord, ScoredId, scored_id_ord}
use raftvec.Core.Search.{Rayon}
use raftvec.Core.TopK.{bounded_top_k}
use raftvec.Core.TopK.Exact.{bounded_top_k-IsBestOf}
use raftvec.Node.Store
use raftvec.Node.Store.{Store, Collection, StoredVector, stored, insert_each, first_mismatch}
use raftvec.Node.Store.Valid.{IsValid, insert-IsValid}
use raftvec.Node.Store.Ranking.{direct, search_lem}
use raftvec.Bench.Draws.{length-draw_each}
use raftvec.Node.Baseline.{random_vector, batch_from, load, measure}

module _ {V : Type 0} where
  length-insert_fresh :
      (m : HashMap ℕ V) (k : ℕ) (v : V)
      → HashMap.get m k ≡ none
      → length (HashMap.insert m k v) ≡ suc (length m)
  unfolding HashMap.get HashMap.insert
  length-insert_fresh [] k v h = refl
  length-insert_fresh ((j, w) ∷ m) k v h = ground (arith, length-insert_fresh m k v)

  -- No key from `id` on.
  abbrev Below : HashMap ℕ V → ℕ → Type 0
  Below m id = (j : ℕ) → id ≤ j → HashMap.get m j ≡ none

module _ {R F : Type 0} (gen_range : R → R × F) where
  pub length-random_vector : (rng : R) (dim : ℕ) → length (random_vector gen_range rng dim).1 ≡ dim
  unfolding random_vector
  length-random_vector rng dim = length-draw_each gen_range rng dim

  batch_fits :
      (dim count id : ℕ) (rng : R)
      → first_mismatch dim (batch_from gen_range dim count id rng).1 ≡ none
  unfolding batch_from first_mismatch Record.new
  batch_fits dim zero id rng = refl
  batch_fits dim (suc count) id rng =
      let (rng', _) = random_vector gen_range rng dim in
      ground (arith, length-random_vector rng dim, batch_fits dim count (id + 1) rng')

  module _ ⦃fl : Float F⦄ (dim : ℕ) where
    insert_batch :
        (m : HashMap ℕ (StoredVector F)) (count id : ℕ) (rng : R)
        → Below m id
        → (let m' = insert_each m (batch_from gen_range dim count id rng).1 in
            (length m' ≡ length m + count) × Below m' (id + count))
    unfolding batch_from insert_each stored Record.new
    insert_batch m zero id rng h = (omega arith, λ j le. h j (omega arith))
    insert_batch m (suc count) id rng h =
        let (rng', embedding) = random_vector gen_range rng dim in
        let r = Record.new id embedding [] in
        let (size, fresh) =
          insert_batch (HashMap.insert m id (stored r)) count (id + 1) rng'
            (λ j le. ground (arith, get-insert m id j (stored r), h j)) in
        (
          omega (arith, size, length-insert_fresh m id (stored r) (h id (omega arith))),
          λ j le. fresh j (omega arith),
        )

    -- The store of the loop when the next id is `id`.
    pub record Loaded (s : Store F) (id : ℕ) : Type 0 where
      pub valid : IsValid s
      pub coll : Collection F
      pub found : HashMap.get s.collections "bench" ≡ some coll
      pub dims : coll.dim ≡ dim
      pub size : length coll.vectors ≡ id
      pub fresh : Below coll.vectors id

    insert-Loaded :
        (s : Store F) (id count : ℕ) (rng : R)
        → Loaded s id
        → (s' : Store F) × (n : ℕ) × (Store.insert s "bench"
              (batch_from gen_range dim count id rng).1
            ≡ (s', ok n))
          × Loaded s' (id + count)
    insert-Loaded s id count rng l =
        let rs = (batch_from gen_range dim count id rng).1 in
        let c' = record l.coll { vectors = insert_each l.coll.vectors rs } in
        let s' : Store F = record { collections = HashMap.insert s.collections "bench" c' } in
        let fits : first_mismatch l.coll.dim rs ≡ none =
          ap (λ d. first_mismatch d rs) l.dims ∙ batch_fits dim count id rng in
        let done : Store.insert s "bench" rs ≡ (s', ok (length rs)) =
          unfold Store.insert in rw (l.found, fits, Store.insert) refl in
        let (size, fresh) = insert_batch l.coll.vectors count id rng l.fresh in
        (
          s',
          length rs,
          done,
          record {
            valid = rw (← ap (λ p. p.0) done) (insert-IsValid s "bench" rs l.valid);
            coll = c';
            found = get-insert s.collections "bench" "bench" c';
            dims = l.dims;
            size = omega (arith, size, l.size);
            fresh = fresh;
          },
        )

    pub load-Loaded :
        (n fuel batch id : ℕ) (rng : R) (s : Store F)
        → Loaded s id
        → 0 < batch
        → id ≤ n
        → n < id + fuel
        → (rng' : R) × (s' : Store F) × (load gen_range dim n fuel batch id rng s ≡ some (rng', s'))
          × Loaded s' n
    unfolding load
    load-Loaded n zero batch id rng s l b le lt = absurd (omega arith)
    load-Loaded n (suc fuel) batch id rng s l b le lt = elim (Bool-cases (ltb id n)) [
      | inr stop ↦ let same : id ≡ n = ground arith in (rng, s, rw (stop, load) refl, rw (← same) l)
      | inl go ↦
          let next : id + (min (id + batch) n - id) ≡ min (id + batch) n = ground arith in
          let (rng', _) = batch_from gen_range dim (min (id + batch) n - id) id rng in
          let (s', count, done, l') = insert-Loaded s id (min (id + batch) n - id) rng l in
          let (rng'', s'', rest, l'') =
            load-Loaded n fuel batch (min (id + batch) n) rng' s' (subst (Loaded s') next l') b
              (omega arith) (ground arith) in
          (rng'', s'', rw (go, ap (λ p. p.1) done, load) (rw (ap (λ p. p.0) done) rest), l'')
    ]

    pub search-Loaded :
        ⦃ry : Rayon (VectorRecord F × F)⦄ (s : Store F) (n k : ℕ) (query : List F)
        → Loaded s n
        → k ≤ n
        → length query ≡ dim
        → (l : List (ScoredId F)) × (Store.search s "bench" query k ≡ ok l) × (length l ≡ k)
    search-Loaded s n k query l le fits =
        let ranked = map (direct query) l.coll.vectors in
        let best = bounded_top_k-IsBestOf ranked k in
        let same : (length query == l.coll.dim) ≡ true = ground (arith, fits, l.dims) in
        (
          bounded_top_k ranked k,
          search_lem s "bench" query k l.valid ∙ rw (l.found, same) refl,
          omega (arith, best.size, length-map (direct query) l.coll.vectors, l.size, le),
        )

    pub measure-Loaded :
        {G : Type 0} ⦃ry : Rayon (VectorRecord F × F)⦄ (elapsed_ms : ℕ → G) (n k queries i : ℕ)
        (rng : R) (s : Store F)
        → Loaded s n
        → k ≤ n
        → (ms : List G) × (measure gen_range dim elapsed_ms k queries i rng s ≡ some ms)
          × (length ms ≡ queries)
    unfolding measure
    measure-Loaded elapsed_ms n k zero i rng s l le = ([], refl, refl)
    measure-Loaded elapsed_ms n k (suc queries) i rng s l le =
        let (rng', query) = random_vector gen_range rng dim in
        let (results, found, size) =
          search-Loaded s n k query l le (length-random_vector rng dim) in
        let (ms, rest, count) = measure-Loaded elapsed_ms n k queries (i + 1) rng' s l le in
        let all : (length results == k) ≡ true = ground arith in
        (elapsed_ms i ∷ ms, rw (found, all, rest, measure) refl, ap suc count)
