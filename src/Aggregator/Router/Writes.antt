-- ===== src/Aggregator/Router/Writes.antt =====
-- `ShardRouter::insert` and `delete`: the calls of a write, and what its answer makes of them.
use native.Mathlib.Nat.{mod-lt}
use raftvec.Base.{
  ℕ, ◌+◌, ◌%◌, ◌<◌, ◌≡◌, refl, ap, ◌∙◌, arith, some, Option-cases, inl, inr, ◌⊎◌, List, [], ◌∷◌,
  ◌++◌, map, Result, ok, err, length,
}
use raftvec.Core.Sharding.{u32_mod}
use raftvec.Aggregator.Retry.{
  RouterError, ShardReplicaSet, CarriesLeaderHint, Attempt, call_with_retry,
}
use raftvec.Aggregator.Grouping.{tabulate, filter, belongs, length-tabulate}
use raftvec.Aggregator.Router.{ShardRouter, write_group, write_each, sum_each, write}
use raftvec.Aggregator.Router.Totals.{IsValid, write-IsValid}

module _ {C R Item : Type 0} ⦃ch : CarriesLeaderHint R⦄ (E : Type 0)
    (send : List Item → ℕ → C → Attempt R) where
  -- Each shard has a group. A shard with an empty group is left alone. Any other is called once,
  -- with its whole group: it keeps the hint that the call has stored, and the result of the call
  -- has its place among the results.
  abbrev pub Calls :
      List (ShardReplicaSet C)
      → List (List Item)
      → List (ShardReplicaSet C)
      → List (Result (RouterError E) R)
      → Type 0
  Calls [] [] shards' results = (shards' ≡ []) × (results ≡ [])
  Calls [] (group ∷ groups) shards' results = ⊥
  Calls (shard ∷ shards) [] shards' results = ⊥
  Calls (shard ∷ shards) ([] ∷ groups) shards' results =
      (rest : List (ShardReplicaSet C)) × (shards' ≡ shard ∷ rest)
      × Calls shards groups rest results
  Calls (shard ∷ shards) ((item ∷ group) ∷ groups) shards' results =
      (hint : ℕ) × (r : Result (RouterError E) R) × (rest : List (ShardReplicaSet C)) × (rs : List
        (Result (RouterError E) R))
      × (call_with_retry shard (send (item ∷ group)) ≡ some (hint, r))
      × (shards' ≡ record shard { leader_hint = hint } ∷ rest)
      × (results ≡ r ∷ rs)
      × Calls shards groups rest rs

  write_each-Calls :
      (shards : List (ShardReplicaSet C)) (groups : List (List Item))
      (shards' : List (ShardReplicaSet C)) (results : List (Result (RouterError E) R))
      → length groups ≡ length shards
      → write_each send shards groups ≡ some (shards', results)
      → Calls shards groups shards' results
  unfolding write_each write_group
  write_each-Calls [] [] shards' results n h = (cc, cc)
  write_each-Calls [] (group ∷ groups) shards' results n h = absurd (omega (arith, n))
  write_each-Calls (shard ∷ shards) [] shards' results n h = absurd (omega (arith, n))
  write_each-Calls (shard ∷ shards) ([] ∷ groups) shards' results n h =
      elim (Option-cases (write_each {E = E} send shards groups)) [
        | inl f ↦ absurd (ground arith)
        | inr ((rest, rs), f) ↦
            let same : results ≡ rs = ground arith in
            (
              rest,
              ground arith,
              rw same (write_each-Calls shards groups rest rs (omega (arith, n)) f),
            )
      ]
  write_each-Calls (shard ∷ shards) ((item ∷ group) ∷ groups) shards' results n h =
      elim (Option-cases (call_with_retry {E = E} shard (send (item ∷ group)))) [
        | inl e ↦ absurd (ground arith)
        | inr ((hint, r), e) ↦ elim (Option-cases (write_each {E = E} send shards groups)) [
          | inl f ↦ absurd (ground arith)
          | inr ((rest, rs), f) ↦ (
            hint,
            r,
            rest,
            rs,
            e,
            ground arith,
            ground arith,
            write_each-Calls shards groups rest rs (omega (arith, n)) f,
          )
        ]
      ]

abbrev pub sum : {R : Type 0} → (R → ℕ) → List R → ℕ
sum count [] = 0
sum count (r ∷ rs) = count r + sum count rs

module _ {E R : Type 0} (count : R → ℕ) where
  -- All calls end with a response, and the answer is the sum of what these count on top of `n`,
  -- modulo 2 ^ 32; or the answer is the error that comes first.
  abbrev pub Adds : ℕ → List (Result (RouterError E) R) → Result (RouterError E) ℕ → Type 0
  Adds n results out =
      ((rs : List R) × (results ≡ map ok rs) × (out ≡ ok ((n + sum count rs) % u32_mod)))
      ⊎ ((rs : List R) × (e : RouterError E) × (rest : List (Result (RouterError E) R)) × (results
            ≡ map ok rs ++ err e ∷ rest)
          × (out ≡ err e))

  sum_each-Adds :
      (n : ℕ) (results : List (Result (RouterError E) R))
      → n < u32_mod
      → Adds n results (sum_each count n results)
  unfolding sum_each
  sum_each-Adds n [] small = inl ([], refl, ap ok (omega (arith, small)))
  sum_each-Adds n (err e ∷ results) small = inr ([], e, results, refl, refl)
  sum_each-Adds n (ok r ∷ results) small =
      elim (sum_each-Adds ((n + count r) % u32_mod) results (mod-lt (n + count r) (omega arith))) [
        | inl (rs, same, out) ↦ inl (r ∷ rs, ap (◌∷◌ (ok r)) same, out ∙ ap ok (omega arith))
        | inr (rs, e, rest, same, out) ↦ inr (r ∷ rs, e, rest, ap (◌∷◌ (ok r)) same, out)
      ]

module _ {C R Item : Type 0} ⦃ch : CarriesLeaderHint R⦄ (E : Type 0) (fxhash : ℕ → ℕ)
    (key : Item → ℕ) (count : R → ℕ) (send : List Item → ℕ → C → Attempt R) where
  -- On a well-formed router a write of any items, whatever the replicas answer, does not panic.
  -- Each shard that an item hashes to is called once, with all of its items in their order, and
  -- keeps the hint that the call has stored; the other shards are left alone. The answer is the
  -- sum, modulo 2 ^ 32, of what the responses count if all calls end with one, and otherwise the
  -- first error in the order of the shards. The router stays well-formed.
  pub write-Calls :
      (router : ShardRouter C) (items : List Item)
      → IsValid router
      → (shards' : List (ShardReplicaSet C)) × (results : List (Result (RouterError E) R))
        × (out : Result (RouterError E) ℕ) × (write fxhash key count send router items
            ≡ some (record router { shards = shards' }, out))
        × (let n = length router.shards in
            Calls E send router.shards
              (tabulate n (λ s. filter (belongs fxhash key n s) items))
              shards'
              results)
        × Adds count 0 results out
        × IsValid (record router { shards = shards' })
  write-Calls router items v =
      let n = length router.shards in
      let (shards', results, sent, run, w) = write-IsValid E fxhash key count send router items v in
      (
        shards',
        results,
        sum_each count 0 results,
        run,
        write_each-Calls E send router.shards
            (tabulate n (λ s. filter (belongs fxhash key n s) items)) shards' results
            (length-tabulate n (λ s. filter (belongs fxhash key n s) items)) sent,
        sum_each-Adds count 0 results (omega arith),
        w,
      )
