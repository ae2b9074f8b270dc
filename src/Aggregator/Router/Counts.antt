-- ===== src/Aggregator/Router/Counts.antt =====
-- `ShardRouter::insert` and `delete`: the sum over the shards, against the number of items.
use raftvec.Base.{
  ℕ, suc, zero, ◌+◌, ◌%◌, ◌<◌, ◌≡◌, refl, ap, sym, ◌∙◌, subst, arith, Option, some, List, [], ◌∷◌,
  ◌++◌, Result, ok, err, length, All, true, false, Option-cases, inl, inr, ◌==◌, nat_eq,
}
use native.Mathlib.Nat.{mod-eq_of_lt, mod-lt}
use mathlib.Core.Path.{fun_ext}
use raftvec.Core.Sharding.{u32_mod}
use raftvec.Aggregator.Retry.{
  RouterError, ShardReplicaSet, CarriesLeaderHint, Attempt, response, call_with_retry,
  max_leader_attempts,
}
use raftvec.Aggregator.Retry.Bounds.{IsAnswered, call_with_rounds-IsAnswered}
use raftvec.Aggregator.Grouping.{tabulate, filter, belongs, length-tabulate}
use raftvec.Aggregator.Router.{ShardRouter, write_group, write_each, sum_each, write}
use raftvec.Aggregator.Router.Totals.{ShardIsValid, IsValid, write-IsValid}

lengths : {A : Type 0} → List (List A) → ℕ
lengths [] = 0
lengths (l ∷ ls) = length l + lengths ls

lengths-tabulate_nil : (A : Type 0) (n : ℕ) → lengths {A = A} (tabulate n (λ s. [])) ≡ 0
unfolding tabulate lengths
lengths-tabulate_nil A zero = refl
lengths-tabulate_nil A (suc n) = omega (arith, lengths-tabulate_nil A n)

module _ {A : Type 0} where
  lengths-tabulate_cons :
      (n h : ℕ) (f g : ℕ → List A)
      → h < n
      → length (g h) ≡ suc (length (f h))
      → ((s : ℕ) → ¬ (s ≡ h) → g s ≡ f s)
      → lengths (tabulate n g) ≡ suc (lengths (tabulate n f))
  unfolding tabulate lengths
  lengths-tabulate_cons zero h f g lt e u = absurd (omega arith)
  lengths-tabulate_cons (suc n) zero f g lt e u =
      let tails : lengths (tabulate n (λ s. g (suc s))) ≡ lengths (tabulate n (λ s. f (suc s))) =
        ap (λ k. lengths (tabulate n k)) (fun_ext λ s. u (suc s) (λ z. omega arith)) in
      omega (arith, e, tails)
  lengths-tabulate_cons (suc n) (suc h) f g lt e u =
      let head : length (g 0) ≡ length (f 0) = ap length (u 0 (λ z. omega arith)) in
      omega (
        arith,
        head,
        lengths-tabulate_cons n h (λ s. f (suc s)) (λ s. g (suc s)) (omega arith) e
            (λ s ne. u (suc s) (λ z. ne (omega arith))),
      )

module _ {Item : Type 0} (fxhash : ℕ → ℕ) (key : Item → ℕ) (n : ℕ) where
  grouped_all :
      (items : List Item)
      → 0 < n
      → lengths (tabulate n (λ s. filter (belongs fxhash key n s) items)) ≡ length items
  unfolding filter
  grouped_all [] p = lengths-tabulate_nil Item n
  grouped_all (item ∷ items) p =
      let h = fxhash (key item) % n in
      lengths-tabulate_cons n h (λ s. filter (belongs fxhash key n s) items)
        (λ s. filter (belongs fxhash key n s) (item ∷ items)) (mod-lt (fxhash (key item)) p)
        (rw (nat_same h) refl) (λ s ne. rw (nat_other s h ne) refl)
      ∙ ap suc (grouped_all items p)
    where
      nat_same : (s : ℕ) → (s == s) ≡ true
      nat_same s = ground arith

      nat_other : (j s : ℕ) → ¬ (j ≡ s) → (j == s) ≡ false
      nat_other j s ne = ground (arith, ne)

module _ {E R : Type 0} (count : R → ℕ) where
  added :
      (r : R) (rest : List (Result (RouterError E) R)) (t m n : ℕ)
      → count r ≡ m
      → t + m < u32_mod
      → sum_each count t (ok r ∷ rest) ≡ ok n
      → sum_each count (t + m) rest ≡ ok n
  unfolding sum_each
  added r rest t m n counted small h =
      let wraps : (t + count r) % u32_mod ≡ t + m = rw counted (mod-eq_of_lt small) in
      subst (λ x. sum_each count x rest ≡ ok n) wraps h

  not_err :
      (e : RouterError E) (rest : List (Result (RouterError E) R)) (t n : ℕ)
      → ¬ (sum_each count t (err e ∷ rest) ≡ ok n)
  unfolding sum_each
  not_err e rest t n h = cc

module _ {C R Item : Type 0} ⦃ch : CarriesLeaderHint R⦄ (E : Type 0) (count : R → ℕ)
    (send : List Item → ℕ → C → Attempt R)
    (counts : (group : List Item) (round : ℕ) (c : C) (r : R)
      → send group round c ≡ response r
      → ch.leader_hint r ≡ ""
      → length group < u32_mod
      → count r ≡ length group) where
  -- What one call adds to a sum that ends well.
  group_counted :
      (shard shard' : ShardReplicaSet C) (group : List Item)
      (result rest : List (Result (RouterError E) R)) (t n : ℕ)
      → ShardIsValid shard
      → write_group send shard group ≡ some (shard', result)
      → sum_each count t (result ++ rest) ≡ ok n
      → t + length group < u32_mod
      → sum_each count (t + length group) rest ≡ ok n
  unfolding write_group call_with_retry IsAnswered
  group_counted shard shard' [] result rest t n v e h small =
      let none_sent : result ≡ [] = cc in
      let same : t ≡ t + 0 = omega arith in
      subst (λ x. sum_each count x rest ≡ ok n) same (rw none_sent at h)
  group_counted shard shard' (item ∷ group) result rest t n v e h small =
      let (hint, out, run, _, cases) =
        call_with_rounds-IsAnswered E shard (send (item ∷ group)) v.0 v.1 max_leader_attempts in
      let step : write_group send shard (item ∷ group)
          ≡ some (record shard { leader_hint = hint }, out ∷ []) =
        rw (run, write_group) in
      let one : result ≡ out ∷ [] =
        the_result shard' (record shard { leader_hint = hint }) result (out ∷ []) (sym e ∙ step) in
      elim cases [
        | inl (r, round, c, is_ok, final, found, sent) ↦
            let known : result ≡ ok r ∷ [] = one ∙ ap (λ o. o ∷ []) is_ok in
            added count r rest t (length (item ∷ group)) n
              (counts (item ∷ group) round c r sent final (omega (arith, small))) small
              (rw known at h)
        | inr (e', is_err) ↦
            let known : result ≡ err e' ∷ [] = one ∙ ap (λ o. o ∷ []) is_err in
            absurd (not_err count e' rest t n (rw known at h))
      ]
    where
      the_result :
          (a b : ShardReplicaSet C) (x y : List (Result (RouterError E) R))
          → ◌≡◌ {A = Option (ShardReplicaSet C × List (Result (RouterError E) R))}
              (some (a, x))
              (some (b, y))
          → x ≡ y
      the_result a b x y f = cc

  only_total : (t n : ℕ) → ◌≡◌ {A = Result (RouterError E) ℕ} (ok t) (ok n) → n ≡ t
  only_total t n h = cc

  each_counted :
      (shards shards' : List (ShardReplicaSet C)) (groups : List (List Item))
      (results : List (Result (RouterError E) R)) (t n : ℕ)
      → All ShardIsValid shards
      → length groups ≡ length shards
      → write_each send shards groups ≡ some (shards', results)
      → sum_each count t results ≡ ok n
      → t + lengths groups < u32_mod
      → n ≡ t + lengths groups
  unfolding write_each lengths sum_each
  each_counted [] shards' [] results t n v same e h small =
      let nothing : results ≡ [] = cc in
      let total : n ≡ t = only_total t n (rw nothing at h) in omega (arith, total)
  each_counted [] shards' (group ∷ groups) results t n v same e h small = absurd (omega arith)
  each_counted (shard ∷ shards) shards' [] results t n v same e h small = absurd (omega arith)
  each_counted (shard ∷ shards) shards' (group ∷ groups) results t n v same e h small =
      elim (Option-cases (write_group {E = E} send shard group)) [
        | inl f ↦ absurd (ground arith)
        | inr ((shard'', result), f) ↦ elim (Option-cases (write_each {E = E} send shards groups)) [
          | inl g ↦ absurd (ground arith)
          | inr ((rest', rest), g) ↦
              let split : results ≡ result ++ rest = ground arith in
              let later =
                group_counted shard shard'' group result rest t n v.0 f (rw split at h)
                  (omega (arith, small)) in
              omega (
                arith,
                each_counted shards rest' groups rest (t + length group) n v.1 (omega (arith, same))
                    g later (omega (arith, small)),
              )
        ]
      ]

module _ {C R Item : Type 0} ⦃ch : CarriesLeaderHint R⦄ (E : Type 0) (fxhash : ℕ → ℕ)
    (key : Item → ℕ) (count : R → ℕ) (send : List Item → ℕ → C → Attempt R) where
  -- Where each response that names no other leader counts the group of fewer than 2 ^ 32 items that
  -- was sent, a write of fewer than 2 ^ 32 items on a well-formed router that succeeds reports the
  -- number of all items.
  pub write_counts_all :
      (router : ShardRouter C) (items : List Item) (router' : ShardRouter C) (n : ℕ)
      → ((group : List Item) (round : ℕ) (c : C) (r : R)
          → send group round c ≡ response r
          → ch.leader_hint r ≡ ""
          → length group < u32_mod
          → count r ≡ length group)
      → IsValid router
      → length items < u32_mod
      → write {E = E} fxhash key count send router items ≡ some (router', ok n)
      → n ≡ length items
  write_counts_all router items router' n counts v small h =
      let shards = length router.shards in
      let groups = tabulate shards (λ s. filter (belongs fxhash key shards s) items) in
      let (shards', results, sent, run, _) = write-IsValid E fxhash key count send router items v in
      let all = grouped_all fxhash key shards items v.some_shard in
      let total : sum_each count 0 results ≡ ok n = the_total (sym run ∙ h) in
      omega (
        arith,
        all,
        each_counted E count send counts router.shards shards' groups results 0 n v.each
            (length-tabulate shards (λ s. filter (belongs fxhash key shards s) items)) sent total
            (omega (arith, all, small)),
      )
    where
      the_total :
          {a b : ShardRouter C} {x y : Result (RouterError E) ℕ}
          → ◌≡◌ {A = Option (ShardRouter C × Result (RouterError E) ℕ)} (some (a, x)) (some (b, y))
          → x ≡ y
      the_total f = cc
