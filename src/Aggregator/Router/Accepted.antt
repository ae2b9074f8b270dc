-- ===== src/Aggregator/Router/Accepted.antt =====
-- `ShardRouter::insert` and `delete` that succeed: which replicas have answered.
use raftvec.Base.{
  ℕ, zero, suc, ◌+◌, ◌%◌, ◌<◌, ◌≡◌, refl, sym, ◌∙◌, ap, subst, arith, Bool, true, Option, some,
  Option-cases, Bool-cases, inl, inr, List, [], ◌∷◌, ◌++◌, Result, ok, err, length, get_elem?,
  get_elem?-lt, All, nat_eq,
}
use native.Mathlib.Nat.{mod-lt}
use raftvec.Core.Sharding.{u32_mod}
use raftvec.Aggregator.Retry.{
  RouterError, insert_hint, ShardReplicaSet, CarriesLeaderHint, Attempt, response, call_with_retry,
  max_leader_attempts,
}
use raftvec.Aggregator.Retry.Bounds.{IsAnswered, call_with_rounds-IsAnswered}
use raftvec.Aggregator.Grouping.{tabulate, filter, belongs, get_elem?-tabulate}
use raftvec.Aggregator.Router.{ShardRouter, write_group, write_each, sum_each, write}
use raftvec.Aggregator.Router.Totals.{ShardIsValid, IsValid, write-IsValid}

module _ {C R Item : Type 0} ⦃ch : CarriesLeaderHint R⦄ (send : List Item → ℕ → C → Attempt R) where
  -- A replica of the shard has answered the group, and names no other leader.
  abbrev pub Accepted : ShardReplicaSet C → List Item → Type 0
  Accepted shard group =
      (r : R) × (round : ℕ) × (j : ℕ) × (c : C) × (get_elem? shard.clients j ≡ some c)
      × (send group round c ≡ response r)
      × (ch.leader_hint r ≡ "")

module _ {E R : Type 0} where
  unfoldable AllOk : List (Result (RouterError E) R) → Type 0
  AllOk = All λ result. (r : R) × (result ≡ ok r)

  sum_each_ok :
      (count : R → ℕ) (t n : ℕ) (results : List (Result (RouterError E) R))
      → sum_each count t results ≡ ok n
      → AllOk results
  unfolding sum_each AllOk
  sum_each_ok count t n [] h = tt
  sum_each_ok count t n (ok r ∷ results) h =
      ((r, refl), sum_each_ok count ((t + count r) % u32_mod) n results h)
  sum_each_ok count t n (err e ∷ results) h = absurd (cc)

  AllOk-append : (xs ys : List (Result (RouterError E) R)) → AllOk (xs ++ ys) → AllOk xs × AllOk ys
  unfolding AllOk
  AllOk-append [] ys h = (tt, h)
  AllOk-append (x ∷ xs) ys h = let (hx, hy) = AllOk-append xs ys h.1 in ((h.0, hx), hy)

module _ {C R Item E : Type 0} ⦃ch : CarriesLeaderHint R⦄
    (send : List Item → ℕ → C → Attempt R) where
  group-Accepted :
      (shard shard' : ShardReplicaSet C) (item : Item) (group : List Item)
      (result : List (Result (RouterError E) R))
      → ShardIsValid shard
      → write_group send shard (item ∷ group) ≡ some (shard', result)
      → AllOk result
      → Accepted send shard (item ∷ group)
  unfolding write_group call_with_retry IsAnswered AllOk
  group-Accepted shard shard' item group result v e oks =
      let (hint, out, run, _, cases) =
        call_with_rounds-IsAnswered E shard (send (item ∷ group)) v.0 v.1 max_leader_attempts in
      elim cases [
        | inl (r, round, c, _, final, found, sent) ↦ (r, round, hint, c, found, sent, final)
        | inr (e', is_err) ↦
            let one : result ≡ err e' ∷ [] = ground arith in
            let ((r, bad), _) = rw one at oks in absurd (cc)
      ]

  -- The first group and the others.
  write_each_ok :
      (shard : ShardReplicaSet C) (shards shards' : List (ShardReplicaSet C)) (group : List Item)
      (groups : List (List Item)) (results : List (Result (RouterError E) R))
      → write_each send (shard ∷ shards) (group ∷ groups) ≡ some (shards', results)
      → AllOk results
      → ((shard' : ShardReplicaSet C) × (result : List (Result (RouterError E) R)) × (write_group
              send shard group
            ≡ some (shard', result))
          × AllOk result)
        × ((rest' : List (ShardReplicaSet C)) × (rest : List (Result (RouterError E) R))
            × (write_each send shards groups ≡ some (rest', rest))
            × AllOk rest)
  unfolding write_each
  write_each_ok shard shards shards' group groups results e oks =
      elim (Option-cases (write_group {E = E} send shard group)) [
        | inl f ↦ absurd (ground arith)
        | inr ((shard', result), f) ↦ elim (Option-cases (write_each {E = E} send shards groups)) [
          | inl h ↦ absurd (ground arith)
          | inr ((rest', rest), h) ↦
              let split : results ≡ result ++ rest = ground arith in
              let (first, later) = AllOk-append result rest (subst AllOk split oks) in
              ((shard', result, f, first), (rest', rest, h, later))
        ]
      ]

  write_each-Accepted :
      (shards shards' : List (ShardReplicaSet C)) (groups : List (List Item))
      (results : List (Result (RouterError E) R)) (s : ℕ) (shard : ShardReplicaSet C) (item : Item)
      (group : List Item)
      → All ShardIsValid shards
      → write_each send shards groups ≡ some (shards', results)
      → AllOk results
      → get_elem? shards s ≡ some shard
      → get_elem? groups s ≡ some (item ∷ group)
      → Accepted send shard (item ∷ group)
  write_each-Accepted [] shards' groups results s shard item group v e oks at of = absurd (cc)
  write_each-Accepted (d ∷ shards) shards' [] results s shard item group v e oks at of = absurd (cc)
  write_each-Accepted (d ∷ shards) shards' (g ∷ groups) results zero shard item group v e oks at
        of =
      let ((d', result, f, first), _) = write_each_ok d shards shards' g groups results e oks in
      let same : d ≡ shard = ground arith in
      let sent : g ≡ item ∷ group = ground arith in
      group-Accepted shard d' item group result (subst ShardIsValid same v.0)
        (sym (ap (write_group {E = E} send shard) sent)
          ∙ sym (ap (λ x. write_group {E = E} send x g) same)
          ∙ f)
        first
  write_each-Accepted (d ∷ shards) shards' (g ∷ groups) results (suc s) shard item group v e oks at
        of =
      let (_, (rest', rest, h, later)) = write_each_ok d shards shards' g groups results e oks in
      write_each-Accepted shards rest' groups rest s shard item group v.1 h later at of

module _ {Item : Type 0} where
  filter_has :
      (p : Item → Bool) (items : List Item) (j : ℕ) (item : Item)
      → get_elem? items j ≡ some item
      → p item ≡ true
      → (k : ℕ) × (get_elem? (filter p items) k ≡ some item)
  unfolding filter
  filter_has p [] j item h q = absurd (cc)
  filter_has p (x ∷ items) zero item h q = (0, ground arith)
  filter_has p (x ∷ items) (suc j) item h q =
      let (k, e) = filter_has p items j item h q in
      elim (Bool-cases (p x)) [ inl t ↦ (suc k, ground arith) | inr f ↦ (k, ground arith) ]

module _ {C Item : Type 0} (fxhash : ℕ → ℕ) (key : Item → ℕ) where
  -- The items that go to the shard of an item.
  abbrev pub together : ShardRouter C → List Item → Item → List Item
  together router items item =
      filter (belongs fxhash key (length router.shards) (fxhash (key item) % length router.shards))
        items

module _ {C R Item : Type 0} ⦃ch : CarriesLeaderHint R⦄ (E : Type 0) (fxhash : ℕ → ℕ)
    (key : Item → ℕ) (count : R → ℕ) (send : List Item → ℕ → C → Attempt R) where
  belongs_there : (n : ℕ) (item : Item) → belongs fxhash key n (fxhash (key item) % n) item ≡ true
  belongs_there n item = ground arith

  nonempty :
      (g : List Item) (k : ℕ) (item : Item)
      → get_elem? g k ≡ some item
      → (first : Item) × (rest : List Item) × (g ≡ first ∷ rest)
  nonempty [] k item h = absurd (cc)
  nonempty (x ∷ g) k item h = (x, g, refl)

  one_result :
      (results : List (Result (RouterError E) R)) (a router' : ShardRouter C) (n : ℕ)
      → ◌≡◌ {A = Option (ShardRouter C × Result (RouterError E) ℕ)}
          (some (a, sum_each count 0 results))
          (some (router', ok n))
      → AllOk results
  one_result results a router' n h = sum_each_ok count 0 n results (cc)

  -- Where a write succeeds, each item is in the group of its shard, and a replica of the shard has
  -- answered the group and names no other leader.
  pub write-Accepted :
      (router router' : ShardRouter C) (items : List Item) (n j : ℕ) (item : Item)
      → IsValid router
      → write {E = E} fxhash key count send router items ≡ some (router', ok n)
      → get_elem? items j ≡ some item
      → (shard : ShardReplicaSet C) × (get_elem? router.shards
            (fxhash (key item) % length router.shards)
          ≡ some shard)
        × ((k : ℕ) × (get_elem? (together fxhash key router items item) k ≡ some item))
        × Accepted send shard (together fxhash key router items item)
  write-Accepted router router' items n j item v h at =
      let len = length router.shards in
      let s = fxhash (key item) % len in
      let (shards', results, sent, run, _) = write-IsValid E fxhash key count send router items v in
      let oks = one_result results (record router { shards = shards' }) router' n (sym run ∙ h) in
      let lt : s < len = mod-lt (fxhash (key item)) v.some_shard in
      let (shard, found) = get_elem?-lt router.shards s lt in
      let (k, member) =
        filter_has (belongs fxhash key len s) items j item at (belongs_there len item) in
      let group = get_elem?-tabulate len s (λ s. filter (belongs fxhash key len s) items) lt in
      let (first, rest, cons) = nonempty (together fxhash key router items item) k item member in
      (
        shard,
        found,
        (k, member),
        subst (Accepted send shard) (sym cons) (
            write_each-Accepted send router.shards shards'
              (tabulate len (λ s. filter (belongs fxhash key len s) items)) results s shard first
              rest v.each sent oks found (group ∙ ap some cons)),
      )
