-- ===== src/Aggregator/Router/Totals.antt =====
-- `ShardRouter::insert` and `delete`, and what makes a router well-formed.
use raftvec.Base.{ℕ, suc, ◌<◌, ◌≡◌, refl, ap, arith, some, List, [], ◌∷◌, ◌++◌, Result, length, All}
use native.Mathlib.Nat.{mod-eq_of_lt}
use raftvec.Core.Sharding.{u32_mod}
use raftvec.Aggregator.Retry.{
  RouterError, ShardReplicaSet, CarriesLeaderHint, Attempt, call_with_retry, max_leader_attempts,
}
use raftvec.Aggregator.Retry.Bounds
use raftvec.Aggregator.Retry.Bounds.{IsAnswered, call_with_rounds-IsAnswered}
use raftvec.Aggregator.Grouping.{group_by_shard, group_by_shard_lem, tabulate, filter, belongs}
use raftvec.Aggregator.Router.{ShardRouter, shard_count, write_group, write_each, sum_each, write}

module _ {C : Type 0} where
  -- A shard has a replica, an address for each, and a leader hint in range.
  abbrev pub ShardIsValid : ShardReplicaSet C → Type 0
  ShardIsValid shard = Bounds.IsValid shard × (shard.leader_hint < length shard.clients)

  -- There is a shard, there are at most `u32` many, and each is valid.
  pub record IsValid (router : ShardRouter C) : Type 0 where
    pub each : All ShardIsValid router.shards
    pub some_shard : 0 < length router.shards
    pub fits : length router.shards < u32_mod

module _ {C R Item : Type 0} ⦃ch : CarriesLeaderHint R⦄ (E : Type 0)
    (send : List Item → ℕ → C → Attempt R) where
  write_group-IsValid :
      (shard : ShardReplicaSet C) (group : List Item)
      → ShardIsValid shard
      → (shard' : ShardReplicaSet C) × (result : List (Result (RouterError E) R)) × (write_group
            send shard group
          ≡ some (shard', result))
        × ShardIsValid shard'
  unfolding write_group call_with_retry IsAnswered
  write_group-IsValid shard [] v = (shard, [], refl, v)
  write_group-IsValid shard (item ∷ group) v =
      let (hint, out, run, small, rest) =
        call_with_rounds-IsAnswered E shard (send (item ∷ group)) v.0 v.1 max_leader_attempts in
      (
        record shard { leader_hint = hint },
        out ∷ [],
        rw (run, write_group),
        (record { same = v.0.same; some_replica = v.0.some_replica }, small),
      )

  write_each-IsValid :
      (shards : List (ShardReplicaSet C)) (groups : List (List Item))
      → All ShardIsValid shards
      → (shards' : List (ShardReplicaSet C)) × (results : List (Result (RouterError E) R))
        × (write_each send shards groups ≡ some (shards', results))
        × All ShardIsValid shards'
        × (length shards' ≡ length shards)
  unfolding write_each
  write_each-IsValid [] groups v = ([], [], refl, tt, refl)
  write_each-IsValid (shard ∷ shards) [] v = (shard ∷ shards, [], refl, v, refl)
  write_each-IsValid (shard ∷ shards) (group ∷ groups) v =
      let (shard', result, e, w) = write_group-IsValid shard group v.0 in
      let (shards', results, f, ws, same) = write_each-IsValid shards groups v.1 in
      (shard' ∷ shards', result ++ results, rw (e, f, write_each), (w, ws), ap suc same)

module _ {C R Item : Type 0} ⦃ch : CarriesLeaderHint R⦄ (E : Type 0) (fxhash : ℕ → ℕ)
    (key : Item → ℕ) (count : R → ℕ) (send : List Item → ℕ → C → Attempt R) where
  write_of :
      (router : ShardRouter C) (items : List Item) (groups : List (List Item))
      (shards' : List (ShardReplicaSet C)) (results : List (Result (RouterError E) R))
      → group_by_shard fxhash key (shard_count router) items ≡ some groups
      → write_each send router.shards groups ≡ some (shards', results)
      → write fxhash key count send router items
        ≡ some (record router { shards = shards' }, sum_each count 0 results)
  unfolding write
  write_of router items groups shards' results e f = rw (write, e, f)

  -- On a well-formed router a write does not panic: `write_each` and `sum_each` are run on the groups
  -- of the items, and the router stays well-formed.
  pub write-IsValid :
      (router : ShardRouter C) (items : List Item)
      → IsValid router
      → (shards' : List (ShardReplicaSet C)) × (results : List (Result (RouterError E) R))
        × (let n = length router.shards in
            write_each send router.shards (tabulate n (λ s. filter (belongs fxhash key n s) items))
            ≡ some (shards', results))
        × (write fxhash key count send router items
            ≡ some (record router { shards = shards' }, sum_each count 0 results))
        × IsValid (record router { shards = shards' })
  write-IsValid router items v =
      let n = length router.shards in
      let all : shard_count router ≡ n = mod-eq_of_lt v.fits in
      let grouped = group_by_shard_lem fxhash key n v.some_shard v.fits items in
      let (shards', results, sent, each, same) =
        write_each-IsValid E send router.shards
          (tabulate n (λ s. filter (belongs fxhash key n s) items)) v.each in
      (
        shards',
        results,
        sent,
        write_of router items (tabulate n (λ s. filter (belongs fxhash key n s) items)) shards'
            results (rw all grouped) sent,
        record {
          each = each;
          some_shard = omega (arith, same, v.some_shard);
          fits = omega (arith, same, v.fits);
        },
      )
