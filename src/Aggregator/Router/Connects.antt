-- ===== src/Aggregator/Router/Connects.antt =====
-- `ShardRouter::connect`, over whatever the connection attempts give.
use raftvec.Base.{
  ℕ, suc, zero, ◌<◌, ◌≡◌, refl, ap, arith, some, List, [], ◌∷◌, map, String, Result, ok, err,
  Result-cases, length, All, ◌⊎◌, inl, inr,
}
use raftvec.Core.Sharding.{u32_mod}
use raftvec.Aggregator.Retry.{RouterError, ShardReplicaSet, connects, connect_with_retry}
use raftvec.Aggregator.Router.{ShardRouter, connect_replicas, connect_shards, connect}
use raftvec.Aggregator.Router.Totals.{ShardIsValid, IsValid}

module _ {C E : Type 0} where
  connects_returns :
      (connecting : ℕ → Result E C) (rounds attempt : ℕ) (e : E) (addr : String)
      → (out : Result (RouterError E) C) × (connects connecting rounds attempt (some e) addr
          ≡ some out)
  unfolding connects
  connects_returns connecting zero attempt e addr = (_, refl)
  connects_returns connecting (suc rounds) attempt e addr =
      elim (Result-cases (connecting attempt)) [
        | inl (client, f) ↦ (ok client, rw (f, connects))
        | inr (e', f) ↦
            let (out, run) = connects_returns connecting rounds (suc attempt) e' addr in
            (out, rw (f, connects) run)
      ]

  connect_with_retry_returns :
      (connecting : ℕ → Result E C) (addr : String)
      → (out : Result (RouterError E) C) × (connect_with_retry connecting addr ≡ some out)
  unfolding connect_with_retry connects
  connect_with_retry_returns connecting addr = elim (Result-cases (connecting 0)) [
    | inl (client, f) ↦ (ok client, rw (f, connect_with_retry, connects))
    | inr (e, f) ↦
        let (out, run) = connects_returns connecting 9 1 e addr in
        (out, rw (f, connect_with_retry, connects) run)
  ]

module _ {C E : Type 0} (connecting : String → ℕ → Result E C) where
  replicas_returned :
      (addrs : List String)
      → ((clients : List C) × (connect_replicas connecting addrs ≡ some (ok clients))
          × (length addrs ≡ length clients))
        ⊎ ((e : RouterError E) × (connect_replicas connecting addrs ≡ some (err e)))
  unfolding connect_replicas
  replicas_returned [] = inl ([], refl, refl)
  replicas_returned (addr ∷ addrs) =
      let (out, f) = connect_with_retry_returns (connecting addr) addr in
      elim (Result-cases out) [
        | inr (e, which) ↦ inr (e, rw (f, which, connect_replicas))
        | inl (client, which) ↦ elim (replicas_returned addrs) [
          | inl (clients, g, same) ↦
              inl (client ∷ clients, rw (f, which, g, connect_replicas), ap suc same)
          | inr (e, g) ↦ inr (e, rw (f, which, g, connect_replicas))
        ]
      ]

  shards_returned :
      (shard_addrs : List (List String))
      → All (λ addrs. 0 < length addrs) shard_addrs
      → ((shards : List (ShardReplicaSet C)) × (connect_shards connecting shard_addrs
            ≡ some (ok shards))
          × All ShardIsValid shards
          × (map (λ shard. shard.addrs) shards ≡ shard_addrs)
          × (length shards ≡ length shard_addrs))
        ⊎ ((e : RouterError E) × (connect_shards connecting shard_addrs ≡ some (err e)))
  unfolding connect_shards
  shards_returned [] h = inl ([], refl, tt, refl, refl)
  shards_returned (addrs ∷ rest) h = elim (replicas_returned addrs) [
    | inr (e, f) ↦ inr (e, rw (f, connect_shards))
    | inl (clients, f, same) ↦ elim (shards_returned rest h.1) [
      | inr (e, g) ↦ inr (e, rw (f, g, connect_shards))
      | inl (shards, g, valid, kept, size) ↦ inl (
        record { clients = clients; addrs = addrs; leader_hint = 0 } ∷ shards,
        rw (f, g, connect_shards),
        (
          (
            record { same = same; some_replica = omega (arith, same, h.0) },
            omega (arith, same, h.0),
          ),
          valid,
        ),
        ap (◌∷◌ addrs) kept,
        ap suc size,
      )
    ]
  ]

  -- For a `u32` of shards, at least one, each with at least one address: whatever the connection
  -- attempts give, `connect` does not panic, and it returns an error or a well-formed router with
  -- the given addresses.
  pub connect-IsValid :
      (shard_addrs : List (List String)) (deadline : ℕ)
      → All (λ addrs. 0 < length addrs) shard_addrs
      → 0 < length shard_addrs
      → length shard_addrs < u32_mod
      → ((router : ShardRouter C) × (connect connecting shard_addrs deadline ≡ some (ok router))
          × IsValid router
          × (router.deadline ≡ deadline)
          × (map (λ shard. shard.addrs) router.shards ≡ shard_addrs))
        ⊎ ((e : RouterError E) × (connect connecting shard_addrs deadline ≡ some (err e)))
  unfolding connect
  connect-IsValid shard_addrs deadline h p small = elim (shards_returned shard_addrs h) [
    | inr (e, f) ↦ inr (e, rw (f, connect))
    | inl (shards, f, valid, kept, size) ↦ inl (
      record { shards = shards; deadline = deadline },
      rw (f, connect),
      record {
        each = valid;
        some_shard = omega (arith, size, p);
        fits = omega (arith, size, small);
      },
      refl,
      kept,
    )
  ]
