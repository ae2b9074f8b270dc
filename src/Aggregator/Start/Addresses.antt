-- ===== src/Aggregator/Start/Addresses.antt =====
-- The addresses of crates/raftvec-aggregator/src/main.rs, and those of a node's `--peers` in
-- crates/raftvec-node/src/main.rs.
use raftvec.Base.{
  ℕ, suc, zero, ◌<◌, ◌≡◌, refl, sym, ◌∙◌, ap, arith, Bool, true, false, some, Option-cases,
  Bool-cases, inl, inr, ◌⊎◌, List, [], ◌∷◌, String, Result, ok, err, map, length, length-map,
  get_elem?, All, ◌==◌, nat_eq, string_eq,
}
use text.Mathlib.TextEquality.{eq_iff}
use raftvec.BTreeMap
use raftvec.BTreeMap.{BTreeMap}
use raftvec.Core.Sharding.{u32_mod}
use raftvec.Text.{split, split_once}
use raftvec.Node.Start as NodeStart
use raftvec.Node.Start.{BasicNode, parse_peers}
use raftvec.Node.Start.Peers.{last_addr, parse_peers_lem}
use raftvec.Aggregator.Retry.{position}
use raftvec.Aggregator.Router.{ShardRouter}
use raftvec.Aggregator.Router.Totals.{IsValid}
use raftvec.Aggregator.Router.Connects.{connect-IsValid}
use raftvec.Aggregator.Start.{
  Args, normalize, shard_replica_addrs, StartError, start, router, installing,
}

split-pos : (sep : ℕ) (s : String) → 0 < length (split sep s)
unfolding split
split-pos sep String.[] = omega arith
split-pos sep (String.◌∷◌ c s) = ground (arith, split-pos sep s)

addrs-pos : (shards : List String) → All (λ addrs. 0 < length addrs) (shard_replica_addrs shards)
unfolding shard_replica_addrs
addrs-pos [] = tt
addrs-pos (shard ∷ shards) =
    (omega (arith, split-pos 44 shard, length-map normalize (split 44 shard)), addrs-pos shards)

-- For a `u32` of `--shard` flags, at least one: whatever the exporter and the connection attempts
-- give, starting the aggregator does not panic, and ends with an error or a well-formed router with
-- the deadline and the addresses of the flags.
pub start-IsValid :
    {C E : Type 0} (install : Bool) (connecting : String → ℕ → Result E C) (args : Args)
    → 0 < length args.shards
    → length args.shards < u32_mod
    → ((r : ShardRouter C) × (start install connecting args ≡ some (ok r))
        × IsValid r
        × (r.deadline ≡ args.deadline_ms)
        × (map (λ shard. shard.addrs) r.shards ≡ shard_replica_addrs args.shards))
      ⊎ ((e : StartError E) × (start install connecting args ≡ some (err e)))
unfolding start
start-IsValid false connecting args pos small = inr (installing, refl)
start-IsValid true connecting args pos small =
    let addrs = shard_replica_addrs args.shards in
    let size = length-map (λ shard. map normalize (split 44 shard)) args.shards in
    elim (connect-IsValid connecting addrs args.deadline_ms (addrs-pos args.shards)
      (omega (arith, size)) (omega (arith, size))) [
        | inl (r, e, v, deadline, kept) ↦ inl (r, rw e refl, v, deadline, kept)
        | inr (e, f) ↦ inr (router e, rw f refl)
      ]

position_found :
    (addrs : List String) (i : ℕ) (addr : String)
    → get_elem? addrs i ≡ some addr
    → (j : ℕ) × (position addrs addr ≡ some j) × (get_elem? addrs j ≡ some addr)
unfolding position
position_found [] i addr h = absurd (cc)
position_found (a ∷ addrs) zero addr h = (0, ground (arith, eq_iff a addr), h)
position_found (a ∷ addrs) (suc i) addr h =
    let (j, at, is) = position_found addrs i addr h in
    elim (Bool-cases (a == addr)) [
      | inl e ↦ (0, ground arith, ap some ((eq_iff a addr).0 e))
      | inr e ↦ (suc j, ground arith, is)
    ]

get_elem?-map :
    {A B : Type 0} (f : A → B) (xs : List A) (i : ℕ) (x : A)
    → get_elem? xs i ≡ some x
    → get_elem? (map f xs) i ≡ some (f x)
get_elem?-map f [] i x h = absurd (cc)
get_elem?-map f (y ∷ xs) zero x h = ground arith
get_elem?-map f (y ∷ xs) (suc i) x h = get_elem?-map f xs i x h

-- The address that a peer has after its `=` is one of the addresses of the shard.
abbrev pub IsOf : String → String → Type 0
IsOf shard p =
    (id_str : String) × (addr : String) × (i : ℕ) × (split_once 61 p ≡ some (id_str, addr))
    × (get_elem? (split 44 shard) i ≡ some addr)

last_addr_of_shard :
    (shard : String) (peers : List String) (id : ℕ) (node : BasicNode)
    → All (IsOf shard) peers
    → last_addr id peers ≡ some node
    → (i : ℕ) × (get_elem? (map normalize (split 44 shard)) i ≡ some node.addr)
unfolding normalize NodeStart.normalize
last_addr_of_shard shard [] id node all h = absurd (cc)
last_addr_of_shard shard (p ∷ peers) id node ((id_str, addr, i, e, at), all) h =
    elim (Option-cases (last_addr id peers)) [
      | inr (n, f) ↦ last_addr_of_shard shard peers id node all (ground arith)
      | inl f ↦ (i, get_elem?-map normalize (split 44 shard) i addr at ∙ ap some (ground arith))
    ]

-- Where the address of each of a node's `--peers` is one of the addresses of the aggregator's
-- `--shard`: the address that the node has for any id of its membership is found among the
-- addresses of the aggregator's shard, and the replica found has that address.
pub hint_is_replica :
    {E : Type 0} (shard : String) (peers : List String) (members : BTreeMap BasicNode) (id : ℕ)
    (node : BasicNode)
    → All (IsOf shard) peers
    → parse_peers {E = E} peers ≡ ok members
    → BTreeMap.get members id ≡ some node
    → (j : ℕ) × (position (map normalize (split 44 shard)) node.addr ≡ some j)
      × (get_elem? (map normalize (split 44 shard)) j ≡ some node.addr)
hint_is_replica {E} shard peers members id node all parsed known =
    elim (parse_peers_lem {E = E} peers) [
      | inr (bad, e, f) ↦ absurd (cc)
      | inl (good, m, f, found) ↦
          let same : members ≡ m = ground arith in
          let (i, at) =
            last_addr_of_shard shard peers id node all
              (sym (found id) ∙ ap (λ m. BTreeMap.get m id) (sym same) ∙ known) in
          position_found (map normalize (split 44 shard)) i node.addr at
    ]
