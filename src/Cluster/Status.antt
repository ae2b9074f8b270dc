-- ===== src/Cluster/Status.antt =====
-- `ShardRouter::cluster_status` of crates/raftvec-aggregator/src/router.rs, over replicas that answer by
-- `NodeService::cluster_status` of crates/raftvec-node/src/service.rs.
use raftvec.Base.{
  ℕ, ◌+◌, ◌%◌, ◌≡◌, ◌<◌, refl, sym, ap, ◌∙◌, arith, Option, none, some, List, [], ◌∷◌, ◌++◌, map,
  String, Bool, true, false, ◌||◌, Result, ok, err, length, nat_eq, string_eq, ◌==◌, Bool-cases,
  inl, inr, Option-cases,
}
use text.Mathlib.TextEquality.{eq_iff}
use raftvec.HashMap
use raftvec.HashMap.{HashMap}
use raftvec.Core.Sharding.{u32_mod}
use raftvec.Proto.{Status, unavailable, ClusterStatusResponse}
use raftvec.Node.Store
use raftvec.Node.Store.{Store, Collection, sum_counts}
use raftvec.Node.Service
use raftvec.Aggregator.Retry.{ShardReplicaSet}
use raftvec.Aggregator.Router.{ShardRouter}
use raftvec.Aggregator.Router.Queries.{has_name, extend, first_status, status_each, cluster_status}
use raftvec.Aggregator.Router.Fanout.{answering}

-- Each name once.
abbrev pub IsDistinct : List String → Type 0
IsDistinct [] = Unit
IsDistinct (n ∷ names) = (has_name n names ≡ false) × IsDistinct names

has_name-append :
    (name n : String) (names : List String)
    → has_name name (names ++ (n ∷ [])) ≡ (has_name name names || n == name)
has_name-append name n [] = ground arith
has_name-append name n (m ∷ names) = ground (arith, has_name-append name n names)

IsDistinct-append :
    (n : String) (names : List String)
    → has_name n names ≡ false
    → IsDistinct names
    → IsDistinct (names ++ (n ∷ []))
IsDistinct-append n [] h d = (refl, tt)
IsDistinct-append n (m ∷ names) h d = (
  ground (arith, has_name-append m n names, eq_iff n m, eq_iff m n, d.0),
  IsDistinct-append n names (ground arith) d.1,
)

extend_lem :
    (names more : List String) (name : String)
    → IsDistinct names
    → (has_name name (extend names more) ≡ (has_name name names || has_name name more))
      × IsDistinct (extend names more)
unfolding extend
extend_lem names [] name d = (ground arith, d)
extend_lem names (n ∷ more) name d = elim (Bool-cases (has_name n names)) [
  | inl old ↦
      let (has, distinct) = extend_lem names more name d in
      rw (old, extend)
        (
          has
              ∙ absorbed n name (has_name name names) (has_name name more)
                  (λ e. ap (λ x. has_name x names) (sym e) ∙ old),
          distinct,
        )
  | inr new ↦
      let (has, distinct) =
        extend_lem (names ++ (n ∷ [])) more name (IsDistinct-append n names new d) in
      rw (new, extend) (has ∙ ground (arith, has_name-append name n names), distinct)
]
  where
    absorbed :
        (n name : String) (old more : Bool)
        → (n ≡ name → old ≡ true)
        → (old || more) ≡ (old || (n == name || more))
    absorbed n name old more h = elim (Bool-cases (n == name)) [
      | inl t ↦ let yes : old ≡ true = h ((eq_iff n name).0 t) in ground arith
      | inr f ↦ ground arith
    ]

-- The vectors of all collections.
abbrev pub vectors_of : {F : Type 0} → List (Collection F) → ℕ
vectors_of [] = 0
vectors_of (c ∷ cs) = length c.vectors + vectors_of cs

module _ {F : Type 0} where
  sum_counts_lem : (cs : List (Collection F)) → sum_counts cs ≡ vectors_of cs % u32_mod
  unfolding sum_counts
  sum_counts_lem [] = omega arith
  sum_counts_lem (c ∷ cs) = omega (arith, sum_counts_lem cs)

  has_name-keys :
      (name : String) (m : HashMap String (Collection F))
      → has_name name (HashMap.keys m) ≡ HashMap.contains_key m name
  unfolding HashMap.contains_key HashMap.get
  has_name-keys name [] = refl
  has_name-keys name ((k, c) ∷ m) = ground (arith, has_name-keys name m)

  -- The vectors of the stores, and whether one of them has the collection.
  abbrev pub total_of : List (Store F) → ℕ
  total_of [] = 0
  total_of (s ∷ ss) = vectors_of (HashMap.values s.collections) + total_of ss

  abbrev pub known_to : String → List (Store F) → Bool
  known_to name [] = false
  known_to name (s ∷ ss) = HashMap.contains_key s.collections name || known_to name ss

module _ {C F : Type 0} (node : C → Option (Store F)) where
  -- A replica that is up answers by its service.
  abbrev pub answer : C → Result Status ClusterStatusResponse
  answer c = elim (node c) [ none ↦ err unavailable | some s ↦ ok (Service.cluster_status s) ]

  -- The store of the first replica of a shard that is up.
  abbrev pub first_up : List C → Option (Store F)
  first_up [] = none
  first_up (c ∷ cs) = elim (node c) [ none ↦ first_up cs | some s ↦ some s ]

  abbrev pub stores_up : List (ShardReplicaSet C) → List (Store F)
  stores_up shards = answering (map (λ shard. first_up shard.clients) shards)

  first_status_lem :
      (cs : List C)
      → first_status answer cs
        ≡ (elim (first_up cs) [ none ↦ none | some s ↦ some (Service.cluster_status s) ])
  unfolding first_status
  first_status_lem [] = refl
  first_status_lem (c ∷ cs) = elim (Option-cases (node c)) [
    | inl e ↦ rw (e, first_status) (first_status_lem cs)
    | inr (s, e) ↦ rw (e, first_status) refl
  ]

  status_each_lem :
      (shards : List (ShardReplicaSet C)) (names : List String) (total : ℕ) (name : String)
      → IsDistinct names
      → total < u32_mod
      → (let (names', total') = status_each answer shards names total in
          (total' ≡ (total + total_of (stores_up shards)) % u32_mod)
          × (has_name name names' ≡ (has_name name names || known_to name (stores_up shards)))
          × IsDistinct names')
  unfolding status_each Service.cluster_status Store.cluster_status
  status_each_lem [] names total name d lt = (omega arith, ground arith, d)
  status_each_lem (shard ∷ shards) names total name d lt =
      elim (Option-cases (first_up shard.clients)) [
        | inl e ↦
            rw (first_status_lem shard.clients, e, status_each)
              (status_each_lem shards names total name d lt)
        | inr (s, e) ↦
            let (has, distinct) = extend_lem names (HashMap.keys s.collections) name d in
            let counted = sum_counts_lem (HashMap.values s.collections) in
            let (count', has', distinct') =
              status_each_lem shards (extend names (HashMap.keys s.collections))
                ((total + sum_counts (HashMap.values s.collections)) % u32_mod) name distinct
                (omega arith) in
            rw (first_status_lem shard.clients, e, status_each)
              (
                omega (arith, count', counted),
                has' ∙ ground (arith, has, has_name-keys name s.collections),
                distinct',
              )
      ]

  -- The status of the cluster, over replicas of which some are down and the others answer by their
  -- service: of each shard it takes the first replica that is up. The count is the number of all
  -- vectors of these replicas as a `u32`; the names are those of their collections, each once.
  pub cluster_status_lem :
      (router : ShardRouter C) (name : String)
      → (let (names, total) = cluster_status answer router in
          (total ≡ total_of (stores_up router.shards) % u32_mod)
          × (has_name name names ≡ known_to name (stores_up router.shards))
          × IsDistinct names)
  unfolding cluster_status
  cluster_status_lem router name =
      let (count, has, distinct) = status_each_lem router.shards [] 0 name tt (omega arith) in
      (count ∙ omega arith, has, distinct)
