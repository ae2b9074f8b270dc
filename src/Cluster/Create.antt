-- ===== src/Cluster/Create.antt =====
-- `ShardRouter::create_collection` of crates/raftvec-aggregator/src/router.rs over replicas that answer
-- by `NodeService::create_collection` of crates/raftvec-node/src/service.rs.
use mathlib.Core.List.{flatten}
use raftvec.Base.{
  ℕ, ◌≡◌, ◌⊎◌, inl, inr, refl, arith, max, true, Option, none, some, Option-cases, List, [], ◌∷◌,
  map, String, Result, ok, err, All, get_elem?, suc, string_eq, Eq, ◌==◌, ◌≢◌, if◌then◌else◌, ◌∙◌,
  sym, ap,
}
use text.Mathlib.TextEquality.{eq_iff}
use raftvec.HashMap
use raftvec.HashMap.Laws.{get-insert}
use raftvec.Proto.{Status, already_exists, CreateCollectionRequest, CreateCollectionResponse}
use raftvec.Node.Store
use raftvec.Node.Store.{Store, Collection}
use raftvec.Node.Service
use raftvec.Aggregator.Retry.{rpc, unwrap_or}
use raftvec.Aggregator.Router
use raftvec.Aggregator.Router.{ShardRouter, shard_count, first_err, call_each}

abbrev pub Apart : {C : Type 0} → List C → Type 0
Apart [] = Unit
Apart (c ∷ cs) = All (λ d. c ≢ d) cs × Apart cs

-- All the replicas of all the shards.
abbrev pub replicas : {C : Type 0} → ShardRouter C → List C
replicas router = flatten (map (λ shard. shard.clients) router.shards)

module _ {F : Type 0} where
  abbrev pub fresh : CreateCollectionRequest → Collection F
  fresh req = record { dim = req.dim; shard_count = max req.shard_count 1; vectors = [] }

  abbrev pub at : Store F → String → Option (Collection F)
  at s name = HashMap.get s.collections name

  -- What a replica's service makes of its store, and what it answers.
  abbrev pub after : CreateCollectionRequest → Store F → Store F
  after req s = (Service.create_collection s req).0

  abbrev pub answer : CreateCollectionRequest → Store F → Result Status CreateCollectionResponse
  answer req s = (Service.create_collection s req).1

  answer_cases :
      (req : CreateCollectionRequest) (s : Store F)
      → ((at s req.name ≡ none) × (answer req s ≡ ok (record { created = true })))
        ⊎ ((d : Collection F) × (at s req.name ≡ some d) × (answer req s ≡ err already_exists))
  unfolding Service.create_collection Store.create_collection HashMap.contains_key
      Service.from_store_error
  answer_cases req s = elim (Option-cases (at s req.name)) [
    | inl e ↦ inl (e, ground arith)
    | inr (d, e) ↦ inr (d, e, ground arith)
  ]

  held_after :
      (req : CreateCollectionRequest) (s : Store F)
      → at (after req s) req.name ≡ some (unwrap_or (at s req.name) (fresh req))
  unfolding Service.create_collection Store.create_collection HashMap.contains_key
  held_after req s = elim (Option-cases (at s req.name)) [
    | inl e ↦
        ground
          (arith, eq_iff req.name req.name, get-insert s.collections req.name req.name (fresh req))
    | inr (d, e) ↦ ground arith
  ]

module _ {C F : Type 0} where
  results_cases :
      (E : Type 0) (stores : C → Store F) (req : CreateCollectionRequest) (cs : List C)
      → (All (λ c. at (stores c) req.name ≡ none) cs
          × (first_err {E = E} (map (λ c. answer req (stores c)) cs) ≡ ok tt))
        ⊎ (((j : ℕ) × (c : C) × (d : Collection F) × (get_elem? cs j ≡ some c)
              × (at (stores c) req.name ≡ some d))
            × (first_err {E = E} (map (λ c. answer req (stores c)) cs) ≡ err (rpc already_exists)))
  unfolding first_err
  results_cases E stores req [] = inl (tt, refl)
  results_cases E stores req (c ∷ cs) = elim (answer_cases req (stores c)) [
    | inr (d, held, refused) ↦ inr ((0, c, d, refl, held), rw (refused, first_err) refl)
    | inl (free, created) ↦ elim (results_cases E stores req cs) [
      | inl (all, run) ↦ inl ((free, all), rw (created, first_err) run)
      | inr ((j, c', d, found, held), run) ↦
          inr ((suc j, c', d, found, held), rw (created, first_err) run)
    ]
  ]

module _ {C F : Type 0} ⦃eq : Eq C⦄ where
  -- A call of a replica, where each holds a store: its service answers, and its store becomes what
  -- the service has made of it.
  abbrev pub reply :
      CreateCollectionRequest
      → C
      → (C → Store F)
      → (C → Store F) × Result Status CreateCollectionResponse
  reply req c stores =
      let (s, result) = Service.create_collection (stores c) req in
      ((λ d. if c == d then s else stores d), result)

  -- A replica that is not called keeps its store.
  not_called :
      (req : CreateCollectionRequest) (d : C) (cs : List C) (stores : C → Store F)
      → All (λ c. c ≢ d) cs
      → (call_each (reply req) cs stores).0 d ≡ stores d
  unfolding call_each
  not_called req d [] stores h = refl
  not_called req d (c ∷ cs) stores h =
      not_called req d cs (reply req c stores).0 h.1 ∙ ground (arith, eq.beq_iff c d, h.0)

  own_store :
      (req : CreateCollectionRequest) (c : C) (stores : C → Store F)
      → (reply req c stores).0 c ≡ after req (stores c)
  own_store req c stores = ground (arith, eq.beq_iff c c)

  other_store :
      (req : CreateCollectionRequest) (c d : C) (stores : C → Store F)
      → c ≢ d
      → (reply req c stores).0 d ≡ stores d
  other_store req c d stores h = ground (arith, eq.beq_iff c d, h)

  -- Every replica ends with what its service makes of its store, and the results are the answers.
  each_called :
      (req : CreateCollectionRequest) (cs : List C) (stores : C → Store F)
      → Apart cs
      → All (λ c. (call_each (reply req) cs stores).0 c ≡ after req (stores c)) cs
        × ((call_each (reply req) cs stores).1 ≡ map (λ c. answer req (stores c)) cs)
  unfolding call_each
  each_called req [] stores h = (tt, refl)
  each_called req (c ∷ cs) stores h =
      let stores' = (reply req c stores).0 in
      let (later, results) = each_called req cs stores' h.1 in
      (
        (not_called_after cs h.0 ∙ own_store req c stores, moved cs h.0 later),
        ap (◌∷◌ (answer req (stores c))) (results ∙ same_answers cs h.0),
      )
    where
      not_called_after :
          (ds : List C)
          → All (λ d. c ≢ d) ds
          → (call_each (reply req) ds (reply req c stores).0).0 c ≡ (reply req c stores).0 c
      not_called_after ds apart = not_called req c ds (reply req c stores).0 (flipped ds apart)
        where
          flipped : (ds : List C) → All (λ d. c ≢ d) ds → All (λ d. d ≢ c) ds
          flipped [] k = tt
          flipped (d ∷ ds) k = ((λ e. k.0 (sym e)), flipped ds k.1)

      moved :
          (ds : List C)
          → All (λ d. c ≢ d) ds
          → All
              (λ d.
                (call_each (reply req) cs (reply req c stores).0).0 d
                ≡ after req ((reply req c stores).0 d))
              ds
          → All
              (λ d. (call_each (reply req) cs (reply req c stores).0).0 d ≡ after req (stores d))
              ds
      moved [] apart k = tt
      moved (d ∷ ds) apart k =
          (k.0 ∙ ap (after req) (other_store req c d stores apart.0), moved ds apart.1 k.1)

      same_answers :
          (ds : List C)
          → All (λ d. c ≢ d) ds
          → map (λ d. answer req ((reply req c stores).0 d)) ds
            ≡ map (λ d. answer req (stores d)) ds
      same_answers [] apart = refl
      same_answers (d ∷ ds) apart =
          λ i. answer req (other_store req c d stores apart.0 i) ∷ same_answers ds apart.1 i

  -- Creating a collection through the router, where the replicas of all shards are distinct and
  -- each answers by its service. Every replica is called, also after another has refused, and has
  -- the collection from then on: one that had it keeps its own, whatever the dimension, and any
  -- other has an empty one of the requested dimension. The router succeeds if no replica had the
  -- name, and fails with the status of an existing collection if one had.
  pub create_collection_everywhere :
      {E : Type 0} (router : ShardRouter C) (name : String) (dim : ℕ) (stores : C → Store F)
      → Apart (replicas router)
      → (let out = Router.create_collection {E = E} reply router name dim stores in
          let req : CreateCollectionRequest = record {
            name = name;
            dim = dim;
            shard_count = shard_count router;
          } in
          All
            (λ c. at (out.0 c) name ≡ some (unwrap_or (at (stores c) name) (fresh req)))
            (replicas router)
          × ((All (λ c. at (stores c) name ≡ none) (replicas router) × (out.1 ≡ ok tt))
              ⊎ (((j : ℕ) × (c : C) × (d : Collection F) × (get_elem? (replicas router) j ≡ some c)
                    × (at (stores c) name ≡ some d))
                  × (out.1 ≡ err (rpc already_exists)))))
  unfolding Router.create_collection
  create_collection_everywhere {E} router name dim stores distinct =
      let req : CreateCollectionRequest = record {
        name = name;
        dim = dim;
        shard_count = shard_count router;
      } in
      let (ends, results) = each_called req (replicas router) stores distinct in
      (held _ req (replicas router) ends, rw results (results_cases E stores req (replicas router)))
    where
      held :
          (out : C → Store F) (req : CreateCollectionRequest) (cs : List C)
          → All (λ c. out c ≡ after req (stores c)) cs
          → All
              (λ c. at (out c) req.name ≡ some (unwrap_or (at (stores c) req.name) (fresh req)))
              cs
      held out req [] ends = tt
      held out req (c ∷ cs) ends =
          (ap (λ s. at s req.name) ends.0 ∙ held_after req (stores c), held out req cs ends.1)
