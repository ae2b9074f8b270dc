-- ===== src/Node/Service/Results.antt =====
-- The records in a successful answer to a search of crates/raftvec-node/src/service.rs.
use raftvec.Base.{
  ℕ, ◌≡◌, refl, arith, Option, none, some, Option-cases, inl, inr, List, [], ◌∷◌, map, String, Eq,
  nat_eq, string_eq, ok, All, ◌⊎◌, Bool, Result-cases,
}
use raftvec.HashMap
use raftvec.HashMap.{HashMap}
use raftvec.HashMap.Laws.{IsMap}
use raftvec.Order.Every.{top-All}
use raftvec.Core.Float.{Float}
use raftvec.Core.Record.{VectorRecord, ScoredId, scored_id_ord}
use raftvec.Core.Search.{Rayon}
use raftvec.Core.Similarity.{cosine_similarity}
use raftvec.Core.TopK.{bounded_top_k}
use raftvec.Core.TopK.Exact.{bounded_top_k-eq-top}
use raftvec.Proto.{SearchRequest, SearchResponse, ScoredRecord}
use raftvec.Node.Store
use raftvec.Node.Store.{Store, StoredVector}
use raftvec.Node.Store.Valid.{IsValid, get-IsValid}
use raftvec.Node.Store.Contents.{contents}
use raftvec.Node.Store.Ranking.{direct, search_lem}
use raftvec.Node.Service.Reads.{Leadership-cases}
use raftvec.Node.Service.{Raft, leadership, with_metadata, search, or_default}

module _ {K V : Type 0} ⦃e : Eq K⦄ where
  -- Every entry of the list is found under its key.
  abbrev Finds : HashMap K V → HashMap K V → Type 0
  Finds m = All λ p. HashMap.get m p.0 ≡ some p.1

  behind-Finds :
      (k : K) (v : V) (m l : HashMap K V)
      → HashMap.get m k ≡ none
      → Finds m l
      → Finds ((k, v) ∷ m) l
  unfolding HashMap.get
  behind-Finds k v m [] fresh h = tt
  behind-Finds k v m ((i, w) ∷ l) fresh h =
      (ground (arith, e.beq_iff k i, fresh, h.0), behind-Finds k v m l fresh h.1)

  own-Finds : (m : HashMap K V) → IsMap m → Finds m m
  unfolding HashMap.get
  own-Finds [] h = tt
  own-Finds ((k, v) ∷ m) h =
      (ground (arith, e.beq_iff k k), behind-Finds k v m m h.0 (own-Finds m h.1))

module _ {F : Type 0} ⦃fl : Float F⦄ (s : Store F) (name : String) (query : List F) where
  -- The store holds the record, and the score is computed from scratch.
  abbrev pub IsHeld : ℕ → F → Type 0
  IsHeld id score =
      (r : VectorRecord F) × (contents s name id ≡ some r)
      × (score ≡ cosine_similarity r.embedding query)

  direct-IsHeld :
      (vectors l : HashMap ℕ (StoredVector F))
      → ((id : ℕ)
          → contents s name id
            ≡ (elim (HashMap.get vectors id) [ none ↦ none | some v ↦ some v.rec ]))
      → Finds vectors l
      → All (λ y. IsHeld y.id y.score) (map (direct query) l)
  direct-IsHeld vectors [] shows h = tt
  direct-IsHeld vectors ((id, v) ∷ l) shows h =
      ((v.rec, ground (arith, shows id, h.0), refl), direct-IsHeld vectors l shows h.1)

  search-IsHeld :
      ⦃ry : Rayon (VectorRecord F × F)⦄ (k : ℕ) (l : List (ScoredId F))
      → IsValid s
      → Store.search s name query k ≡ ok l
      → All (λ y. IsHeld y.id y.score) l
  search-IsHeld k l v h = elim (Option-cases (HashMap.get s.collections name)) [
    | inl e ↦ absurd (ground (arith, search_lem s name query k v))
    | inr (c, e) ↦
        let best : l ≡ bounded_top_k (map (direct query) c.vectors) k =
          ground (arith, search_lem s name query k v) in
        rw (best, bounded_top_k-eq-top (map (direct query) c.vectors) k)
          (top-All (λ y. IsHeld y.id y.score) k (map (direct query) c.vectors)
            (direct-IsHeld c.vectors c.vectors (λ id. rw (e, contents) refl)
              (own-Finds c.vectors (get-IsValid s name c v e).distinct)))
  ]

module _ {F : Type 0} ⦃fl : Float F⦄ where
  -- The metadata of a record, none where there is no record.
  abbrev pub metadata_of : Option (VectorRecord F) → HashMap String String
  metadata_of none = []
  metadata_of (some r) = r.metadata

  -- A result shows a record that the store `scanned` holds under its id, its score from scratch,
  -- and the metadata that the store `seen id` shows under this id.
  pub record IsResult (scanned : Store F) (seen : ℕ → Store F) (name : String) (query : List F)
      (r : ScoredRecord F) : Type 0 where
    pub held : IsHeld scanned name query r.id r.score
    pub labelled : r.metadata ≡ metadata_of (contents (seen r.id) name r.id)

  metadata_lem :
      (s : Store F) (name : String) (id : ℕ)
      → or_default (Store.get_metadata s name id) ≡ metadata_of (contents s name id)
  unfolding Store.get_metadata
  metadata_lem s name id = ground arith

module _ {F : Type 0} ⦃fl : Float F⦄ ⦃ry : Rayon (VectorRecord F × F)⦄ where
  with_metadata-IsResult :
      (scanned : Store F) (seen : ℕ → Store F) (name : String) (query : List F)
      (l : List (ScoredId F))
      → All (λ y. IsHeld scanned name query y.id y.score) l
      → All (IsResult scanned seen name query) (with_metadata seen name l)
  unfolding with_metadata
  with_metadata-IsResult scanned seen name query [] h = tt
  with_metadata-IsResult scanned seen name query (y ∷ l) h = (
    record { held = h.0; labelled = metadata_lem (seen y.id) name y.id },
    with_metadata-IsResult scanned seen name query l h.1,
  )

  answers_with :
      (raft : Raft F) (node_id : ℕ) (scanned : Store F) (seen : ℕ → Store F) (joined : Bool)
      (req : SearchRequest F) (resp : SearchResponse F)
      → search raft node_id scanned seen joined req ≡ ok resp
      → (resp.results ≡ [])
        ⊎ ((l : List (ScoredId F)) × (Store.search scanned req.collection req.query_vector req.k
              ≡ ok l)
            × (resp.results ≡ with_metadata seen req.collection l))
  unfolding search
  answers_with raft node_id scanned seen joined req resp h =
      elim (Leadership-cases (leadership raft node_id)) [
        | inl e ↦ elim (Result-cases (Store.search scanned req.collection req.query_vector req.k)) [
          | inl (l, f) ↦ inr (l, f, ground arith)
          | inr (x, f) ↦ absurd (ground arith)
        ]
        | inr (inl (hint, e)) ↦ inl (ground arith)
        | inr (inr e) ↦ absurd (ground arith)
      ]

  -- A successful answer to a search over a valid store: each of its results has the id of a record
  -- that the store held while it was scanned, with the score that is computed from scratch, and the
  -- metadata of the record that stood under the id when the metadata was looked up, none if it was
  -- gone by then.
  pub search_results :
      (raft : Raft F) (node_id : ℕ) (scanned : Store F) (seen : ℕ → Store F) (joined : Bool)
      (req : SearchRequest F) (resp : SearchResponse F)
      → IsValid scanned
      → search raft node_id scanned seen joined req ≡ ok resp
      → All (IsResult scanned seen req.collection req.query_vector) resp.results
  search_results raft node_id scanned seen joined req resp v h =
      elim (answers_with raft node_id scanned seen joined req resp h) [
        | inl none_found ↦ rw none_found tt
        | inr (l, found, labelled) ↦ rw labelled (
            with_metadata-IsResult scanned seen req.collection req.query_vector l
              (search-IsHeld scanned req.collection req.query_vector req.k l v found))
      ]
