-- ===== src/Node/Store/Ranking.antt =====
-- `Store::search` against a ranking with nothing cached.
use mathlib.Core.List.{Perm}
use mathlib.Core.List.Perm
use raftvec.Base.{
  ℕ, ◌≡◌, refl, ap, ◌∙◌, sym, none, some, List, [], ◌∷◌, String, ok, err, length, All, map, nat_eq,
  string_eq, ◌==◌, if◌then◌else◌, Option-cases, inl, inr,
}
use raftvec.HashMap
use raftvec.HashMap.{HashMap}
use raftvec.Core.Float.{Float}
use raftvec.Core.Record.{VectorRecord, ScoredId}
use raftvec.Core.Similarity.{cosine_similarity, norm_sq, cosine_from_norm_sq}
use raftvec.Core.TopK.{bounded_top_k}
use raftvec.Core.TopK.Exact.{bounded_top_k-eq_of_perm}
use raftvec.Core.Search.{Rayon, score}
use raftvec.Core.Search.Exact.{brute_force_top_k-exact}
use raftvec.Node.Store.{
  Store, Collection, StoredVector, collection_not_found, dimension_mismatch, search,
}
use raftvec.Node.Store.Valid.{IsValid, EntryIsValid, get-IsValid}

module _ {F : Type 0} ⦃fl : Float F⦄ where
  -- The score of a record with nothing cached.
  abbrev pub direct : List F → ℕ × StoredVector F → ScoredId F
  direct query (id, v) = record { id = id; score = cosine_similarity v.rec.embedding query }

  cached_score :
      (query : List F) (dim : ℕ) (m : HashMap ℕ (StoredVector F))
      → All (EntryIsValid dim) m
      → map (score query) (map (λ v. (v.rec, v.norm_sq)) (HashMap.values m)) ≡ map (direct query) m
  unfolding score cosine_similarity
  cached_score query dim [] h = refl
  cached_score query dim ((id, v) ∷ m) h = λ i.
      record {
        id = h.0.0 i;
        score = cosine_from_norm_sq v.rec.embedding query (h.0.2 i) (norm_sq query);
      }
      ∷ cached_score query dim m h.1 i

  -- In a valid store, `search` fails where the collection is unknown or the query has another
  -- dimension. Otherwise it returns the `k` best of the collection's ids, each scored by
  -- `cosine_similarity` from scratch: the cached norms and the parallel scan change nothing.
  pub search_lem :
      ⦃ry : Rayon (VectorRecord F × F)⦄ (s : Store F) (name : String) (query : List F) (k : ℕ)
      → IsValid s
      → search s name query k ≡ (elim (HashMap.get s.collections name) [
        | none ↦ err (collection_not_found name)
        | some c ↦
            if length query == c.dim
            then ok (bounded_top_k (map (direct query) c.vectors) k)
            else err (dimension_mismatch c.dim (length query))
      ])
  unfolding search
  search_lem ⦃ry⦄ s name query k v = elim (Option-cases (HashMap.get s.collections name)) [
    | inl e ↦ rw (e, search)
    | inr (c, e) ↦
        rw (e, search)
          (ap
            (λ l.
              if length query == c.dim then ok l else err (dimension_mismatch c.dim (length query)))
            (brute_force_top_k-exact query _ k
              ∙ ap (λ l. bounded_top_k l k)
                  (cached_score query c.dim c.vectors (get-IsValid s name c v e).entries)))
  ]

  -- Two valid replicas that hold the same records of a collection, in whatever orders their hash
  -- maps iterate and however rayon splits their scans, answer a search alike.
  pub search_replicas :
      (ry ry' : Rayon (VectorRecord F × F)) (s t : Store F) (name : String) (query : List F) (k : ℕ)
      (c d : Collection F)
      → IsValid s
      → IsValid t
      → HashMap.get s.collections name ≡ some c
      → HashMap.get t.collections name ≡ some d
      → c.dim ≡ d.dim
      → Perm c.vectors d.vectors
      → search ⦃ry = ry⦄ s name query k ≡ search ⦃ry = ry'⦄ t name query k
  search_replicas ry ry' s t name query k c d v w e f same p =
      search_lem ⦃ry = ry⦄ s name query k v
      ∙ rw (e, f, same)
          (ap
            (λ l.
              if length query == d.dim then ok l else err (dimension_mismatch d.dim (length query)))
            (bounded_top_k-eq_of_perm k _ _ (Perm.map (direct query) p)))
      ∙ sym (search_lem ⦃ry = ry'⦄ t name query k w)
