-- ===== src/Cluster/Leaves.antt =====
-- What a command leaves of one record, and what becomes of a batch that is split into groups.
use raftvec.Base.{
  ℕ, zero, suc, ◌≡◌, refl, ap, ◌∙◌, arith, some, none, List, [], ◌∷◌, String, Bool, Option-cases,
  true, inl, inr, get_elem?, nat_eq, string_eq,
}
use text.Mathlib.TextEquality.{eq_iff}
use raftvec.Core.Record.{VectorRecord}
use raftvec.Node.Raft.{upsert, delete}
use raftvec.Node.Store.Contents.{last_with, listed}
use raftvec.Node.StateMachine.View.{View, meant, all_fit}
use raftvec.Aggregator.Grouping.{filter}

module _ {F : Type 0} where
  pub last_with-In :
      (id : ℕ) (rs : List (VectorRecord F)) (r : VectorRecord F)
      → last_with id rs ≡ some r
      → (j : ℕ) × (get_elem? rs j ≡ some r) × (r.id ≡ id)
  last_with-In id [] r h = absurd (cc)
  last_with-In id (x ∷ rs) r h = elim (Option-cases (last_with id rs)) [
    | inr (q, e) ↦
        let same : q ≡ r = ground arith in
        let (j, at, named) = last_with-In id rs r (e ∙ ap some same) in (suc j, at, named)
    | inl e ↦ (0, ground arith, ground arith)
  ]

  pub last_with-filter :
      (p : VectorRecord F → Bool) (id : ℕ) (rs : List (VectorRecord F))
      → ((r : VectorRecord F) → r.id ≡ id → p r ≡ true)
      → last_with id (filter p rs) ≡ last_with id rs
  unfolding filter
  last_with-filter p id [] h = refl
  last_with-filter p id (x ∷ rs) h = ground (arith, h x, last_with-filter p id rs h)

  pub all_fit-filter :
      (p : VectorRecord F → Bool) (dim : ℕ) (rs : List (VectorRecord F))
      → all_fit dim rs ≡ true
      → all_fit dim (filter p rs) ≡ true
  unfolding filter
  all_fit-filter p dim [] h = refl
  all_fit-filter p dim (x ∷ rs) h = ground (arith, all_fit-filter p dim rs)

  pub upsert_leaves :
      (w : View F) (name : String) (dim id : ℕ) (rs : List (VectorRecord F)) (r : VectorRecord F)
      → w.dims name ≡ some dim
      → all_fit dim rs ≡ true
      → last_with id rs ≡ some r
      → (meant w (upsert name rs)).records name id ≡ some r
  upsert_leaves w name dim id rs r d fit found = ground (arith, eq_iff name name)

  pub delete_leaves :
      (w : View F) (name : String) (ids : List ℕ) (id k : ℕ)
      → get_elem? ids k ≡ some id
      → (meant w (delete name ids)).records name id ≡ none
  delete_leaves w name ids id k at = ground (arith, eq_iff name name, has ids k at)
    where
      has : (ids : List ℕ) (k : ℕ) → get_elem? ids k ≡ some id → listed id ids ≡ true
      has [] k e = absurd (cc)
      has (x ∷ ids) zero e = ground arith
      has (x ∷ ids) (suc k) e = ground (arith, has ids k e)
