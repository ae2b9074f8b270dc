-- ===== src/Core/Search.antt =====
-- crates/raftvec-core/src/search.rs. rayon's `par_iter().fold().reduce()` is a parameter: it cuts
-- the slice into consecutive pieces, folds each from a fresh identity, and joins the results of
-- neighbours in an order of its own, identities put in where it likes.
pub mod Exact
use raftvec.Base.{ℕ, ◌≡◌, List, [], ◌∷◌, ◌++◌}
use raftvec.Core.Float.{Float}
use raftvec.Core.Record.{VectorRecord, ScoredId, scored_id_ord}
use raftvec.Core.Similarity.{norm_sq, cosine_from_norm_sq}
use raftvec.Core.TopK
use raftvec.Core.TopK.{TopK}

-- One way to run a `fold` and `reduce`.
pub data Plan (A : Type 0) : Type 0 where
  identity : Plan A
  fold : List A → Plan A
  reduce : Plan A → Plan A → Plan A

abbrev pub items : {A : Type 0} → Plan A → List A
items identity = []
items (fold l) = l
items (reduce p q) = items p ++ items q

-- What rayon documents of an indexed parallel iterator: every item is folded once, and the order
-- of the pieces is kept.
pub record Rayon (A : Type 0) : Type 0 where
  pub par_iter : List A → Plan A
  pub items-par_iter : (l : List A) → items (par_iter l) ≡ l

module _ {F : Type 0} ⦃fl : Float F⦄ where
  -- The closure's `ScoredId`.
  unfoldable pub score : List F → VectorRecord F × F → ScoredId F
  unfolding cosine_from_norm_sq norm_sq
  score query (r, r_norm_sq) = record {
    id = r.id;
    score = cosine_from_norm_sq r.embedding query r_norm_sq (norm_sq query);
  }

  fold_piece : TopK F → List F → List (VectorRecord F × F) → TopK F
  unfolding TopK.push score
  fold_piece topk query [] = topk
  fold_piece topk query (r ∷ rs) = fold_piece (TopK.push topk (score query r)) query rs

  run : Plan (VectorRecord F × F) → List F → ℕ → TopK F
  unfolding TopK.new fold_piece TopK.merge
  run identity query k = TopK.new k
  run (fold l) query k = fold_piece (TopK.new k) query l
  run (reduce p q) query k = TopK.merge (run p query k) (run q query k)

  unfoldable pub brute_force_top_k :
      ⦃ry : Rayon (VectorRecord F × F)⦄ → List (VectorRecord F × F) → List F → ℕ → List (ScoredId F)
  unfolding run TopK.into_sorted_vec
  brute_force_top_k ⦃ry⦄ records query k = TopK.into_sorted_vec (run (ry.par_iter records) query k)
