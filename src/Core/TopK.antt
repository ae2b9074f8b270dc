-- ===== src/Core/TopK.antt =====
-- crates/raftvec-core/src/topk.rs
pub mod Push
pub mod Exact
pub mod Unordered
use raftvec.Base.{
  ℕ, List, [], ◌∷◌, ◌++◌, Option, none, some, if◌then◌else◌, length, ltb, ◌==◌, nat_eq,
}
use mathlib.Core.List.{flatten}
use raftvec.Order.{gt, insert, sort_desc}
use raftvec.MinHeap.{peek, pop}
use raftvec.Core.Float.{Float}
use raftvec.Core.Record.{ScoredId, scored_id_ord}

pub record TopK (F : Type 0) : Type 0 where
  pub heap : List (ScoredId F)
  pub k : ℕ

unfoldable pub new : {F : Type 0} → ℕ → TopK F
new k = record { heap = []; k = k }

module _ {F : Type 0} ⦃fl : Float F⦄ where
  unfoldable pub push : TopK F → ScoredId F → TopK F
  unfolding insert peek pop
  push t item =
      if t.k == 0
      then t
      else if ltb (length t.heap) t.k
      then record t { heap = insert item t.heap }
      else elim (peek t.heap) [
        | none ↦ t
        | some worst ↦ if gt item worst then record t { heap = insert item (pop t.heap) } else t
      ]

  -- The loops of `merge` and of `bounded_top_k`.
  unfoldable pub push_each : TopK F → List (ScoredId F) → TopK F
  unfolding push
  push_each t [] = t
  push_each t (item ∷ items) = push_each (push t item) items

  unfoldable pub merge : TopK F → TopK F → TopK F
  unfolding push_each
  merge t other = push_each t other.heap

  unfoldable pub into_sorted_vec : TopK F → List (ScoredId F)
  unfolding sort_desc
  into_sorted_vec t = sort_desc t.heap

  unfoldable pub bounded_top_k : List (ScoredId F) → ℕ → List (ScoredId F)
  unfolding new push_each into_sorted_vec
  bounded_top_k items k = into_sorted_vec (push_each (new k) items)

  unfoldable pub merge_top_k : List (List (ScoredId F)) → ℕ → List (ScoredId F)
  unfolding bounded_top_k
  merge_top_k lists k = bounded_top_k (flatten lists) k
