-- ===== src/Core/TopK/Exact.antt =====
-- `bounded_top_k` and `merge_top_k` against the `k` best of a list.
use mathlib.Core.List.{Perm, flatten}
use mathlib.Core.Path.{fun_ext}
use raftvec.Base.{ℕ, ◌≡◌, sym, ap, ◌∙◌, List, map, arith}
use raftvec.Order.{sort_desc}
use raftvec.Order.Sorted.{sort_desc_self}
use raftvec.Order.Top.{top, IsBestOf, top-IsBestOf, top-IsDescending, top-eq_of_perm, top-flatten}
use raftvec.Core.Float.{Float}
use raftvec.Core.Record.{ScoredId, scored_id_ord}
use raftvec.Core.TopK.{new, push_each, into_sorted_vec, bounded_top_k, merge_top_k}
use raftvec.Core.TopK.Push.{IsValid, heap-push_each}

module _ {F : Type 0} ⦃fl : Float F⦄ where
  pub new-IsValid : (k : ℕ) → IsValid (new {F = F} k)
  unfolding new
  new-IsValid k = record { bounded = omega arith; descending = tt }

  pub heap-push_each-new : (k : ℕ) (xs : List (ScoredId F)) → (push_each (new k) xs).heap ≡ top k xs
  unfolding top new
  heap-push_each-new k xs = heap-push_each (new k) xs (new-IsValid k)

  pub bounded_top_k-eq-top : (xs : List (ScoredId F)) (k : ℕ) → bounded_top_k xs k ≡ top k xs
  unfolding bounded_top_k into_sorted_vec
  bounded_top_k-eq-top xs k =
      ap sort_desc (heap-push_each-new k xs) ∙ sort_desc_self _ (top-IsDescending k xs)

  -- `bounded_top_k` returns the `k` best of its items: a part of them of size `min k n`, in
  -- descending order, such that none of the items left out is greater than one in the result.
  pub bounded_top_k-IsBestOf : (xs : List (ScoredId F)) (k : ℕ) → IsBestOf k xs (bounded_top_k xs k)
  bounded_top_k-IsBestOf xs k = rw (bounded_top_k-eq-top xs k) (top-IsBestOf k xs)

  -- The result of `bounded_top_k` does not depend on the order of its items.
  pub bounded_top_k-eq_of_perm :
      (k : ℕ) (xs ys : List (ScoredId F)) → Perm xs ys → bounded_top_k xs k ≡ bounded_top_k ys k
  bounded_top_k-eq_of_perm k xs ys p =
      bounded_top_k-eq-top xs k ∙ top-eq_of_perm k p ∙ sym (bounded_top_k-eq-top ys k)

  -- `merge_top_k` of the local rankings of any number of shards is the ranking of all the shards'
  -- items together.
  pub merge_top_k-exact :
      (lists : List (List (ScoredId F))) (k : ℕ)
      → merge_top_k (map (λ l. bounded_top_k l k) lists) k ≡ bounded_top_k (flatten lists) k
  unfolding merge_top_k
  merge_top_k-exact lists k =
      bounded_top_k-eq-top (flatten (map (λ l. bounded_top_k l k) lists)) k
      ∙ rw (fun_ext λ l. bounded_top_k-eq-top l k) (top-flatten k lists)
      ∙ sym (bounded_top_k-eq-top (flatten lists) k)
