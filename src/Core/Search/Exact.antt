-- ===== src/Core/Search/Exact.antt =====
-- `brute_force_top_k`: the parallel scan against the sequential one.
use mathlib.Core.List.{map-append}
use raftvec.Base.{ℕ, ◌≡◌, refl, sym, ap, ◌∙◌, List, [], ◌∷◌, ◌++◌, map}
use raftvec.Order.{sort_desc}
use raftvec.Order.Sorted.{sort_desc_self}
use raftvec.Order.Top.{top, top-IsDescending, take-insert_all-top, top-append_right}
use raftvec.Core.Float.{Float}
use raftvec.Core.Record.{VectorRecord, scored_id_ord}
use raftvec.Core.TopK.{TopK, new, push, push_each, merge, into_sorted_vec, bounded_top_k}
use raftvec.Core.TopK.Push.{IsValid, heap-push_each, push_each-IsValid, k-push_each}
use raftvec.Core.TopK.Exact.{new-IsValid, heap-push_each-new, bounded_top_k-eq-top}
use raftvec.Core.Search.{
  Plan, identity, fold, reduce, items, Rayon, score, fold_piece, run, brute_force_top_k,
}

module _ {F : Type 0} ⦃fl : Float F⦄ (query : List F) where
  fold_piece-eq-push_each :
      (t : TopK F) (l : List (VectorRecord F × F))
      → fold_piece t query l ≡ push_each t (map (score query) l)
  unfolding fold_piece push_each
  fold_piece-eq-push_each t [] = refl
  fold_piece-eq-push_each t (r ∷ l) = fold_piece-eq-push_each (push t (score query r)) l

  -- What every part of a plan yields.
  record Yields (k : ℕ) (l : List (VectorRecord F × F)) (t : TopK F) : Type 0 where
    valid : IsValid t
    limit : t.k ≡ k
    heap : t.heap ≡ top k (map (score query) l)

  fold-Yields : (k : ℕ) (l : List (VectorRecord F × F)) → Yields k l (fold_piece (new k) query l)
  fold-Yields k l = rw (fold_piece-eq-push_each (new k) l) (record {
    valid = push_each-IsValid (new k) _ (new-IsValid k);
    limit = k-push_each (new k) (map (score query) l) ∙ (unfold new in refl);
    heap = heap-push_each-new k (map (score query) l);
  })

  merge-Yields :
      (k : ℕ) (l r : List (VectorRecord F × F)) (t u : TopK F)
      → Yields k l t
      → Yields k r u
      → Yields k (l ++ r) (merge t u)
  unfolding merge
  merge-Yields k l r t u y z = record {
    valid = push_each-IsValid t u.heap y.valid;
    limit = k-push_each t u.heap ∙ y.limit;
    heap =
        heap-push_each t u.heap y.valid
        ∙ rw (y.limit, y.heap, z.heap, map-append)
            (take-insert_all-top k (map (score query) l) (top k (map (score query) r))
              ∙ top-append_right k (map (score query) l) (map (score query) r));
  }

  run-Yields : (p : Plan (VectorRecord F × F)) (k : ℕ) → Yields k (items p) (run p query k)
  unfolding run
  run-Yields identity k = unfold fold_piece in fold-Yields k []
  run-Yields (fold l) k = fold-Yields k l
  run-Yields (reduce p q) k =
      merge-Yields k (items p) (items q) (run p query k) (run q query k) (run-Yields p k)
        (run-Yields q k)

  -- However rayon cuts the records and joins the partial heaps, `brute_force_top_k` is the
  -- sequential `bounded_top_k` over the scores of all records.
  pub brute_force_top_k-exact :
      ⦃ry : Rayon (VectorRecord F × F)⦄ (records : List (VectorRecord F × F)) (k : ℕ)
      → brute_force_top_k records query k ≡ bounded_top_k (map (score query) records) k
  unfolding brute_force_top_k into_sorted_vec
  brute_force_top_k-exact ⦃ry⦄ records k =
      ap sort_desc ((run-Yields (ry.par_iter records) k).heap)
      ∙ sort_desc_self _ (top-IsDescending k _)
      ∙ ap (λ l. top k (map (score query) l)) (ry.items-par_iter records)
      ∙ sym (bounded_top_k-eq-top (map (score query) records) k)
