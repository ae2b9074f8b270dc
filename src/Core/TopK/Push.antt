-- ===== src/Core/TopK/Push.antt =====
-- The heap of a `TopK`, as a prefix of what has been pushed, in descending order.
use raftvec.Base.{
  ℕ, ◌≤◌, ◌<◌, ◌≡◌, refl, sym, subst, ◌∙◌, List, [], ◌∷◌, some, length, take, nat_eq, arith,
  length-take, take-all, suc, zero,
}
use native.Mathlib.Decide.{dec_lt}
use raftvec.Order.{insert, insert_all}
use raftvec.Order.Laws.{length-insert, take-insert_all}
use raftvec.Order.Sorted.{IsDescending, insert-IsDescending, take-IsDescending}
use raftvec.MinHeap.{peek, peek-cons, take-insert_low, take-insert_high}
use raftvec.Core.Float.{Float}
use raftvec.Core.Record.{ScoredId, scored_id_ord}
use raftvec.Core.TopK.{TopK, push, push_each}

module _ {F : Type 0} ⦃fl : Float F⦄ where
  pub record IsValid (t : TopK F) : Type 0 where
    pub bounded : length t.heap ≤ t.k
    pub descending : IsDescending t.heap

  pub k-push : (t : TopK F) (x : ScoredId F) → (push t x).k ≡ t.k
  unfolding push
  k-push t x = ground arith

  full :
      (x w y : ScoredId F) (h : List (ScoredId F))
      → peek (y ∷ h) ≡ some w
      → IsDescending (y ∷ h)
      → (push (record { heap = y ∷ h; k = suc (length h) }) x).heap
        ≡ take (suc (length h)) (insert x (y ∷ h))
  unfolding push
  full x w y h e d = ground (arith, take-insert_low x w (y ∷ h) d e, take-insert_high x w (y ∷ h) e)

  room :
      (x : ScoredId F) (h : List (ScoredId F)) (k : ℕ)
      → length h < k
      → (push (record { heap = h; k = k }) x).heap ≡ take k (insert x h)
  unfolding push
  room x h k lt = ground (arith, take-all k (insert x h), length-insert x h)

  heap-push_at :
      (x : ScoredId F) (h : List (ScoredId F)) (k : ℕ)
      → length h ≤ k
      → IsDescending h
      → (push (record { heap = h; k = k }) x).heap ≡ take k (insert x h)
  heap-push_at x [] zero b d = unfold push in refl
  heap-push_at x [] (suc k) b d = room x [] (suc k) (omega arith)
  heap-push_at x (y ∷ h) k b d = elim (dec_lt (suc (length h)) k) [
    | yes lt ↦ room x (y ∷ h) k lt
    | no ge ↦
        let (w, e) = peek-cons y h in
        subst (λ n. (push (record { heap = y ∷ h; k = n }) x).heap ≡ take n (insert x (y ∷ h)))
          (omega arith) (full x w y h e d)
  ]

  -- `push` keeps the `k` greatest.
  pub heap-push :
      (t : TopK F) (x : ScoredId F) → IsValid t → (push t x).heap ≡ take t.k (insert x t.heap)
  heap-push t x v = heap-push_at x t.heap t.k v.bounded v.descending

  pub push-IsValid : (t : TopK F) (x : ScoredId F) → IsValid t → IsValid (push t x)
  push-IsValid t x v = record {
    bounded = rw (k-push t x, heap-push t x v) (omega (arith, length-take t.k (insert x t.heap)));
    descending =
        rw (heap-push t x v)
          (take-IsDescending t.k (insert x t.heap) (insert-IsDescending x t.heap v.descending));
  }

  pub k-push_each : (t : TopK F) (xs : List (ScoredId F)) → (push_each t xs).k ≡ t.k
  unfolding push_each
  k-push_each t [] = refl
  k-push_each t (x ∷ xs) = k-push_each (push t x) xs ∙ k-push t x

  pub push_each-IsValid :
      (t : TopK F) (xs : List (ScoredId F)) → IsValid t → IsValid (push_each t xs)
  unfolding push_each
  push_each-IsValid t [] v = v
  push_each-IsValid t (x ∷ xs) v = push_each-IsValid (push t x) xs (push-IsValid t x v)

  pub heap-push_each :
      (t : TopK F) (xs : List (ScoredId F))
      → IsValid t
      → (push_each t xs).heap ≡ take t.k (insert_all xs t.heap)
  unfolding push_each insert_all
  heap-push_each t [] v = sym (take-all t.k t.heap v.bounded)
  heap-push_each t (x ∷ xs) v =
      heap-push_each (push t x) xs (push-IsValid t x v)
      ∙ rw (k-push t x, heap-push t x v) (take-insert_all t.k xs (insert x t.heap))
