-- ===== src/Order/Every.antt =====
-- A predicate that all elements of a list have, among the `k` greatest.
use raftvec.Base.{ℕ, zero, suc, List, [], ◌∷◌, take, All, Bool-cases, inl, inr}
use raftvec.Order.{Ord, gt, insert, insert_all, sort_desc}
use raftvec.Order.Top.{top}

module _ {ℓ κ} {A : Type ℓ} ⦃o : Ord A⦄ (P : A → Type κ) where
  insert-All : (x : A) (l : List A) → P x → All P l → All P (insert x l)
  unfolding insert
  insert-All x [] p h = (p, h)
  insert-All x (y ∷ l) p h = elim (Bool-cases (gt x y)) [
    | inl g ↦ rw g (p, h)
    | inr g ↦ rw g (h.0, insert-All x l p h.1)
  ]

  insert_all-All : (xs acc : List A) → All P xs → All P acc → All P (insert_all xs acc)
  unfolding insert_all
  insert_all-All [] acc h k = k
  insert_all-All (x ∷ xs) acc h k = insert_all-All xs (insert x acc) h.1 (insert-All x acc h.0 k)

  take-All : (k : ℕ) (l : List A) → All P l → All P (take k l)
  take-All zero l h = tt
  take-All (suc k) [] h = tt
  take-All (suc k) (x ∷ l) h = (h.0, take-All k l h.1)

  pub top-All : (k : ℕ) (xs : List A) → All P xs → All P (top k xs)
  unfolding top sort_desc
  top-All k xs h = take-All k (sort_desc xs) (insert_all-All xs [] h tt)
