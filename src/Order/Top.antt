-- ===== src/Order/Top.antt =====
-- The `k` greatest elements of a list, in descending order: the specification of every ranking.
use mathlib.Core.List.{Perm, flatten, perm_append_comm}
use raftvec.Base.{
  ℕ, zero, suc, ◌≡◌, refl, sym, ap, ◌∙◌, false, List, [], ◌∷◌, ◌++◌, length, take, drop, map, All,
  take-append-drop, length-take, arith,
}
use Prim.Native.Nat.{min}
use raftvec.Order.{Ord, gt, insert_all, sort_desc}
use raftvec.Order.Laws.{
  insert_all-append, take-insert_all, sort_desc-eq_of_perm, sort_desc-perm, length-insert_all,
}
use raftvec.Order.Sorted.{IsDescending, sort_desc-IsDescending, take-IsDescending, sort_desc_self}

module _ {ℓ} {A : Type ℓ} ⦃o : Ord A⦄ where
  unfoldable pub top : ℕ → List A → List A
  unfolding sort_desc
  top k xs = take k (sort_desc xs)

  -- What makes a list the `k` best of another, said without a sort.
  pub record IsBestOf (k : ℕ) (xs out : List A) : Type ℓ where
    pub rest : List A
    pub splits : Perm (out ++ rest) xs
    pub descending : IsDescending out
    pub size : length out ≡ min k (length xs)
    pub beaten : All (λ y. All (λ x. gt y x ≡ false) out) rest

  All-of_each {κ} : {P : A → Type κ} (l : List A) → ((x : A) → P x) → All P l
  All-of_each [] h = tt
  All-of_each (x ∷ l) h = (h x, All-of_each l h)

  All-cons_each {κ} :
      (Q : A → A → Type κ) (x : A) (out rest : List A)
      → All (λ y. Q y x) rest
      → All (λ y. All (Q y) out) rest
      → All (λ y. All (Q y) (x ∷ out)) rest
  All-cons_each Q x out [] h t = tt
  All-cons_each Q x out (y ∷ rest) h t = ((h.0, t.0), All-cons_each Q x out rest h.1 t.1)

  All-drop {κ} : (P : A → Type κ) (k : ℕ) (l : List A) → All P l → All P (drop k l)
  All-drop P zero l h = h
  All-drop P (suc k) [] h = tt
  All-drop P (suc k) (x ∷ l) h = All-drop P k l h.1

  pub beaten_by_prefix :
      (k : ℕ) (l : List A)
      → IsDescending l
      → All (λ y. All (λ x. gt y x ≡ false) (take k l)) (drop k l)
  beaten_by_prefix zero l d = All-of_each l (λ x. tt)
  beaten_by_prefix (suc k) [] d = tt
  beaten_by_prefix (suc k) (x ∷ l) d =
      All-cons_each (λ y x. gt y x ≡ false) x (take k l) (drop k l) (All-drop _ k l d.0)
        (beaten_by_prefix k l d.1)

  pub length-sort_desc : (xs : List A) → length (sort_desc xs) ≡ length xs
  unfolding sort_desc
  length-sort_desc xs = omega (arith, length-insert_all xs [])

  pub top-IsBestOf : (k : ℕ) (xs : List A) → IsBestOf k xs (top k xs)
  unfolding top
  top-IsBestOf k xs = record {
    rest = drop k (sort_desc xs);
    splits = rw (take-append-drop k (sort_desc xs)) (sort_desc-perm xs);
    descending = take-IsDescending k _ (sort_desc-IsDescending xs);
    size = omega (arith, length-take k (sort_desc xs), length-sort_desc xs);
    beaten = beaten_by_prefix k (sort_desc xs) (sort_desc-IsDescending xs);
  }

  pub top-eq_of_perm : (k : ℕ) {xs ys : List A} → Perm xs ys → top k xs ≡ top k ys
  unfolding top
  top-eq_of_perm k p = ap (take k) (sort_desc-eq_of_perm p)

  pub top-IsDescending : (k : ℕ) (xs : List A) → IsDescending (top k xs)
  unfolding top
  top-IsDescending k xs = take-IsDescending k _ (sort_desc-IsDescending xs)

  -- What is inserted into the best is inserted into all.
  pub take-insert_all-top :
      (k : ℕ) (xs ys : List A) → take k (insert_all ys (top k xs)) ≡ top k (xs ++ ys)
  unfolding top sort_desc
  take-insert_all-top k xs ys =
      take-insert_all k ys (insert_all xs []) ∙ ap (take k) (sym (insert_all-append xs ys []))

  -- An element that is not among the best of a part is not among the best.
  pub top-append_left : (k : ℕ) (xs ys : List A) → top k (top k xs ++ ys) ≡ top k (xs ++ ys)
  unfolding top sort_desc
  top-append_left k xs ys =
      ap (take k) (insert_all-append (top k xs) ys [])
      ∙ ap (λ l. take k (insert_all ys l)) (sort_desc_self (top k xs) (top-IsDescending k xs))
      ∙ take-insert_all-top k xs ys

  pub top-append_right : (k : ℕ) (xs ys : List A) → top k (xs ++ top k ys) ≡ top k (xs ++ ys)
  top-append_right k xs ys =
      top-eq_of_perm k (perm_append_comm xs (top k ys))
      ∙ top-append_left k ys xs
      ∙ top-eq_of_perm k (perm_append_comm ys xs)

  pub top-flatten :
      (k : ℕ) (lists : List (List A)) → top k (flatten (map (top k) lists)) ≡ top k (flatten lists)
  unfolding flatten
  top-flatten k [] = refl
  top-flatten k (l ∷ ls) =
      top-append_left k l (flatten (map (top k) ls))
      ∙ sym (top-append_right k l (flatten (map (top k) ls)))
      ∙ ap (λ r. top k (l ++ r)) (top-flatten k ls)
      ∙ top-append_right k l (flatten ls)
