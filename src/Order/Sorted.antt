-- ===== src/Order/Sorted.antt =====
-- Lists in descending order.
use raftvec.Base.{
  ℕ, zero, suc, ◌≡◌, refl, ap, false, ◌∙◌, List, [], ◌∷◌, arith, take, All, Bool-cases, inl, inr,
}
use raftvec.Order.{Ord, gt, insert, insert_all, sort_desc}
use raftvec.Order.Laws.{gt_trans, gt_asymm, gt_connex, insert_all-insert}

module _ {ℓ} {A : Type ℓ} ⦃o : Ord A⦄ where
  -- No element stands behind a smaller one.
  abbrev pub IsDescending : List A → Type ℓ
  IsDescending [] = Unit
  IsDescending (x ∷ xs) = All (λ y. gt y x ≡ false) xs × IsDescending xs

  pub not_gt_trans : (a b c : A) → gt a b ≡ false → gt b c ≡ false → gt a c ≡ false
  not_gt_trans a b c p q =
      ground (arith, gt_trans a c b, gt_trans b a c, gt_connex a b, gt_asymm b a)

  All-not_gt :
      (a b : A) (l : List A)
      → gt a b ≡ false
      → All (λ y. gt y a ≡ false) l
      → All (λ y. gt y b ≡ false) l
  All-not_gt a b [] p h = tt
  All-not_gt a b (x ∷ l) p h = (not_gt_trans x a b h.0 p, All-not_gt a b l p h.1)

  All-insert {κ} : (P : A → Type κ) (x : A) (l : List A) → P x → All P l → All P (insert x l)
  unfolding insert
  All-insert P x [] p h = (p, tt)
  All-insert P x (y ∷ l) p h = elim (Bool-cases (gt x y)) [
    | inl e ↦ rw (e, insert) (p, h)
    | inr e ↦ rw (e, insert) (h.0, All-insert P x l p h.1)
  ]

  pub insert-IsDescending : (x : A) (l : List A) → IsDescending l → IsDescending (insert x l)
  unfolding insert
  insert-IsDescending x [] d = (tt, tt)
  insert-IsDescending x (y ∷ l) d = elim (Bool-cases (gt x y)) [
    | inl e ↦ rw (e, insert) ((gt_asymm x y e, All-not_gt y x l (gt_asymm x y e) d.0), d)
    | inr e ↦ rw (e, insert) (All-insert _ x l e d.0, insert-IsDescending x l d.1)
  ]

  pub insert_all-IsDescending :
      (xs acc : List A) → IsDescending acc → IsDescending (insert_all xs acc)
  unfolding insert_all
  insert_all-IsDescending [] acc d = d
  insert_all-IsDescending (x ∷ xs) acc d =
      insert_all-IsDescending xs (insert x acc) (insert-IsDescending x acc d)

  pub sort_desc-IsDescending : (xs : List A) → IsDescending (sort_desc xs)
  unfolding sort_desc
  sort_desc-IsDescending xs = insert_all-IsDescending xs [] tt

  All-take {κ} : (P : A → Type κ) (k : ℕ) (l : List A) → All P l → All P (take k l)
  All-take P zero l h = tt
  All-take P (suc k) [] h = tt
  All-take P (suc k) (x ∷ l) h = (h.0, All-take P k l h.1)

  pub take-IsDescending : (k : ℕ) (l : List A) → IsDescending l → IsDescending (take k l)
  take-IsDescending zero l d = tt
  take-IsDescending (suc k) [] d = tt
  take-IsDescending (suc k) (x ∷ l) d = (All-take _ k l d.0, take-IsDescending k l d.1)

  insert-eq-cons : (x : A) (l : List A) → All (λ y. gt y x ≡ false) l → insert x l ≡ x ∷ l
  unfolding insert
  insert-eq-cons x [] h = refl
  insert-eq-cons x (y ∷ l) h = ground (arith, gt_connex x y, insert-eq-cons x l h.1)

  -- Sorting leaves a descending list as it is.
  pub sort_desc_self : (l : List A) → IsDescending l → sort_desc l ≡ l
  unfolding sort_desc
  sort_desc_self [] d = refl
  sort_desc_self (x ∷ l) d =
      insert_all-insert l x [] ∙ ap (insert x) (sort_desc_self l d.1) ∙ insert-eq-cons x l d.0
