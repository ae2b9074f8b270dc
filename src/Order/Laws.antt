-- ===== src/Order/Laws.antt =====
-- Insertion in descending order, in any order of the insertions.
use mathlib.Core.List.{Perm, Permᴰ, perm_middle, append-nil}
use mathlib.Core.List.Perm
use mathlib.Core.HLevel.{hedberg}
use mathlib.Core.Logic.{∥∥₁_elim}
use raftvec.Base.{
  ℕ, zero, suc, ◌+◌, ◌≡◌, refl, ap, sym, ◌∙◌, subst, true, false, List, [], ◌∷◌, ◌++◌, arith,
  Ordering, length, take, take-take,
}
use raftvec.Order.{Ord, gt, insert, insert_all, sort_desc}

module _ {ℓ} {A : Type ℓ} ⦃o : Ord A⦄ where
  discrete : Discrete A
  discrete a b = go (o.cmp a b) refl
    where
      go : (c : Ordering) → o.cmp a b ≡ c → Dec (a ≡ b)
      go Ordering.eq e = yes (o.eq_of_cmp a b e)
      go Ordering.lt e = no λ p. cc (e, subst (λ x. o.cmp a x ≡ Ordering.eq) p (o.cmp_refl a))
      go Ordering.gt e = no λ p. cc (e, subst (λ x. o.cmp a x ≡ Ordering.eq) p (o.cmp_refl a))

  pub List-set : IsSet (List A)
  List-set = hedberg (hlevel discrete)

  pub gt_trans : (a b c : A) → gt a b ≡ true → gt b c ≡ true → gt a c ≡ true
  gt_trans a b c p q =
      ground (arith, o.lt_of_gt a b, o.lt_of_gt b c, o.lt_trans c b a, o.gt_of_lt c a)

  pub gt_asymm : (a b : A) → gt a b ≡ true → gt b a ≡ false
  gt_asymm a b p = ground (arith, o.lt_of_gt a b)

  pub gt_connex : (a b : A) → gt a b ≡ false → gt b a ≡ false → a ≡ b
  gt_connex a b p q = ground (arith, o.gt_of_lt a b, o.eq_of_cmp a b)

  -- Insertions commute: equal elements are one.
  pub insert_comm : (x y : A) (l : List A) → insert x (insert y l) ≡ insert y (insert x l)
  unfolding insert
  insert_comm x y [] = ground (arith, gt_connex x y, gt_asymm x y, gt_asymm y x)
  insert_comm x y (z ∷ l) = ground (
    arith,
    insert_comm x y l,
    gt_connex x y,
    gt_asymm x y,
    gt_asymm y x,
    gt_trans x y z,
    gt_trans y x z,
  )

  pub take-insert :
      (k : ℕ) (x : A) (l : List A) → take k (insert x (take k l)) ≡ take k (insert x l)
  unfolding insert
  take-insert zero x l = refl
  take-insert (suc k) x [] = refl
  take-insert (suc k) x (y ∷ l) = ground (arith, take-insert k x l, take-take k (suc k) (y ∷ l))

  pub length-insert : (x : A) (l : List A) → length (insert x l) ≡ suc (length l)
  unfolding insert
  length-insert x [] = refl
  length-insert x (y ∷ l) = ground (arith, length-insert x l)

  pub insert-perm : (x : A) (l : List A) → Perm (insert x l) (x ∷ l)
  unfolding insert
  insert-perm x [] = Perm.rfl
  insert-perm x (y ∷ l) =
      ground
        (arith, Perm.trans (Perm.cons y (insert-perm x l)) (Perm.swap x y l), Perm.refl (x ∷ y ∷ l))

  pub insert_all-insert :
      (xs : List A) (x : A) (acc : List A)
      → insert_all xs (insert x acc) ≡ insert x (insert_all xs acc)
  unfolding insert_all
  insert_all-insert [] x acc = refl
  insert_all-insert (y ∷ xs) x acc =
      rw (insert_comm y x acc) (insert_all-insert xs x (insert y acc))

  pub insert_all-append :
      (xs ys acc : List A) → insert_all (xs ++ ys) acc ≡ insert_all ys (insert_all xs acc)
  unfolding insert_all
  insert_all-append [] ys acc = refl
  insert_all-append (x ∷ xs) ys acc = insert_all-append xs ys (insert x acc)

  -- Only what is inserted counts, and not in which order.
  insert_all-Permᴰ :
      {xs ys : List A} → Permᴰ xs ys → (acc : List A) → insert_all xs acc ≡ insert_all ys acc
  unfolding insert_all
  insert_all-Permᴰ Permᴰ.nil acc = refl
  insert_all-Permᴰ (Permᴰ.cons {a = a} {l₁ = l₁} e p) acc = insert_all-Permᴰ p (insert a acc) ∙ rw e
  insert_all-Permᴰ (Permᴰ.swap {a = a} {b = b} {l = l} e f) acc =
      rw (← e, ← f) (ap (insert_all l) (insert_comm b a acc))
  insert_all-Permᴰ (Permᴰ.trans p q) acc = insert_all-Permᴰ p acc ∙ insert_all-Permᴰ q acc

  pub insert_all-Perm :
      {xs ys : List A} → Perm xs ys → (acc : List A) → insert_all xs acc ≡ insert_all ys acc
  insert_all-Perm p acc = ∥∥₁_elim p (List-set _ _) λ d. insert_all-Permᴰ d acc

  pub sort_desc-eq_of_perm : {xs ys : List A} → Perm xs ys → sort_desc xs ≡ sort_desc ys
  unfolding sort_desc
  sort_desc-eq_of_perm p = insert_all-Perm p []

  insert_all-perm : (xs acc : List A) → Perm (insert_all xs acc) (xs ++ acc)
  unfolding insert_all
  insert_all-perm [] acc = Perm.rfl
  insert_all-perm (x ∷ xs) acc =
      Perm.trans (insert_all-perm xs (insert x acc))
        (Perm.trans (Perm.append_left xs (insert-perm x acc)) (perm_middle xs acc))

  -- Sorting rearranges.
  pub sort_desc-perm : (xs : List A) → Perm (sort_desc xs) xs
  unfolding sort_desc
  sort_desc-perm xs = rw append-nil at (insert_all-perm xs [])

  pub take-insert_all :
      (k : ℕ) (xs acc : List A) → take k (insert_all xs (take k acc)) ≡ take k (insert_all xs acc)
  unfolding insert_all
  take-insert_all k [] acc = take-take k k acc (omega arith)
  take-insert_all k (x ∷ xs) acc =
      sym (take-insert_all k xs (insert x (take k acc)))
      ∙ (rw (take-insert k x acc) (take-insert_all k xs (insert x acc)))

  pub length-insert_all : (xs acc : List A) → length (insert_all xs acc) ≡ length xs + length acc
  unfolding insert_all
  length-insert_all [] acc = omega arith
  length-insert_all (x ∷ xs) acc =
      omega (arith, length-insert_all xs (insert x acc), length-insert x acc)
