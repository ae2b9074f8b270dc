-- ===== src/Order/Found.antt =====
-- What becomes of one element of a list among the `k` greatest.
use native.Mathlib.Decide.{dec_lt}
use raftvec.Base.{
  ℕ, zero, suc, subst, ◌≡◌, ◌≤◌, ◌<◌, refl, ◌⊎◌, inl, inr, some, false, List, [], ◌∷◌, length,
  get_elem?, take, drop, All, arith, length-take, Bool-cases,
}
use raftvec.Order.{Ord, gt, insert, insert_all, sort_desc}
use raftvec.Order.Sorted.{sort_desc-IsDescending}
use raftvec.Order.Top.{top, beaten_by_prefix}

module _ {ℓ} {A : Type ℓ} where
  -- The element has a place in the list.
  abbrev pub In : A → List A → Type ℓ
  In x l = (j : ℕ) × (get_elem? l j ≡ some x)

  pub All-In {κ} : (P : A → Type κ) (x : A) (l : List A) → In x l → All P l → P x
  All-In P x [] (j, e) h = absurd (cc)
  All-In P x (y ∷ l) (zero, e) h = let same : y ≡ x = ground arith in subst P same h.0
  All-In P x (y ∷ l) (suc j, e) h = All-In P x l (j, e) h.1

  In-take :
      (k j : ℕ) (x : A) (l : List A)
      → get_elem? l j ≡ some x
      → j < k
      → get_elem? (take k l) j ≡ some x
  In-take zero j x l e lt = absurd (omega arith)
  In-take (suc k) j x [] e lt = absurd (cc)
  In-take (suc k) zero x (y ∷ l) e lt = e
  In-take (suc k) (suc j) x (y ∷ l) e lt = In-take k j x l e (omega arith)

  In-drop : (k j : ℕ) (x : A) (l : List A) → get_elem? l j ≡ some x → k ≤ j → In x (drop k l)
  In-drop zero j x l e le = (j, e)
  In-drop (suc k) j x [] e le = absurd (cc)
  In-drop (suc k) zero x (y ∷ l) e le = absurd (omega arith)
  In-drop (suc k) (suc j) x (y ∷ l) e le = In-drop k j x l e (omega arith)

  pub In-lt : (j : ℕ) (x : A) (l : List A) → get_elem? l j ≡ some x → j < length l
  In-lt j x [] e = absurd (cc)
  In-lt zero x (y ∷ l) e = omega arith
  In-lt (suc j) x (y ∷ l) e = omega (arith, In-lt j x l e)

module _ {ℓ} {A : Type ℓ} ⦃o : Ord A⦄ where
  insert_self : (x : A) (l : List A) → In x (insert x l)
  unfolding insert
  insert_self x [] = (0, refl)
  insert_self x (y ∷ l) = elim (Bool-cases (gt x y)) [
    | inl g ↦ (0, ground arith)
    | inr g ↦ let (j, e) = insert_self x l in (suc j, ground arith)
  ]

  insert_others : (z x : A) (l : List A) → In x l → In x (insert z l)
  unfolding insert
  insert_others z x [] (j, e) = absurd (cc)
  insert_others z x (y ∷ l) (j, e) = elim (Bool-cases (gt z y)) [
    | inl g ↦ (suc j, ground arith)
    | inr g ↦ elim (cases_of j) [
      | inl f ↦ (0, ground arith)
      | inr (i, f) ↦ let (m, h) = insert_others z x l (i, ground arith) in (suc m, ground arith)
    ]
  ]
    where
      cases_of : (j : ℕ) → (j ≡ 0) ⊎ ((i : ℕ) × (j ≡ suc i))
      cases_of zero = inl refl
      cases_of (suc i) = inr (i, refl)

  insert_all-In : (xs acc : List A) (x : A) → In x xs ⊎ In x acc → In x (insert_all xs acc)
  unfolding insert_all
  insert_all-In [] acc x (inl (j, e)) = absurd (cc)
  insert_all-In [] acc x (inr h) = h
  insert_all-In (y ∷ xs) acc x (inl (zero, e)) =
      let same : y ≡ x = ground arith in
      insert_all-In xs (insert y acc) x (inr (rw same (insert_self x acc)))
  insert_all-In (y ∷ xs) acc x (inl (suc j, e)) = insert_all-In xs (insert y acc) x (inl (j, e))
  insert_all-In (y ∷ xs) acc x (inr h) =
      insert_all-In xs (insert y acc) x (inr (insert_others y x acc h))

  -- The element has a place in the ranking, or the ranking has `k` places, all taken by elements
  -- that it is not greater than.
  abbrev pub Ranked : ℕ → A → List A → Type ℓ
  Ranked k x l = In x l ⊎ ((length l ≡ k) × All (λ y. gt x y ≡ false) l)

  -- Every element of a list is ranked by the `k` greatest.
  pub top-Ranked : (k : ℕ) (xs : List A) (x : A) → In x xs → Ranked k x (top k xs)
  unfolding top sort_desc
  top-Ranked k xs x h =
      let (j, e) = insert_all-In xs [] x (inl h) in
      elim (dec_lt j k) [
        | yes lt ↦ inl (j, In-take k j x (sort_desc xs) e lt)
        | no ge ↦
            let out = In-drop k j x (sort_desc xs) e (omega arith) in
            let many = In-lt j x (sort_desc xs) e in
            inr (
              omega (arith, length-take k (sort_desc xs), many),
              All-In (λ y. All (λ z. gt y z ≡ false) (take k (sort_desc xs))) x
                  (drop k (sort_desc xs)) out
                  (beaten_by_prefix k (sort_desc xs) (sort_desc-IsDescending xs)),
            )
      ]
