-- ===== src/HashMap/Laws.antt =====
-- What a map shows of its operations. A well-formed map has each key once.
use raftvec.Base.{
  ◌+◌, ◌≡◌, refl, subst, Eq, ◌==◌, [], ◌∷◌, ◌++◌, none, some, if◌then◌else◌, All, length, arith,
  Bool-cases, inl, inr,
}
use raftvec.HashMap.{HashMap, get, insert, remove}

module _ {ℓ κ} {K : Type ℓ} ⦃e : Eq K⦄ {V : Type κ} where
  pub get-insert :
      (m : HashMap K V) (k j : K) (v : V)
      → get (insert m k v) j ≡ (if k == j then some v else get m j)
  unfolding get insert
  get-insert [] k j v = refl
  get-insert ((i, w) ∷ m) k j v =
      ground (arith, e.beq_iff i k, e.beq_iff i j, e.beq_iff k j, get-insert m k j v)

  -- The keys of the list are distinct.
  abbrev pub IsMap : HashMap K V → Type κ
  IsMap [] = Unit
  IsMap ((k, v) ∷ m) = (get m k ≡ none) × IsMap m

  pub get-remove :
      (m : HashMap K V) (k j : K)
      → IsMap m
      → get (remove m k) j ≡ (if k == j then none else get m j)
  unfolding get remove
  get-remove [] k j h = ground arith
  get-remove ((i, w) ∷ m) k j h =
      ground (arith, e.beq_iff i k, e.beq_iff i j, e.beq_iff k j, h.0, get-remove m k j h.1)

  pub insert-IsMap : (m : HashMap K V) (k : K) (v : V) → IsMap m → IsMap (insert m k v)
  unfolding insert get
  insert-IsMap [] k v h = (refl, tt)
  insert-IsMap ((i, w) ∷ m) k v h =
      ground (arith, insert-IsMap m k v h.1, get-insert m k i v, e.beq_iff i k, e.beq_iff k i)

  pub remove-IsMap : (m : HashMap K V) (k : K) → IsMap m → IsMap (remove m k)
  unfolding remove
  remove-IsMap [] k h = tt
  remove-IsMap ((i, w) ∷ m) k h = ground (arith, remove-IsMap m k h.1, get-remove m k i h.1)

  pub length-remove :
      (m : HashMap K V) (k : K)
      → length m ≡ length (remove m k) + (elim (get m k) [ none ↦ 0 | some _ ↦ 1 ])
  unfolding remove get
  length-remove [] k = refl
  length-remove ((i, w) ∷ m) k = ground (arith, length-remove m k)

  -- A property of every entry.
  pub All-insert {μ} :
      (P : K × V → Type μ) (m : HashMap K V) (k : K) (v : V)
      → P (k, v)
      → All P m
      → All P (insert m k v)
  unfolding insert
  All-insert P [] k v p h = (p, tt)
  All-insert P ((i, w) ∷ m) k v p h = elim (Bool-cases (i == k)) [
    | inl q ↦ rw (q, insert) (p, h.1)
    | inr q ↦ rw (q, insert) (h.0, All-insert P m k v p h.1)
  ]

  pub All-remove {μ} : (P : K × V → Type μ) (m : HashMap K V) (k : K) → All P m → All P (remove m k)
  unfolding remove
  All-remove P [] k h = tt
  All-remove P ((i, w) ∷ m) k h = elim (Bool-cases (i == k)) [
    | inl q ↦ rw (q, remove) h.1
    | inr q ↦ rw (q, remove) (h.0, All-remove P m k h.1)
  ]

  pub All-get {μ} :
      (P : K × V → Type μ) (m : HashMap K V) (k : K) (v : V) → All P m → get m k ≡ some v → P (k, v)
  unfolding get
  All-get P [] k v h q = absurd (cc)
  All-get P ((i, w) ∷ m) k v h q = elim (Bool-cases (i == k)) [
    | inl r ↦
        let key : i ≡ k = (e.beq_iff i k).0 r in
        let value : w ≡ v = ground arith in subst P (λ t. (key t, value t)) h.0
    | inr r ↦ All-get P m k v h.1 (rw r at q)
  ]

  pub get-append :
      (m n : HashMap K V) (k : K)
      → get (m ++ n) k ≡ (elim (get m k) [ none ↦ get n k | some v ↦ some v ])
  unfolding get
  get-append [] n k = refl
  get-append ((i, w) ∷ m) n k = ground (arith, get-append m n k)
