-- ===== src/BTreeMap/Laws.antt =====
-- `BTreeMap`: what its operations show, key by key.
use raftvec.Base.{
  ℕ, ◌<◌, ◌≤◌, ◌≡◌, refl, subst, ap, Bool, true, false, List, [], ◌∷◌, none, some, if◌then◌else◌,
  ltb, ◌==◌, nat_eq, nat_beq_iff, ◌&&◌, ◌||◌, All, Bool-cases, inl, inr, arith,
}
use raftvec.BTreeMap.{
  BTreeMap, Range, in_range, get, insert, remove, remove_all, range, select, next_back, keys,
}

abbrev pub listed : ℕ → List ℕ → Bool
listed k [] = false
listed k (j ∷ ks) = j == k || listed k ks

module _ {V : Type 0} where
  abbrev pub IsAscending : BTreeMap V → Type 0
  IsAscending [] = Unit
  IsAscending ((k, v) ∷ m) = All (λ e. k < e.0) m × IsAscending m

  pub get_below : (m : BTreeMap V) (k : ℕ) → All (λ e. k < e.0) m → get m k ≡ none
  unfolding get
  get_below [] k h = refl
  get_below ((j, w) ∷ m) k h = ground (arith, get_below m k h.1)

  All-lt_trans : (j k : ℕ) (m : BTreeMap V) → j < k → All (λ e. k < e.0) m → All (λ e. j < e.0) m
  All-lt_trans j k [] p h = tt
  All-lt_trans j k (e ∷ m) p h = (omega arith, All-lt_trans j k m p h.1)

  -- An entry's own property, at every entry.
  pub All-insert {κ} :
      (P : ℕ × V → Type κ) (m : BTreeMap V) (k : ℕ) (v : V)
      → P (k, v)
      → All P m
      → All P (insert m k v)
  unfolding insert
  All-insert P [] k v p h = (p, tt)
  All-insert P ((j, w) ∷ m) k v p h = elim (Bool-cases (ltb k j)) [
    | inl e ↦ rw (e, insert) (p, h)
    | inr e ↦ elim (Bool-cases (j == k)) [
      | inl f ↦ rw (e, insert, f) (p, h.1)
      | inr f ↦ rw (e, insert, f) (h.0, All-insert P m k v p h.1)
    ]
  ]

  pub All-remove {κ} : (P : ℕ × V → Type κ) (m : BTreeMap V) (k : ℕ) → All P m → All P (remove m k)
  unfolding remove
  All-remove P [] k h = tt
  All-remove P ((j, w) ∷ m) k h = elim (Bool-cases (j == k)) [
    | inl f ↦ rw (f, remove) h.1
    | inr f ↦ rw (f, remove) (h.0, All-remove P m k h.1)
  ]

  pub insert-IsAscending :
      (m : BTreeMap V) (k : ℕ) (v : V) → IsAscending m → IsAscending (insert m k v)
  unfolding insert
  insert-IsAscending [] k v a = (tt, tt)
  insert-IsAscending ((j, w) ∷ m) k v a = elim (Bool-cases (ltb k j)) [
    | inl e ↦ rw (e, insert) ((ground arith, All-lt_trans k j m (ground arith) a.0), a)
    | inr e ↦ elim (Bool-cases (j == k)) [
      | inl f ↦
          rw (e, insert, f)
            (subst (λ i. All (λ (x : ℕ × V). i < x.0) m) ((nat_beq_iff j k).0 f) a.0, a.1)
      | inr f ↦
          rw (e, insert, f)
            (All-insert (λ x. j < x.0) m k v (ground arith) a.0, insert-IsAscending m k v a.1)
    ]
  ]

  pub remove-IsAscending : (m : BTreeMap V) (k : ℕ) → IsAscending m → IsAscending (remove m k)
  unfolding remove
  remove-IsAscending [] k a = tt
  remove-IsAscending ((j, w) ∷ m) k a = elim (Bool-cases (j == k)) [
    | inl f ↦ rw (f, remove) a.1
    | inr f ↦ rw (f, remove) (All-remove (λ x. j < x.0) m k a.0, remove-IsAscending m k a.1)
  ]

  pub get-insert :
      (m : BTreeMap V) (k j : ℕ) (v : V)
      → get (insert m k v) j ≡ (if k == j then some v else get m j)
  unfolding get insert
  get-insert [] k j v = refl
  get-insert ((i, w) ∷ m) k j v = ground (arith, get-insert m k j v)

  pub get-remove :
      (m : BTreeMap V) (k j : ℕ)
      → IsAscending m
      → get (remove m k) j ≡ (if k == j then none else get m j)
  unfolding get remove
  get-remove [] k j a = ground arith
  get-remove ((i, w) ∷ m) k j a = ground (arith, get-remove m k j a.1, get_below m i a.0)

  pub remove_all-IsAscending :
      (m : BTreeMap V) (ks : List ℕ) → IsAscending m → IsAscending (remove_all m ks)
  unfolding remove_all
  remove_all-IsAscending m [] a = a
  remove_all-IsAscending m (k ∷ ks) a =
      remove_all-IsAscending (remove m k) ks (remove-IsAscending m k a)

  pub All-remove_all {κ} :
      (P : ℕ × V → Type κ) (m : BTreeMap V) (ks : List ℕ) → All P m → All P (remove_all m ks)
  unfolding remove_all
  All-remove_all P m [] h = h
  All-remove_all P m (k ∷ ks) h = All-remove_all P (remove m k) ks (All-remove P m k h)

  get-remove_all :
      (m : BTreeMap V) (ks : List ℕ) (j : ℕ)
      → IsAscending m
      → get (remove_all m ks) j ≡ (if listed j ks then none else get m j)
  unfolding remove_all
  get-remove_all m [] j a = refl
  get-remove_all m (k ∷ ks) j a =
      ground
        (arith, get-remove_all (remove m k) ks j (remove-IsAscending m k a), get-remove m k j a)

  abbrev present : BTreeMap V → ℕ → Bool
  present m k = elim (get m k) [ none ↦ false | some _ ↦ true ]

  listed-select :
      (test : ℕ → Bool) (m : BTreeMap V) (j : ℕ)
      → listed j (keys (select test m)) ≡ (test j && present m j)
  unfolding select get
  listed-select test [] j = ground arith
  listed-select test ((k, v) ∷ m) j = elim (Bool-cases (k == j)) [
    | inl e ↦
        let same : test k ≡ test j = ap test ((nat_beq_iff k j).0 e) in
        ground (arith, listed-select test m j, same)
    | inr e ↦ ground (arith, listed-select test m j)
  ]

  -- To remove the keys of a range is to keep what lies outside.
  pub get-remove_range :
      (m : BTreeMap V) (r : Range) (j : ℕ)
      → IsAscending m
      → get (remove_all m (keys (range m r))) j ≡ (if in_range r j then none else get m j)
  unfolding range
  get-remove_range m r j a =
      ground (arith, get-remove_all m (keys (range m r)) j a, listed-select (in_range r) m j)

  -- No key is greater than the last one.
  pub next_back-greatest :
      (m : BTreeMap V) (k : ℕ) (v : V)
      → IsAscending m
      → next_back m ≡ some (k, v)
      → All (λ e. e.0 ≤ k) m
  unfolding next_back
  next_back-greatest [] k v a e = tt
  next_back-greatest ((j, w) ∷ []) k v a e = (ground arith, tt)
  next_back-greatest ((j, w) ∷ (i, u) ∷ m) k v a e =
      let rest = next_back-greatest ((i, u) ∷ m) k v a.1 e in (omega (arith, rest.0, a.0.0), rest)

  pub All-get {κ} :
      (P : ℕ × V → Type κ) (m : BTreeMap V) (k : ℕ) (v : V) → All P m → get m k ≡ some v → P (k, v)
  unfolding get
  All-get P [] k v h q = absurd (cc)
  All-get P ((i, w) ∷ m) k v h q = elim (Bool-cases (i == k)) [
    | inl r ↦
        let key : i ≡ k = (nat_beq_iff i k).0 r in
        let value : w ≡ v = ground arith in subst P (λ t. (key t, value t)) h.0
    | inr r ↦ All-get P m k v h.1 (rw r at q)
  ]

  -- The last entry is an entry.
  pub get-next_back :
      (m : BTreeMap V) (k : ℕ) (v : V)
      → IsAscending m
      → next_back m ≡ some (k, v)
      → get m k ≡ some v
  unfolding next_back get
  get-next_back [] k v a e = absurd (cc)
  get-next_back ((j, w) ∷ []) k v a e = ground arith
  get-next_back ((j, w) ∷ (i, u) ∷ m) k v a e =
      let rest = get-next_back ((i, u) ∷ m) k v a.1 e in
      let far : i ≤ k = (next_back-greatest ((i, u) ∷ m) k v a.1 e).0 in
      let apart : j < i = a.0.0 in ground (arith, rest, far, apart)

  pub nil_of_next_back : (m : BTreeMap V) → next_back m ≡ none → m ≡ []
  unfolding next_back
  nil_of_next_back [] e = refl
  nil_of_next_back (x ∷ []) e = absurd (cc)
  nil_of_next_back (x ∷ y ∷ m) e = absurd (cc (nil_of_next_back (y ∷ m) e))
