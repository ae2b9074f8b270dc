-- ===== src/Aggregator/Grouping.antt =====
-- `group_by_shard` of crates/raftvec-aggregator/src/router.rs. `none` is a panic: of `shard_id`, or
-- of an index out of range.
use mathlib.Core.List.{append_assoc, append-nil}
use mathlib.Core.Path.{fun_ext}
use raftvec.Base.{
  true, false, refl, ap, arith, sym, ◌∙◌, ℕ, zero, suc, ◌%◌, ◌<◌, ◌≡◌, Option, none, some, List, [],
  ◌∷◌, ◌++◌, get_elem?, Bool, if◌then◌else◌, ◌==◌, nat_eq, length,
}
use raftvec.Core.Sharding.{shard_id, shard_id_total, u32_mod}

module _ {ℓ} {A : Type ℓ} where
  -- `groups[i] = a`, where `i` is in range.
  unfoldable pub set : List A → ℕ → A → List A
  set [] i a = []
  set (x ∷ l) zero a = a ∷ l
  set (x ∷ l) (suc i) a = x ∷ set l i a

  -- `(0..n).map(f).collect()`
  unfoldable pub tabulate : ℕ → (ℕ → A) → List A
  tabulate zero f = []
  tabulate (suc n) f = f 0 ∷ tabulate n (λ i. f (suc i))

  unfoldable pub filter : (A → Bool) → List A → List A
  filter p [] = []
  filter p (x ∷ l) = let rest = filter p l in if p x then x ∷ rest else rest

module _ {T : Type 0} (fxhash : ℕ → ℕ) (key : T → ℕ) (shard_count : ℕ) where
  unfoldable pub push_each : List (List T) → List T → Option (List (List T))
  push_each groups [] = some groups
  push_each groups (item ∷ items) = elim (shard_id fxhash (key item) shard_count) [
    | none ↦ none
    | some shard ↦ elim (get_elem? groups shard) [
      | none ↦ none
      | some group ↦ push_each (set groups shard (group ++ (item ∷ []))) items
    ]
  ]

  unfoldable pub group_by_shard : List T → Option (List (List T))
  unfolding push_each tabulate
  group_by_shard items = push_each (tabulate shard_count (λ shard. [])) items

module _ {ℓ} {A : Type ℓ} where
  tabulate-eq : (n : ℕ) (f g : ℕ → A) → ((i : ℕ) → f i ≡ g i) → tabulate n f ≡ tabulate n g
  tabulate-eq n f g h = rw (fun_ext h) refl

  pub length-tabulate : (n : ℕ) (f : ℕ → A) → length (tabulate n f) ≡ n
  unfolding tabulate
  length-tabulate zero f = refl
  length-tabulate (suc n) f = ap suc (length-tabulate n (λ i. f (suc i)))

  pub get_elem?-tabulate : (n i : ℕ) (f : ℕ → A) → i < n → get_elem? (tabulate n f) i ≡ some (f i)
  unfolding tabulate
  get_elem?-tabulate zero i f h = absurd (omega arith)
  get_elem?-tabulate (suc n) zero f h = refl
  get_elem?-tabulate (suc n) (suc i) f h = get_elem?-tabulate n i (λ j. f (suc j)) (omega arith)

  set-tabulate :
      (n i : ℕ) (f g : ℕ → A) (a : A)
      → i < n
      → a ≡ g i
      → ((j : ℕ) → ¬ (j ≡ i) → f j ≡ g j)
      → set (tabulate n f) i a ≡ tabulate n g
  unfolding set tabulate
  set-tabulate zero i f g a h e u = absurd (omega arith)
  set-tabulate (suc n) zero f g a h e u =
      rw (e, tabulate-eq n (λ j. f (suc j)) (λ j. g (suc j)) (λ j. u (suc j) (λ z. omega arith)))
        refl
  set-tabulate (suc n) (suc i) f g a h e u = rw (u 0 (λ z. omega arith)) (
      ap (◌∷◌ (g 0)) (
        set-tabulate n i (λ j. f (suc j)) (λ j. g (suc j)) a (omega arith) e
          (λ j ne. u (suc j) (λ z. ne (omega arith)))))

nat_same : (s : ℕ) → (s == s) ≡ true
nat_same s = ground arith

nat_other : (j s : ℕ) → ¬ (j ≡ s) → (j == s) ≡ false
nat_other j s ne = ground (arith, ne)

module _ {T : Type 0} (fxhash : ℕ → ℕ) (key : T → ℕ) (n : ℕ) where
  -- The items of one shard.
  abbrev pub belongs : ℕ → T → Bool
  belongs shard item = shard == fxhash (key item) % n

  push_each-cons :
      (groups : List (List T)) (item : T) (items : List T) (shard : ℕ) (group : List T)
      → shard_id fxhash (key item) n ≡ some shard
      → get_elem? groups shard ≡ some group
      → push_each fxhash key n groups (item ∷ items)
        ≡ push_each fxhash key n (set groups shard (group ++ (item ∷ []))) items
  unfolding push_each
  push_each-cons groups item items shard group e found = rw (e, found, push_each)

  push_each-tabulate :
      0 < n
      → n < u32_mod
      → (items : List T) (f : ℕ → List T)
      → push_each fxhash key n (tabulate n f) items
        ≡ some (tabulate n (λ s. f s ++ filter (belongs s) items))
  unfolding push_each filter
  push_each-tabulate p h [] f = ap some (tabulate-eq n _ _ (λ s. sym (append-nil (f s))))
  push_each-tabulate p h (item ∷ items) f =
      let (total, in_range) = shard_id_total fxhash (key item) n p h in
      let shard = fxhash (key item) % n in
      push_each-cons (tabulate n f) item items shard (f shard) total
        (get_elem?-tabulate n shard f in_range)
      ∙ rw
          (set-tabulate n shard f (with_item f) (f shard ++ (item ∷ [])) in_range (at shard)
            (others shard))
          (push_each-tabulate p h items (with_item f)
            ∙ ap some (tabulate-eq n _ _ (λ s. joined s (belongs s item))))
    where
      with_item : (ℕ → List T) → ℕ → List T
      with_item f s = f s ++ (if belongs s item then item ∷ [] else [])

      at : (s : ℕ) → f s ++ (item ∷ []) ≡ f s ++ (if s == s then item ∷ [] else [])
      at s = rw (nat_same s) refl

      others : (s j : ℕ) → ¬ (j ≡ s) → f j ≡ f j ++ (if j == s then item ∷ [] else [])
      others s j ne = rw (nat_other j s ne) (sym (append-nil (f j)))

      joined :
          (s : ℕ) (b : Bool)
          → (f s ++ (if b then item ∷ [] else [])) ++ filter (belongs s) items
            ≡ f s ++ (if b then item ∷ filter (belongs s) items else filter (belongs s) items)
      joined s true = append_assoc (f s) (item ∷ []) (filter (belongs s) items)
      joined s false = ap (λ l. l ++ filter (belongs s) items) (append-nil (f s))

  -- With at least one shard and a `u32` for their number, grouping does not panic; the result has a
  -- bucket for each shard, and the bucket of a shard is the items whose key hashes to it, in their
  -- order.
  pub group_by_shard_lem :
      0 < n
      → n < u32_mod
      → (items : List T)
      → group_by_shard fxhash key n items ≡ some (tabulate n (λ s. filter (belongs s) items))
  unfolding group_by_shard
  group_by_shard_lem p h items = push_each-tabulate p h items (λ s. [])
