-- ===== src/HashMap.antt =====
-- `HashMap` of the standard library, as an association list. Its order of iteration, which Rust
-- leaves open, is the order of the list.
pub mod Laws
pub mod Build
use raftvec.Base.{
  Eq, ◌==◌, Bool, true, false, List, [], ◌∷◌, Option, none, some, if◌then◌else◌, map,
}

abbrev pub HashMap {ℓ κ} : Type ℓ → Type κ → Type (ℓ ⊔ κ)
HashMap K V = List (K × V)

module _ {ℓ κ} {K : Type ℓ} {V : Type κ} where
  abbrev pub keys : HashMap K V → List K
  keys = map λ e. e.0

  abbrev pub values : HashMap K V → List V
  values = map λ e. e.1

module _ {ℓ κ} {K : Type ℓ} ⦃e : Eq K⦄ {V : Type κ} where
  unfoldable pub get : HashMap K V → K → Option V
  get [] k = none
  get ((j, v) ∷ m) k = if j == k then some v else get m k

  unfoldable pub contains_key : HashMap K V → K → Bool
  unfolding get
  contains_key m k = elim (get m k) [ none ↦ false | some _ ↦ true ]

  unfoldable pub insert : HashMap K V → K → V → HashMap K V
  insert [] k v = (k, v) ∷ []
  insert ((j, w) ∷ m) k v = if j == k then (k, v) ∷ m else (j, w) ∷ insert m k v

  unfoldable pub remove : HashMap K V → K → HashMap K V
  remove [] k = []
  remove ((j, w) ∷ m) k = let rest = remove m k in if j == k then m else (j, w) ∷ rest

  insert_each : HashMap K V → List (K × V) → HashMap K V
  insert_each m [] = m
  insert_each m ((k, v) ∷ kvs) = insert_each (insert m k v) kvs

  -- `collect()` of pairs: a later value of a key takes the place of an earlier one.
  unfoldable pub collect : List (K × V) → HashMap K V
  unfolding insert insert_each
  collect kvs = insert_each [] kvs
