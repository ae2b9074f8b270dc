-- ===== src/BTreeMap.antt =====
-- `BTreeMap<u64, V>` of the standard library, as an association list with ascending keys.
pub mod Laws
use raftvec.Base.{
  ℕ, ◌≡◌, Bool, true, false, List, [], ◌∷◌, Option, none, some, if◌then◌else◌, ltb, leb, ◌==◌,
  nat_eq, map, ◌&&◌,
}

abbrev pub BTreeMap : Type 0 → Type 0
BTreeMap V = List (ℕ × V)

-- `std::ops::Bound`, and the test that a pair of bounds makes of a key.
pub data Bound : Type 0 where
  included excluded : ℕ → Bound
  unbounded : Bound

abbrev above : Bound → ℕ → Bool
above (included a) k = leb a k
above (excluded a) k = ltb a k
above unbounded k = true

abbrev below : Bound → ℕ → Bool
below (included b) k = leb k b
below (excluded b) k = ltb k b
below unbounded k = true

-- `RangeBounds<u64>`
pub record Range : Type 0 where
  pub start : Bound
  pub end : Bound

abbrev pub in_range : Range → ℕ → Bool
in_range r k = above r.start k && below r.end k

module _ {V : Type 0} where
  unfoldable pub get : BTreeMap V → ℕ → Option V
  get [] k = none
  get ((j, v) ∷ m) k = if j == k then some v else get m k

  unfoldable pub insert : BTreeMap V → ℕ → V → BTreeMap V
  insert [] k v = (k, v) ∷ []
  insert ((j, w) ∷ m) k v =
      if ltb k j then (k, v) ∷ (j, w) ∷ m else if j == k then (k, v) ∷ m else (j, w) ∷ insert m k v

  unfoldable pub remove : BTreeMap V → ℕ → BTreeMap V
  remove [] k = []
  remove ((j, w) ∷ m) k = if j == k then m else (j, w) ∷ remove m k

  unfoldable pub remove_all : BTreeMap V → List ℕ → BTreeMap V
  unfolding remove
  remove_all m [] = m
  remove_all m (k ∷ ks) = remove_all (remove m k) ks

  unfoldable pub select : (ℕ → Bool) → BTreeMap V → BTreeMap V
  select test [] = []
  select test ((k, v) ∷ m) = let rest = select test m in if test k then (k, v) ∷ rest else rest

  unfoldable pub range : BTreeMap V → Range → BTreeMap V
  unfolding select
  range m r = select (in_range r) m

  -- `iter().next_back()`
  unfoldable pub next_back : BTreeMap V → Option (ℕ × V)
  next_back [] = none
  next_back (e ∷ []) = some e
  next_back (e ∷ f ∷ m) = next_back (f ∷ m)

  abbrev pub keys : BTreeMap V → List ℕ
  keys = map λ e. e.0

  abbrev pub values : BTreeMap V → List V
  values = map λ e. e.1
