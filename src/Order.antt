-- ===== src/Order.antt =====
-- `Ord` of Rust, and what the standard library's heap and sort make of it: lists in descending
-- order.
pub mod Laws
pub mod Sorted
pub mod Top
pub mod Every
pub mod Found
use raftvec.Base.{ℕ, ◌≡◌, ap, Bool, true, false, List, [], ◌∷◌, arith, Ordering, if◌then◌else◌}

-- The contract of `Ord::cmp`: a total order whose `Equal` means equal.
pub record IsTotal {ℓ} {A : Type ℓ} (cmp : A → A → Ordering) : Type ℓ where
  pub eq_of_cmp : (a b : A) → cmp a b ≡ Ordering.eq → a ≡ b
  pub cmp_refl : (a : A) → cmp a a ≡ Ordering.eq
  pub lt_of_gt : (a b : A) → cmp a b ≡ Ordering.gt → cmp b a ≡ Ordering.lt
  pub gt_of_lt : (a b : A) → cmp a b ≡ Ordering.lt → cmp b a ≡ Ordering.gt
  pub lt_trans : (a b c : A) → cmp a b ≡ Ordering.lt → cmp b c ≡ Ordering.lt → cmp a c ≡ Ordering.lt

pub record Ord {ℓ} (A : Type ℓ) : Type ℓ where
  pub cmp : A → A → Ordering
  pub total : IsTotal cmp
  pub open total use *

-- `Ordering::then_with`.
abbrev pub then_with : Ordering → Ordering → Ordering
then_with Ordering.eq second = second
then_with first second = first

module _ {ℓ} {A : Type ℓ} ⦃o : Ord A⦄ where
  -- `a > b`.
  abbrev pub gt : A → A → Bool
  gt a b = elim (o.cmp a b) [ Ordering.gt ↦ true | _ ↦ false ]

  -- A new element of a list in descending order, behind its equals.
  unfoldable pub insert : A → List A → List A
  insert x [] = x ∷ []
  insert x (y ∷ ys) = if gt x y then x ∷ y ∷ ys else y ∷ insert x ys

  -- Each element of the first list in turn.
  unfoldable pub insert_all : List A → List A → List A
  unfolding insert
  insert_all [] acc = acc
  insert_all (x ∷ xs) acc = insert_all xs (insert x acc)

  -- `sort_by(|a, b| b.cmp(a))`, which is stable.
  unfoldable pub sort_desc : List A → List A
  unfolding insert_all
  sort_desc xs = insert_all xs []
