-- ===== src/MinHeap.antt =====
-- `BinaryHeap<Reverse<T>>` of the standard library, as the list of its elements in descending
-- order: the root, which `peek` shows and `pop` takes, is the least one and stands last.
-- `push` is `Order.insert`, `len` the length, and `into_iter` gives the list.
use raftvec.Base.{
  suc, ◌≡◌, refl, ap, subst, true, false, List, [], ◌∷◌, arith, take, length, Option, none, some,
  All,
}
use raftvec.Order.{Ord, gt, insert}
use raftvec.Order.Sorted.{IsDescending, not_gt_trans}

module _ {ℓ} {A : Type ℓ} where
  unfoldable pub peek : List A → Option A
  peek [] = none
  peek (x ∷ []) = some x
  peek (x ∷ y ∷ l) = peek (y ∷ l)

  unfoldable pub pop : List A → List A
  pop [] = []
  pop (x ∷ []) = []
  pop (x ∷ y ∷ l) = x ∷ pop (y ∷ l)

  take-length-cons : (x : A) (l : List A) → take (length l) (x ∷ l) ≡ pop (x ∷ l)
  unfolding pop
  take-length-cons x [] = refl
  take-length-cons x (y ∷ l) = ap (◌∷◌ x) (take-length-cons y l)

  pub length-pop : (x : A) (l : List A) → length (pop (x ∷ l)) ≡ length l
  unfolding pop
  length-pop x [] = refl
  length-pop x (y ∷ l) = ap suc (length-pop y l)

  pub peek-cons : (x : A) (l : List A) → (w : A) × (peek (x ∷ l) ≡ some w)
  unfolding peek
  peek-cons x [] = (x, refl)
  peek-cons x (y ∷ l) = peek-cons y l

  All-peek {κ} : (P : A → Type κ) (l : List A) (w : A) → All P l → peek l ≡ some w → P w
  unfolding peek
  All-peek P [] w h e = absurd (cc)
  All-peek P (x ∷ []) w h e = subst P (cc) h.0
  All-peek P (x ∷ y ∷ l) w h e = All-peek P (y ∷ l) w h.1 e

module _ {ℓ} {A : Type ℓ} ⦃o : Ord A⦄ where
  -- What a full heap keeps of itself and a new element that does not beat the root.
  pub take-insert_low :
      (x w : A) (h : List A)
      → IsDescending h
      → peek h ≡ some w
      → gt x w ≡ false
      → take (length h) (insert x h) ≡ h
  unfolding insert peek
  take-insert_low x w [] d e p = refl
  take-insert_low x w (y ∷ []) d e p = ground arith
  take-insert_low x w (y ∷ z ∷ h) d e p = ground (
    arith,
    not_gt_trans x w y p (All-peek (λ v. gt v y ≡ false) (z ∷ h) w d.0 e),
    take-insert_low x w (z ∷ h) d.1 e p,
  )

  -- ... and of a new element that does.
  pub take-insert_high :
      (x w : A) (h : List A)
      → peek h ≡ some w
      → gt x w ≡ true
      → take (length h) (insert x h) ≡ insert x (pop h)
  unfolding insert pop peek
  take-insert_high x w [] e p = absurd (cc)
  take-insert_high x w (y ∷ []) e p = ground arith
  take-insert_high x w (y ∷ z ∷ h) e p =
      ground (arith, take-length-cons z h, take-insert_high x w (z ∷ h) e p)
