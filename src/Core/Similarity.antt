-- ===== src/Core/Similarity.antt =====
-- crates/raftvec-core/src/similarity.rs. Each loop is a function over its accumulator.
use raftvec.Base.{◌≡◌, refl, List, [], ◌∷◌, ◌||◌, if◌then◌else◌, length, arith}
use raftvec.Core.Float.{Float}

module _ {F : Type 0} ⦃fl : Float F⦄ where
  -- `for x in v { acc += x * x; }`
  sum_squares : F → List F → F
  sum_squares acc [] = acc
  sum_squares acc (x ∷ v) = sum_squares (fl.add acc (fl.mul x x)) v

  unfoldable pub norm_sq : List F → F
  unfolding sum_squares
  norm_sq v = sum_squares fl.zero v

  -- `for (x, y) in a.iter().zip(b.iter()) { dot += x * y; }`
  sum_products : F → List F → List F → F
  sum_products dot [] b = dot
  sum_products dot (x ∷ a) [] = dot
  sum_products dot (x ∷ a) (y ∷ b) = sum_products (fl.add dot (fl.mul x y)) a b

  unfoldable pub cosine_from_norm_sq : List F → List F → F → F → F
  unfolding sum_products
  cosine_from_norm_sq a b a_norm_sq b_norm_sq =
      if fl.eq a_norm_sq fl.zero || fl.eq b_norm_sq fl.zero
      then fl.zero
      else fl.div (sum_products fl.zero a b) (fl.mul (fl.sqrt a_norm_sq) (fl.sqrt b_norm_sq))

  -- The `debug_assert_eq!` on the lengths is not compiled in a release build.
  unfoldable pub cosine_similarity : List F → List F → F
  unfolding cosine_from_norm_sq norm_sq
  cosine_similarity a b = cosine_from_norm_sq a b (norm_sq a) (norm_sq b)

  -- One pass that keeps the three sums together, for vectors of one length.
  abbrev pub fused_sums : F → F → F → List F → List F → F × F × F
  fused_sums dot na nb [] b = (dot, na, nb)
  fused_sums dot na nb (x ∷ a) [] = (dot, na, nb)
  fused_sums dot na nb (x ∷ a) (y ∷ b) =
      fused_sums (fl.add dot (fl.mul x y)) (fl.add na (fl.mul x x)) (fl.add nb (fl.mul y y)) a b

  abbrev pub cosine_of_sums : F × F × F → F
  cosine_of_sums (dot, na, nb) =
      if fl.eq na fl.zero || fl.eq nb fl.zero
      then fl.zero
      else fl.div dot (fl.mul (fl.sqrt na) (fl.sqrt nb))

  fused_sums_lem :
      (dot na nb : F) (a b : List F)
      → length a ≡ length b
      → fused_sums dot na nb a b ≡ (sum_products dot a b, sum_squares na a, sum_squares nb b)
  unfolding sum_products sum_squares
  fused_sums_lem dot na nb [] [] h = refl
  fused_sums_lem dot na nb [] (y ∷ b) h = absurd (omega arith)
  fused_sums_lem dot na nb (x ∷ a) [] h = absurd (omega arith)
  fused_sums_lem dot na nb (x ∷ a) (y ∷ b) h =
      fused_sums_lem (fl.add dot (fl.mul x y)) (fl.add na (fl.mul x x)) (fl.add nb (fl.mul y y)) a b
        (omega arith)

  -- For two vectors of one length, `cosine_from_norm_sq` over the two separately computed norms is
  -- the value that a single pass gives which keeps the dot product and both norms together: the
  -- same operations on floats in the same order.
  pub cosine_similarity-eq-fused :
      (a b : List F)
      → length a ≡ length b
      → cosine_from_norm_sq a b (norm_sq a) (norm_sq b)
        ≡ cosine_of_sums (fused_sums fl.zero fl.zero fl.zero a b)
  unfolding cosine_from_norm_sq norm_sq
  cosine_similarity-eq-fused a b h = rw (fused_sums_lem fl.zero fl.zero fl.zero a b h)
