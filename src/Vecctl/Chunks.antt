-- ===== src/Vecctl/Chunks.antt =====
-- `chunks` of the standard library, for crates/vecctl/src/main.rs.
use raftvec.Base.{
  ℕ, zero, suc, ◌≤◌, ◌<◌, ◌≡◌, refl, ◌∙◌, ap, arith, List, [], ◌∷◌, ◌++◌, length, take, drop, All,
  length-take, take-append-drop, length-append,
}

module _ {ℓ} {A : Type ℓ} where
  -- `fuel` bounds the number of chunks.
  unfoldable pub chunks_within : ℕ → ℕ → List A → List (List A)
  chunks_within zero chunk_size xs = []
  chunks_within (suc fuel) chunk_size [] = []
  chunks_within (suc fuel) chunk_size (x ∷ xs) =
      take chunk_size (x ∷ xs) ∷ chunks_within fuel chunk_size (drop chunk_size (x ∷ xs))

  unfoldable pub chunks : ℕ → List A → List (List A)
  unfolding chunks_within
  chunks chunk_size xs = chunks_within (length xs) chunk_size xs

  abbrev pub concat : List (List A) → List A
  concat [] = []
  concat (xs ∷ xss) = xs ++ concat xss

  take_le : (n : ℕ) (xs : List A) → length (take n xs) ≤ n
  take_le n xs = omega (arith, length-take n xs)

  drop_le : (n : ℕ) (x : A) (xs : List A) → 0 < n → length (drop n (x ∷ xs)) ≤ length xs
  drop_le (suc n) x xs h =
      omega (arith, length-append (take n xs) (drop n xs), ap length (take-append-drop n xs))
  drop_le zero x xs h = absurd (omega arith)

  concat-chunks_within :
      (fuel n : ℕ) (xs : List A) → 0 < n → length xs ≤ fuel → concat (chunks_within fuel n xs) ≡ xs
  unfolding chunks_within
  concat-chunks_within zero n [] pos h = refl
  concat-chunks_within zero n (x ∷ xs) pos h = absurd (omega arith)
  concat-chunks_within (suc fuel) n [] pos h = refl
  concat-chunks_within (suc fuel) n (x ∷ xs) pos h =
      ap (λ rest. take n (x ∷ xs) ++ rest)
        (concat-chunks_within fuel n (drop n (x ∷ xs)) pos (omega (arith, drop_le n x xs pos)))
      ∙ take-append-drop n (x ∷ xs)

  pub concat-chunks : (n : ℕ) (xs : List A) → 0 < n → concat (chunks n xs) ≡ xs
  unfolding chunks
  concat-chunks n xs pos = concat-chunks_within (length xs) n xs pos (omega arith)

  chunks_within_le : (fuel n : ℕ) (xs : List A) → All (λ c. length c ≤ n) (chunks_within fuel n xs)
  unfolding chunks_within
  chunks_within_le zero n xs = tt
  chunks_within_le (suc fuel) n [] = tt
  chunks_within_le (suc fuel) n (x ∷ xs) =
      (take_le n (x ∷ xs), chunks_within_le fuel n (drop n (x ∷ xs)))

  pub chunks_le : (n : ℕ) (xs : List A) → All (λ c. length c ≤ n) (chunks n xs)
  unfolding chunks
  chunks_le n xs = chunks_within_le (length xs) n xs
