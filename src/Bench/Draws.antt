-- ===== src/Bench/Draws.antt =====
-- `(0..n).map(|_| rng.gen_range(-1.0..1.0)).collect()`, as bench/src/main.rs and
-- crates/raftvec-node/examples/baseline_bench.rs draw vectors. The generator is a parameter, in the
-- states `R`.
use raftvec.Base.{ℕ, zero, suc, ◌≡◌, refl, ap, List, [], ◌∷◌, length}

module _ {R F : Type 0} (gen_range : R → R × F) where
  unfoldable pub draw_each : R → (n : ℕ) → R × List F
  draw_each rng zero = (rng, [])
  draw_each rng (suc n) =
      let (rng', x) = gen_range rng in let (rng'', xs) = draw_each rng' n in (rng'', x ∷ xs)

  pub length-draw_each : (rng : R) (n : ℕ) → length (draw_each rng n).1 ≡ n
  unfolding draw_each
  length-draw_each rng zero = refl
  length-draw_each rng (suc n) = ap suc (length-draw_each (gen_range rng).0 n)
