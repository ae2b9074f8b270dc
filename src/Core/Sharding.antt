-- ===== src/Core/Sharding.antt =====
-- crates/raftvec-core/src/sharding.rs. `fxhash id` stands for the state of rustc_hash's `FxHasher`
-- after it has read a `u64`; `none` is the panic of the `assert!`.
use raftvec.Base.{
  ℕ, suc, ◌%◌, ◌^◌, ◌<◌, ◌≡◌, Option, none, some, if◌then◌else◌, ◌==◌, nat_eq, arith, zero,
}
use native.Mathlib.Nat.{mod-eq_of_lt}

abbrev pub u32_mod : ℕ
u32_mod = 2 ^ 32

unfoldable pub shard_id : (ℕ → ℕ) → ℕ → ℕ → Option ℕ
shard_id fxhash vector_id shard_count =
    if shard_count == 0 then none else some (fxhash vector_id % shard_count % u32_mod)

-- With at least one shard and a `u32` for their number, `shard_id` does not panic, its cast to
-- `u32` loses nothing, and the shard is one of them.
pub shard_id_total :
    (fxhash : ℕ → ℕ) (vector_id n : ℕ)
    → 0 < n
    → n < u32_mod
    → (shard_id fxhash vector_id n ≡ some (fxhash vector_id % n)) × (fxhash vector_id % n < n)
unfolding shard_id
shard_id_total fxhash vector_id zero p h = elim p [ ]
shard_id_total fxhash vector_id (suc n) p h =
    let lt : fxhash vector_id % suc n < suc n = omega arith in
    let fits : fxhash vector_id % suc n % u32_mod ≡ fxhash vector_id % suc n =
      mod-eq_of_lt (omega (arith, lt)) in
    (ground (arith, fits), lt)
