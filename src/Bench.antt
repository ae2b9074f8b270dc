-- ===== src/Bench.antt =====
-- bench/src/main.rs: what the load generator makes of the outcomes of its requests. The clock, the
-- random queries and the rate of the achieved requests are left out. `F` stands for `f64`, and `R`
-- for a response, which is not looked at.
pub mod Draws
pub mod Generate
pub mod Reports
use raftvec.Base.{
  ℕ, ◌+◌, Option, none, some, List, [], ◌∷◌, ◌++◌, Result, ok, err, length, get_elem?, arith,
}
use raftvec.Order.{Ord, IsTotal, sort_desc}
use raftvec.Core.Float.{Float}
use raftvec.Proto.{Status, SearchResponse}

-- The counters are atomic; they do not reach 2 ^ 64.
pub record Results (F : Type 0) : Type 0 where
  pub latencies_ms : List F
  pub successes : ℕ
  pub errors : ℕ

abbrev pub default : {F : Type 0} → Results F
default = record { latencies_ms = []; successes = 0; errors = 0 }

module _ {F R : Type 0} where
  -- The end of one request: what it came to, and the time it took.
  unfoldable pub finish : Results F → Result Status R × F → Results F
  finish results (ok resp, elapsed_ms) = record results {
    successes = results.successes + 1;
    latencies_ms = results.latencies_ms ++ elapsed_ms ∷ [];
  }
  finish results (err status, elapsed_ms) = record results { errors = results.errors + 1 }

  -- The requests in the order in which they end.
  unfoldable pub finish_each : Results F → List (Result Status R × F) → Results F
  unfolding finish
  finish_each results [] = results
  finish_each results (o ∷ os) = finish_each (finish results o) os

-- `sort_by(|a, b| a.total_cmp(b))`
pub ascending-IsTotal : {F : Type 0} ⦃fl : Float F⦄ → IsTotal (λ a b. fl.total_cmp b a)
ascending-IsTotal ⦃fl⦄ =
    let t = fl.total_cmp-IsTotal in
    record {
      eq_of_cmp = λ a b. ground (arith, t.eq_of_cmp b a);
      cmp_refl = t.cmp_refl;
      lt_of_gt = λ a b. t.lt_of_gt b a;
      gt_of_lt = λ a b. t.gt_of_lt b a;
      lt_trans = λ a b c p q. t.lt_trans c b a q p;
    }

abbrev pub ascending : {F : Type 0} ⦃fl : Float F⦄ → Ord F
ascending ⦃fl⦄ = record { cmp = λ a b. fl.total_cmp b a; total = ascending-IsTotal }

-- `nearest n p` is `((n as f64 - 1.0) * p).round() as usize`. `none` is a panic.
unfoldable pub percentile :
    {F P : Type 0} ⦃fl : Float F⦄ → (nearest : ℕ → P → ℕ) → List F → P → Option F
percentile ⦃fl⦄ nearest [] p = some fl.zero
percentile nearest (x ∷ xs) p = get_elem? (x ∷ xs) (nearest (length (x ∷ xs)) p)

pub record Report (F : Type 0) : Type 0 where
  pub successes : ℕ
  pub errors : ℕ
  pub total : ℕ
  pub p50 : Option F
  pub p99 : Option F

-- The end of `main`; `half` and `most` are 0.50 and 0.99.
unfoldable pub report :
    {F P R : Type 0} ⦃fl : Float F⦄
    → (nearest : ℕ → P → ℕ) (half most : P) → List (Result Status R × F)
    → Report F
unfolding finish_each sort_desc percentile
report nearest half most outcomes =
    let results = finish_each default outcomes in
    let latencies = sort_desc ⦃o = ascending⦄ results.latencies_ms in
    record {
      successes = results.successes;
      errors = results.errors;
      total = results.successes + results.errors;
      p50 = percentile nearest latencies half;
      p99 = percentile nearest latencies most;
    }
