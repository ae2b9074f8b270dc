-- ===== src/Bench/Reports.antt =====
-- The report of bench/src/main.rs, and the order in which the requests end.
use mathlib.Core.List.{Perm, Permᴰ, append-nil, append_assoc, perm_append_comm}
use mathlib.Core.List.Perm
use mathlib.Core.Logic.{∥∥₁_elim}
use native.Mathlib.Nat.{ℕ_set}
use raftvec.Base.{
  ℕ, suc, ◌+◌, ◌<◌, ◌≡◌, refl, sym, ◌∙◌, ap, arith, some, List, [], ◌∷◌, ◌++◌, Result, ok, err,
  length, get_elem?-lt,
}
use raftvec.Order.{sort_desc}
use raftvec.Order.Laws.{sort_desc-eq_of_perm}
use raftvec.Core.Float.{Float}
use raftvec.Proto.{Status}
use raftvec.Bench.{Results, default, finish, finish_each, ascending, percentile, report}

length-Permᴰ : {A : Type 0} {xs ys : List A} → Permᴰ xs ys → length xs ≡ length ys
length-Permᴰ Permᴰ.nil = refl
length-Permᴰ (Permᴰ.cons e p) = ap suc (length-Permᴰ p)
length-Permᴰ (Permᴰ.swap e f) = refl
length-Permᴰ (Permᴰ.trans p q) = length-Permᴰ p ∙ length-Permᴰ q

length-Perm : {A : Type 0} (xs ys : List A) → Perm xs ys → length xs ≡ length ys
length-Perm xs ys p = ∥∥₁_elim p (ℕ_set _ _) (λ d. length-Permᴰ d)

module _ {F R : Type 0} where
  -- The latency of a request that succeeds.
  abbrev answered : Result Status R × F → List F
  answered (ok resp, ms) = ms ∷ []
  answered (err status, ms) = []

  abbrev answered_each : List (Result Status R × F) → List F
  answered_each [] = []
  answered_each (o ∷ os) = answered o ++ answered_each os

  finish_each_lem :
      (r : Results F) (os : List (Result Status R × F))
      → ((finish_each r os).latencies_ms ≡ r.latencies_ms ++ answered_each os)
        × ((finish_each r os).successes ≡ r.successes + length (answered_each os))
        × ((finish_each r os).errors + (finish_each r os).successes
            ≡ r.errors + r.successes + length os)
  unfolding finish_each finish
  finish_each_lem r [] = (sym (append-nil r.latencies_ms), omega arith, omega arith)
  finish_each_lem r ((ok resp, ms) ∷ os) =
      let (l, s, e) = finish_each_lem (finish r (ok resp, ms)) os in
      (
        l ∙ append_assoc r.latencies_ms (ms ∷ []) (answered_each os),
        omega (arith, s),
        omega (arith, e),
      )
  finish_each_lem r ((err status, ms) ∷ os) =
      let (l, s, e) = finish_each_lem (finish {R = R} r (err status, ms)) os in
      (l, omega (arith, s), omega (arith, e))

  answered_each-Permᴰ :
      {xs ys : List (Result Status R × F)}
      → Permᴰ xs ys
      → Perm (answered_each xs) (answered_each ys)
  answered_each-Permᴰ Permᴰ.nil = Perm.rfl
  answered_each-Permᴰ (Permᴰ.cons {b = b} {l₁ = l₁} e p) =
      rw e (Perm.append_left (answered b) (answered_each-Permᴰ p))
  answered_each-Permᴰ (Permᴰ.swap {a' = c} {b' = d} {l = l} e f) =
      rw (e, f) (swapped (answered d) (answered c) (answered_each l))
    where
      swapped : (xs ys zs : List F) → Perm (xs ++ (ys ++ zs)) (ys ++ (xs ++ zs))
      swapped xs ys zs =
          rw (sym (append_assoc xs ys zs), sym (append_assoc ys xs zs))
            (Perm.append_right zs (perm_append_comm xs ys))
  answered_each-Permᴰ (Permᴰ.trans p q) = Perm.trans (answered_each-Permᴰ p) (answered_each-Permᴰ q)

module _ {F P : Type 0} ⦃fl : Float F⦄ (nearest : ℕ → P → ℕ)
    (in_range : (n : ℕ) (p : P) → 0 < n → nearest n p < n) where
  percentile_returns : (l : List F) (p : P) → (x : F) × (percentile nearest l p ≡ some x)
  unfolding percentile
  percentile_returns [] p = (fl.zero, refl)
  percentile_returns (x ∷ l) p =
      get_elem?-lt (x ∷ l) (nearest (length (x ∷ l)) p) (in_range (length (x ∷ l)) p (omega arith))

  module _ {R : Type 0} where
    answered_each-Perm :
        (xs ys : List (Result Status R × F))
        → Perm xs ys
        → Perm (answered_each xs) (answered_each ys)
    answered_each-Perm xs ys p = ∥∥₁_elim p (hlevel) (λ d. answered_each-Permᴰ d)

    -- The results of the requests in two orders differ in the order of the latencies only.
    finish_each-Perm :
        (xs ys : List (Result Status R × F))
        → Perm xs ys
        → (sort_desc ⦃o = ascending⦄ (finish_each default xs).latencies_ms
            ≡ sort_desc ⦃o = ascending⦄ (finish_each default ys).latencies_ms)
          × ((finish_each default xs).successes ≡ (finish_each default ys).successes)
          × ((finish_each default xs).errors ≡ (finish_each default ys).errors)
    finish_each-Perm xs ys p =
        let (l, s, e) = finish_each_lem default xs in
        let (l', s', e') = finish_each_lem default ys in
        let q = answered_each-Perm xs ys p in
        let same = length-Perm (answered_each xs) (answered_each ys) q in
        let all = length-Perm xs ys p in
        (
          ap (sort_desc ⦃o = ascending⦄) l
              ∙ sort_desc-eq_of_perm ⦃o = ascending⦄ q
              ∙ ap (sort_desc ⦃o = ascending⦄) (sym l'),
          omega (arith, s, s', same),
          omega (arith, s, s', e, e', same, all),
        )

    -- The report of the load generator, where the rounded position of each percentile is below the
    -- number of latencies: it does not depend on the order in which the requests end, its total is
    -- the number of the requests, and neither percentile is out of range.
    pub report-Perm :
        (half most : P) (xs ys : List (Result Status R × F))
        → Perm xs ys
        → (report nearest half most xs ≡ report nearest half most ys)
          × ((report nearest half most xs).total ≡ length xs)
          × ((p50 : F) × ((report nearest half most xs).p50 ≡ some p50))
          × ((p99 : F) × ((report nearest half most xs).p99 ≡ some p99))
    unfolding report
    report-Perm half most xs ys p =
        let (l, s, e) = finish_each-Perm xs ys p in
        let (_, _, total) = finish_each_lem default xs in
        (
          λ i. record {
            successes = s i;
            errors = e i;
            total = s i + e i;
            p50 = percentile nearest (l i) half;
            p99 = percentile nearest (l i) most;
          },
          omega (arith, total),
          percentile_returns _ half,
          percentile_returns _ most,
        )
