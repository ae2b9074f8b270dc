-- ===== src/Examples/OfBench.antt =====
-- A run of the load generator's report.
use mathlib.Core.List.Perm
use raftvec.Base.{
  ℕ, suc, ◌+◌, ◌*◌, ◌%◌, ◌≤◌, ◌-◌, ◌/◌, ◌<◌, refl, none, Option, String, All, length, if◌then◌else◌,
  ◌==◌, nat_eq, string_eq, ◌≡◌, arith, Bool, true, false, List, [], ◌∷◌, some, Result, ok, err,
}
use raftvec.Proto.{Status, SearchRequest, SearchResponse, unavailable}
use raftvec.Bench.{report}
use raftvec.Bench.Generate
use raftvec.Bench.Generate.{Args, outcomes}
use raftvec.Bench.Generate.Ends.{IsAsked, main_ends}
use raftvec.HashMap
use raftvec.Node.Store.{Collection}
use raftvec.Node.Store.Valid.{IsValid}
use raftvec.Node.Baseline
use raftvec.Node.Baseline.Completes.{main_completes}
use raftvec.Examples.Fixtures.{nat_float, halves}

abbrev rank : ℕ → Bool → ℕ
rank n true = (n - 1) / 2
rank n false = n - 1

rank-lt : (n : ℕ) (p : Bool) → 0 < n → rank n p < n
rank-lt n true h = omega arith
rank-lt n false h = omega arith

abbrev no_results : SearchResponse ℕ
no_results = record { results = []; shards_queried = 1; shards_failed = 0; leader_hint = "" }

abbrev slow_first : List (Result Status (SearchResponse ℕ) × ℕ)
slow_first = (ok no_results, 9) ∷ (ok no_results, 4) ∷ (err unavailable, 2) ∷ []

abbrev fast_first : List (Result Status (SearchResponse ℕ) × ℕ)
fast_first = (ok no_results, 4) ∷ (ok no_results, 9) ∷ (err unavailable, 2) ∷ []

-- One draw after the other.
abbrev draw : ℕ → ℕ × ℕ
draw rng = (rng + 1, rng)

-- A rate of 500 requests in a second: a period of 2 milliseconds.
abbrev flags : Args
flags = record { addr = "a"; collection = "docs"; dim = 2; qps = 500; duration_secs = 1; k = 10 }

abbrev connect : String → Result String ℕ
connect addr = ok 0

abbrev ticker : ℕ → Option (ℕ → ℕ)
ticker qps = some (λ i. i * 2_000_000)

-- Every other request fails.
abbrev answered : ℕ → ℕ → SearchRequest ℕ → Result Status (SearchResponse ℕ) × ℕ
answered client i req = if i % 2 == 0 then (ok no_results, i) else (err unavailable, 0)

ticks : (i : ℕ) → 0 + i * 2_000_000 ≤ suc i * 2_000_000
ticks i = omega arith

main_ends_example :
    (requests : List (SearchRequest ℕ)) × All (IsAsked flags) requests
    × (length requests ≤ (0 + 1 * 1_000_000_000 - 0) / 2_000_000 + 2)
    × (let rep = report rank true false (outcomes (answered 0) 0 requests) in
        (Generate.main draw 42 connect ticker 0 answered (λ l. l) rank true false 503 flags
          ≡ some (ok rep))
        × (rep.total ≡ length requests)
        × ((p50 : ℕ) × (rep.p50 ≡ some p50))
        × ((p99 : ℕ) × (rep.p99 ≡ some p99)))
main_ends_example =
    main_ends draw 42 connect ticker 0 answered (λ l. l) rank true false 503 2_000_000 0 flags 0
      (λ i. i * 2_000_000) rank-lt (λ l. Perm.rfl) refl refl (omega arith) (omega arith) ticks
      (omega arith)

-- The benchmark of a store, where every draw is the same.
main_completes_example :
    (rep : Baseline.Report ℕ ℕ) × (Baseline.main
        (λ (rng : ℕ). (rng, 1))
        (λ i. i)
        rank
        true
        false
        (λ l. 0)
        (λ n. n)
        1
      ≡ some rep)
    × IsValid rep.store
    × (c : Collection ℕ) × (HashMap.get rep.store.collections "bench" ≡ some c)
    × (c.dim ≡ 384)
    × (length c.vectors ≡ 500_000)
    × ((id : ℕ) → 500_000 ≤ id → HashMap.get c.vectors id ≡ none)
main_completes_example =
    main_completes (λ (rng : ℕ). (rng, 1)) (λ i. i) rank true false (λ l. 0) (λ n. n) rank-lt 1
