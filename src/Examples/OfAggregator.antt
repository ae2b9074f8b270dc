-- ===== src/Examples/OfAggregator.antt =====
-- Runs of the aggregator.
use raftvec.Base.{
  ℕ, ◌+◌, suc, zero, ◌≡◌, ◌⊎◌, inr, refl, ◌%◌, arith, List, [], ◌∷◌, some, get_elem?, ok, String,
}
use raftvec.Proto.{InsertResponse, unavailable}
use raftvec.Aggregator.Retry.{
  Attempt, response, failed, elapsed, ShardReplicaSet, call_with_rounds, insert_hint,
}
use raftvec.Aggregator.Retry.Bounds.{IsAnswered, next_of, call_with_rounds-IsAnswered}
use raftvec.Aggregator.Retry.Finds.{Reaches, retry_finds_live}
use raftvec.Examples.Fixtures.{nat_float}

-- Three replicas: the first hangs, the second fails, the third leads.
abbrev addrs : List String
addrs = "zero" ∷ "one" ∷ "two" ∷ []

abbrev clients : List ℕ
clients = 0 ∷ 1 ∷ 2 ∷ []

abbrev request : ℕ → ℕ → Attempt InsertResponse
request round zero = elapsed
request round (suc zero) = failed unavailable
request round (suc (suc c)) = response (record { inserted = 1; leader_hint = "" })

abbrev shard : ShardReplicaSet ℕ
shard = record { clients = clients; addrs = addrs; leader_hint = 0 }

call_with_rounds-IsAnswered_example :
    IsAnswered {E = String} addrs clients request (call_with_rounds 4 shard request)
call_with_rounds-IsAnswered_example =
    call_with_rounds-IsAnswered String shard request
      (record { same = refl; some_replica = omega arith }) (omega arith) 4

third_answers :
    (round c : ℕ)
    → get_elem? clients 2 ≡ some c
    → (r : InsertResponse) × (request round c ≡ response r) × (r.leader_hint ≡ "")
third_answers round zero e = absurd (grind (arith, e))
third_answers round (suc zero) e = absurd (grind (arith, e))
third_answers round (suc (suc c)) e = (record { inserted = 1; leader_hint = "" }, refl, refl)

others_steer :
    (round idx c : ℕ)
    → ¬ (idx ≡ 2)
    → get_elem? clients idx ≡ some c
    → (next_of addrs 3 (request round c) idx ≡ 2)
      ⊎ (next_of addrs 3 (request round c) idx ≡ (idx + 1) % 3)
others_steer round idx zero ne e = inr refl
others_steer round idx (suc zero) ne e = inr refl
others_steer round zero (suc (suc c)) ne e = absurd (grind (arith, e))
others_steer round (suc zero) (suc (suc c)) ne e = absurd (grind (arith, e))
others_steer round (suc (suc zero)) (suc (suc c)) ne e = absurd (ne refl)
others_steer round (suc (suc (suc idx))) (suc (suc c)) ne e = absurd (cc)

third_leads : Reaches addrs clients request 2
third_leads = record {
  same = refl;
  live-lt = omega arith;
  answers = third_answers;
  steers = others_steer;
}

retry_finds_live_example :
    (hint' : ℕ) × (r : InsertResponse) × (call_with_rounds {E = String} 4 shard request
      ≡ some (hint', ok r))
    × (r.leader_hint ≡ "")
retry_finds_live_example =
    retry_finds_live addrs clients request String 2 4 0 third_leads (omega arith)
