-- ===== src/Examples/OfRouter.antt =====
-- Runs of the router, over a shard that answers and one that hangs.
use raftvec.Base.{
  ℕ, suc, zero, ◌≡◌, refl, arith, List, [], ◌∷◌, some, length, ok, err, String, Result, string_eq,
}
use raftvec.Proto.{InsertResponse}
use raftvec.Aggregator.Grouping.{tabulate, filter, belongs}
use raftvec.Aggregator.Retry.{
  Attempt, response, elapsed, RouterError, ShardReplicaSet, insert_hint, search_hint,
}
use raftvec.Aggregator.Router.{ShardRouter, write}
use raftvec.Aggregator.Router.Totals.{IsValid}
use raftvec.Aggregator.Router.Writes.{Calls, Adds, write-Calls}
use raftvec.Examples.Fixtures.{nat_float}

abbrev pub router : ShardRouter ℕ
router = record {
  shards =
      record { clients = 0 ∷ []; addrs = "a" ∷ []; leader_hint = 0 }
      ∷ record { clients = 1 ∷ []; addrs = "b" ∷ []; leader_hint = 0 }
      ∷ [];
  deadline = 2000;
}

pub router-IsValid : IsValid router
router-IsValid = record {
  each = (
    (record { same = refl; some_replica = omega arith }, omega arith),
    ((record { same = refl; some_replica = omega arith }, omega arith), tt),
  );
  some_shard = omega arith;
  fits = omega arith;
}

abbrev send_insert : List ℕ → ℕ → ℕ → Attempt InsertResponse
send_insert group round zero = response (record { inserted = length group; leader_hint = "" })
send_insert group round (suc c) = elapsed

write-Calls_example :
    (shards' : List (ShardReplicaSet ℕ)) × (results : List
      (Result (RouterError String) InsertResponse))
    × (out : Result (RouterError String) ℕ) × (write
          (λ id. id)
          (λ id. id)
          (λ r. r.inserted)
          send_insert
          router
          (4 ∷ 3 ∷ 6 ∷ [])
        ≡ some (record router { shards = shards' }, out))
    × Calls String send_insert router.shards
        (tabulate 2 (λ s. filter (belongs (λ id. id) (λ id. id) 2 s) (4 ∷ 3 ∷ 6 ∷ [])))
        shards'
        results
    × Adds (λ r. r.inserted) 0 results out
    × IsValid (record router { shards = shards' })
write-Calls_example =
    write-Calls String (λ id. id) (λ id. id) (λ r. r.inserted) send_insert router (4 ∷ 3 ∷ 6 ∷ [])
      router-IsValid

abbrev pub connecting : String → ℕ → Result String ℕ
connecting addr zero = err "refused"
connecting addr (suc attempt) = ok attempt
