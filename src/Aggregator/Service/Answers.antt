-- ===== src/Aggregator/Service/Answers.antt =====
-- What the handlers of the aggregator answer.
use raftvec.Base.{ℕ, ◌≡◌, ◌⊎◌, inl, inr, refl, some, Result, ok, err, Result-cases}
use raftvec.Proto.{Status, InsertRequest, InsertResponse}
use raftvec.Aggregator.Retry.{Attempt, RouterError, insert_hint, delete_hint}
use raftvec.Aggregator.Router
use raftvec.Aggregator.Router.{ShardRouter, write}
use raftvec.Aggregator.Router.Totals.{IsValid, write-IsValid}
use raftvec.Aggregator.Service.{from_router_error, insert}

module _ {C F : Type 0} (E : Type 0) (fxhash : ℕ → ℕ) where
  -- On a well-formed router an insert does not panic, whatever the replicas answer, and leaves the
  -- router well-formed. It answers with the router's count and no leader hint, or with the status
  -- of the router's error.
  pub insert_answers :
      (send : InsertRequest F → ℕ → C → Attempt InsertResponse) (router : ShardRouter C)
      (req : InsertRequest F)
      → IsValid router
      → (router' : ShardRouter C) × (out : Result Status InsertResponse) × (insert E fxhash send
            router req
          ≡ some (router', out))
        × IsValid router'
        × (((n : ℕ) × (Router.insert {E = E} fxhash send router req.collection req.records
                ≡ some (router', ok n))
              × (out ≡ ok (record { inserted = n; leader_hint = "" })))
            ⊎ ((e : RouterError E) × (Router.insert {E = E} fxhash send router req.collection
                    req.records
                  ≡ some (router', err e))
                × (out ≡ err (from_router_error e))))
  unfolding insert Router.insert
  insert_answers send router req v =
      let (shards', results, sent, run, w) =
        write-IsValid E fxhash (λ r. r.id) (λ r. r.inserted)
          (λ group. send (record { collection = req.collection; records = group })) router
          req.records v in
      elim (Result-cases (Router.sum_each (λ r. r.inserted) 0 results)) [
        | inl (n, e) ↦ (
          record router { shards = shards' },
          _,
          rw (run, e, insert),
          w,
          inl (n, rw (run, e), refl),
        )
        | inr (f, e) ↦ (
          record router { shards = shards' },
          _,
          rw (run, e, insert),
          w,
          inr (f, rw (run, e), refl),
        )
      ]
