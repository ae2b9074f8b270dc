-- ===== src/Examples/OfService.antt =====
-- Runs of a replica's service.
use raftvec.Base.{
  string_eq, ◌≡◌, ◌≢◌, ◌⊎◌, refl, ◌<◌, ◌%◌, ◌+◌, length, ℕ, arith, [], ◌∷◌, none, some, ok, err,
  true, false,
}
use raftvec.HashMap
use raftvec.Core.Sharding.{u32_mod}
use raftvec.Node.Raft.{ShardCommand}
use raftvec.Node.Store
use raftvec.Node.Store.{Store, Collection}
use raftvec.Node.StateMachine.{run_command}
use raftvec.Node.Service.{Raft, forward_to_leader, insert, delete, search, leadership}
use raftvec.Node.Service.Reads.{ranking, search_answer}
use raftvec.Node.Service.Writes.{insert_counts_rejected, delete_overcounts}
use raftvec.Proto.{
  InsertRequest, InsertResponse, DeleteRequest, DeleteResponse, SearchRequest, SearchResponse,
}
use raftvec.Examples.Fixtures.{nat_float, halves, plum, fruit, fruit_store}
use raftvec.Examples.OfStore.{fruit-IsValid}

-- A replica that leads, and commits commands with an applied count of `n`.
abbrev leader : ℕ → Raft ℕ
leader n = record {
  client_write = λ c. ok (record { applied_count = n });
  current_leader = some 1;
  get_node = λ id. some "node";
  ensure_linearizable = true;
}

-- A replica that follows the node 2.
abbrev follower : Raft ℕ
follower = record {
  client_write = λ c. err (forward_to_leader (some "two"));
  current_leader = some 2;
  get_node = λ id. some "two";
  ensure_linearizable = false;
}

abbrev insert_request : InsertRequest ℕ
insert_request = record { collection = "nuts"; records = plum ∷ plum ∷ [] }

abbrev delete_request : DeleteRequest
delete_request = record { collection = "fruit"; ids = 2 ∷ 7 ∷ 8 ∷ [] }

abbrev search_request : SearchRequest ℕ
search_request = record { collection = "fruit"; query_vector = 1 ∷ 1 ∷ []; k = 1 }

abbrev to_two : InsertResponse
to_two = record { inserted = 0; leader_hint = "two" }

insert_forwards : insert follower insert_request ≡ ok to_two
unfolding insert
insert_forwards = refl

nothing_applied :
    (leader 0).client_write (ShardCommand.upsert "nuts" (plum ∷ plum ∷ []))
    ≡ ok (record {
      applied_count = (run_command fruit_store (ShardCommand.upsert "nuts" (plum ∷ plum ∷ []))).1;
    })
unfolding run_command
nothing_applied = refl

no_nuts : HashMap.get fruit_store.collections "nuts" ≡ none
unfolding HashMap.get
no_nuts = refl

insert_counts_rejected_example :
    (run_command fruit_store (ShardCommand.upsert "nuts" (plum ∷ plum ∷ [])) ≡ (fruit_store, 0))
    × (insert (leader 0) insert_request ≡ ok (record { inserted = 2 % u32_mod; leader_hint = "" }))
insert_counts_rejected_example =
    insert_counts_rejected (leader 0) insert_request fruit_store no_nuts nothing_applied

fruit_found : HashMap.get fruit_store.collections "fruit" ≡ some fruit
unfolding HashMap.get
fruit_found = refl

one_applied :
    (leader 1).client_write (ShardCommand.delete "fruit" (2 ∷ 7 ∷ 8 ∷ []))
    ≡ ok (record {
      applied_count = (run_command fruit_store (ShardCommand.delete "fruit" (2 ∷ 7 ∷ 8 ∷ []))).1;
    })
unfolding run_command
one_applied = refl

delete_overcounts_example :
    (let applied = run_command fruit_store (ShardCommand.delete "fruit" (2 ∷ 7 ∷ 8 ∷ [])) in
      (d : Collection ℕ) × (resp : DeleteResponse) × (HashMap.get applied.0.collections "fruit"
        ≡ some d)
      × (length d.vectors + applied.1 ≡ length fruit.vectors)
      × (delete (leader 1) delete_request ≡ ok resp)
      × (applied.1 < resp.deleted))
delete_overcounts_example =
    delete_overcounts (leader 1) delete_request fruit_store fruit fruit-IsValid fruit_found
      (omega arith) (omega arith) one_applied

abbrev redirected : SearchResponse ℕ
redirected = record { results = []; shards_queried = 0; shards_failed = 0; leader_hint = "two" }

search_redirects :
    search follower 1 fruit_store (λ id. fruit_store) true search_request ≡ ok redirected
unfolding search leadership
search_redirects = refl

search_answer_example :
    ((follower.current_leader ≡ some 1)
      × (follower.ensure_linearizable ≡ true)
      × (Store.search fruit_store "fruit" (1 ∷ 1 ∷ []) 1 ≡ ok (ranking redirected.results))
      × (redirected.shards_queried ≡ 1)
      × (redirected.leader_hint ≡ ""))
    ⊎ ((leader : ℕ) × (follower.current_leader ≡ some leader)
        × (leader ≢ 1)
        × (follower.get_node leader ≡ some redirected.leader_hint)
        × (redirected.results ≡ [])
        × (redirected.shards_queried ≡ 0))
search_answer_example =
    search_answer follower 1 fruit_store (λ id. fruit_store) true search_request redirected
      search_redirects
