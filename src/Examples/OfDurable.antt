-- ===== src/Examples/OfDurable.antt =====
-- Runs of an insert and of a delete over replicas that have applied the logs of their shards.
use raftvec.Base.{ℕ, ◌≡◌, refl, arith, List, [], ◌∷◌, none, some, String, ok}
use raftvec.Core.Record.{VectorRecord, scored_id_ord}
use raftvec.Core.Sharding.{shard_id}
use raftvec.HashMap
use raftvec.Node.StateMachine.View.{view}
use raftvec.Proto.{DeleteRequest, DeleteResponse}
use raftvec.Node.Raft.{Entry, ShardCommand, upsert, delete, normal}
use raftvec.Node.Service
use raftvec.Node.StateMachine.{ShardStateMachine, apply}
use raftvec.Node.StateMachine.Replicas.{Replica}
use raftvec.Aggregator.Grouping.{filter, belongs, set}
use raftvec.Aggregator.Retry.{Attempt, delete_hint, search_hint}
use raftvec.Aggregator.Router
use raftvec.Aggregator.Router.{ShardRouter}
use raftvec.Aggregator.Router.Accepted.{together}
use raftvec.Cluster.Acknowledged as Acknowledged
use raftvec.Cluster.Shows.{Commits, ShowsOf, insert_shows}
use raftvec.Examples.Fixtures.{
  nat_float, halves, pear, fruit_store, nat_log_ids, latest_membership, as_is,
}
use raftvec.Examples.OfStore.{fruit-IsValid}
use raftvec.Examples.OfRouter.{router, router-IsValid}
use raftvec.Examples.OfCluster.{leader, via, via_ok, ask_insert, serves_insert, pear_inserted}

abbrev pub start : ShardStateMachine ℕ ℕ (List ℕ)
start = record { store = fruit_store; last_applied_log = none; last_membership = [] }

-- The log of each shard: the command that it is sent.
abbrev pub log : (ℕ → ShardCommand ℕ) → ℕ → List (Entry ℕ ℕ (List ℕ))
log sent s = record { log_id = 1; payload = normal (sent s) } ∷ []

abbrev pub applied : (ℕ → ShardCommand ℕ) → ℕ → ShardStateMachine ℕ ℕ (List ℕ)
applied sent s = (apply start (log sent s)).0

pub has_applied :
    (sent : ℕ → ShardCommand ℕ) (s : ℕ) → Replica as_is start (log sent s) 1 (applied sent s)
has_applied sent s = Replica.applied (log sent s) [] Replica.begin refl refl refl

abbrev pub commits :
    (sent : ℕ → ShardCommand ℕ) → Commits (λ round c. leader) (log sent) router sent
commits sent = record {
  position = λ s. 0;
  logged =
      λ s shard found committed. (record { log_id = 1; payload = normal (sent s) }, refl, refl);
}

abbrev pub upserts : ℕ → ShardCommand ℕ
upserts s =
    upsert "fruit" (filter (belongs (λ id. id) (λ (r : VectorRecord ℕ). r.id) 2 s) (pear ∷ []))

pub fruit_dim : (view start.store).dims "fruit" ≡ some 2
unfolding HashMap.get
fruit_dim = refl

insert_shows_example :
    ShowsOf
      (log upserts 0)
      (applied upserts 0)
      1
      0
      (upsert "fruit" (together (λ id. id) (λ (r : VectorRecord ℕ). r.id) router (pear ∷ []) pear))
      "fruit"
      2
      (some pear)
insert_shows_example =
    insert_shows as_is (λ round c. leader) (λ s. start) (log upserts) String (λ id. id) ask_insert
      router router "fruit" (pear ∷ []) 1 2 2 pear router-IsValid serves_insert (commits upserts)
      (fruit-IsValid, fruit_dim, has_applied upserts 0) (omega arith) refl refl pear_inserted

abbrev pub ask_delete : DeleteRequest → ℕ → ℕ → Attempt DeleteResponse
ask_delete req round c = via (Service.delete leader req)

pub serves_delete : Acknowledged.Serves Service.delete ask_delete (λ round c. leader)
serves_delete = record {
  served = λ req round c resp asked. via_ok _ resp asked;
  named = λ cmd round c e. cc;
}

abbrev pub deletes : ℕ → ShardCommand ℕ
deletes s = delete "fruit" (filter (belongs (λ id. id) (λ id. id) 2 s) (1 ∷ []))

pub one_deleted :
    Router.delete {E = String} (λ id. id) ask_delete router "fruit" (1 ∷ []) ≡ some (router, ok 1)
unfolding Router.delete Service.delete set shard_id
one_deleted = refl
