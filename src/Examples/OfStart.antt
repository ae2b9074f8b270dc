-- ===== src/Examples/OfStart.antt =====
-- Runs of the start-up code of a node and of the aggregator.
use raftvec.Base.{
  ℕ, ◌≡◌, ◌⊎◌, refl, arith, true, List, [], ◌∷◌, map, some, String, ok, err, get_elem?, All,
}
use raftvec.BTreeMap
use raftvec.BTreeMap.{BTreeMap}
use raftvec.Text.{split, split_once}
use raftvec.Node.Start as NodeStart
use raftvec.Node.Start.{BasicNode, StartError, parse_peers}
use raftvec.Aggregator.Retry.{position}
use raftvec.Aggregator.Router.{ShardRouter}
use raftvec.Aggregator.Router.Totals.{IsValid}
use raftvec.Aggregator.Start as AggregatorStart
use raftvec.Aggregator.Start.{Args, normalize, shard_replica_addrs, start}
use raftvec.Aggregator.Start.Addresses.{IsOf, start-IsValid, hint_is_replica}
use raftvec.Examples.OfRouter.{connecting}

abbrev peers : List String
peers = "1=a:1" ∷ "2=http://b:1" ∷ []

abbrev members : BTreeMap BasicNode
members = (1, record { addr = "http://a:1" }) ∷ (2, record { addr = "http://b:1" }) ∷ []

abbrev flags : Args
flags = record { shards = "a:1,b:1" ∷ "c:1" ∷ []; deadline_ms = 2000 }

start-IsValid_example :
    ((r : ShardRouter ℕ) × (start true connecting flags ≡ some (ok r))
      × IsValid r
      × (r.deadline ≡ 2000)
      × (map (λ shard. shard.addrs) r.shards ≡ shard_replica_addrs flags.shards))
    ⊎ ((e : AggregatorStart.StartError String) × (start true connecting flags ≡ some (err e)))
start-IsValid_example = start-IsValid true connecting flags (omega arith) (omega arith)

peers_parsed : parse_peers {E = String} peers ≡ ok members
unfolding parse_peers NodeStart.normalize
peers_parsed = refl

second_known : BTreeMap.get members 2 ≡ some (record { addr = "http://b:1" })
unfolding BTreeMap.get
second_known = refl

IsOf-shard : All (IsOf "a:1,http://b:1") peers
unfolding split split_once
IsOf-shard = (("1", "a:1", 0, refl, refl), (("2", "http://b:1", 1, refl, refl), tt))

hint_is_replica_example :
    (j : ℕ) × (position (map normalize (split 44 "a:1,http://b:1")) "http://b:1" ≡ some j)
    × (get_elem? (map normalize (split 44 "a:1,http://b:1")) j ≡ some "http://b:1")
hint_is_replica_example =
    hint_is_replica {E = String} "a:1,http://b:1" peers members 2 (record { addr = "http://b:1" })
      IsOf-shard peers_parsed second_known
