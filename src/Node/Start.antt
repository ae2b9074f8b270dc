-- ===== src/Node/Start.antt =====
-- crates/raftvec-node/src/main.rs: the command line of a replica and what it starts with. The
-- exporter, openraft and the servers are parameters or left out.
pub mod Peers
use text.Mathlib.Text.{starts_with}
use Prim.Native.String.{◌++◌ as ◌<>◌}
use raftvec.Base.{
  ℕ, Bool, true, false, ◌||◌, Option, none, some, List, [], ◌∷◌, String, Result, ok, err, ◌>>=◌,
  map_err, if◌then◌else◌,
}
use raftvec.BTreeMap
use raftvec.BTreeMap.{BTreeMap}
use raftvec.Node.LogStore
use raftvec.Node.LogStore.{LogStoreInner}
use raftvec.Node.StateMachine
use raftvec.Node.StateMachine.{ShardStateMachine}
use raftvec.Node.Store
use raftvec.Node.Store.{Store}
use raftvec.Text.{split_once, parse_u64}

-- Of the flags, those that no server or exporter takes.
pub record Args : Type 0 where
  pub node_id : ℕ
  pub peers : List String
  pub bootstrap : Bool

-- openraft's `BasicNode`.
pub record BasicNode : Type 0 where
  pub addr : String

-- The fields of openraft's `Config` that are set, in milliseconds.
pub record Config : Type 0 where
  pub heartbeat_interval : ℕ
  pub election_timeout_min : ℕ
  pub election_timeout_max : ℕ

pub data StartError (E : Type 0) : Type 0 where
  not_id_addr : (peer : String) → StartError E
  bad_peer_id : (peer : String) → StartError E
  installing : StartError E
  raft : E → StartError E

unfoldable pub normalize : String → String
normalize addr =
    if starts_with addr "http://" || starts_with addr "https://" then addr else "http://" <> addr

module _ {E : Type 0} where
  -- The loop of `parse_peers`; 61 is the code of `=`.
  unfoldable pub parse_each :
      List String → BTreeMap BasicNode → Result (StartError E) (BTreeMap BasicNode)
  unfolding split_once parse_u64 BTreeMap.insert
  parse_each [] members = ok members
  parse_each (p ∷ peers) members = elim (split_once 61 p) [
    | none ↦ err (not_id_addr p)
    | some (id_str, addr) ↦ elim (parse_u64 id_str) [
      | none ↦ err (bad_peer_id p)
      | some id ↦ parse_each peers (BTreeMap.insert members id (record { addr = normalize addr }))
    ]
  ]

  unfoldable pub parse_peers : List String → Result (StartError E) (BTreeMap BasicNode)
  unfolding parse_each
  parse_peers peers = parse_each peers []

-- What a replica is started with. `initialize` is the membership that it proposes to its peers.
pub record Started (F L M S V H : Type 0) : Type 0 where
  pub node_id : ℕ
  pub config : Config
  pub raft : H
  pub log_store : LogStoreInner F L M V
  pub state_machine : ShardStateMachine F L S
  pub initialize : Option (BTreeMap BasicNode)

-- `raft_new` is openraft's, and gives its handle.
module _ {F L M S V H E : Type 0} (install : Bool) (validate : Config → Result E Config)
    (raft_new : ℕ → Config → LogStoreInner F L M V → ShardStateMachine F L S → Result E H)
    (default_membership : S) where
  unfoldable pub start : Args → Result (StartError E) (Started F L M S V H)
  unfolding parse_peers
  start args = do
    members ← parse_peers args.peers
    if install
        then (do
          config ← map_err raft (
              validate (record {
                heartbeat_interval = 250;
                election_timeout_min = 750;
                election_timeout_max = 1500;
              }))
          handle ← map_err raft (
              raft_new args.node_id config LogStore.default
                (StateMachine.new Store.new default_membership))
          ok (record {
            node_id = args.node_id;
            config = config;
            raft = handle;
            log_store = LogStore.default;
            state_machine = StateMachine.new Store.new default_membership;
            initialize = if args.bootstrap then some members else none;
          }))
        else err installing
