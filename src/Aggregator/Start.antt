-- ===== src/Aggregator/Start.antt =====
-- crates/raftvec-aggregator/src/main.rs: the addresses of the command line and the router that is
-- made of them. The exporter and the server are left out.
pub mod Addresses
use text.Mathlib.Text.{starts_with}
use Prim.Native.String.{◌++◌ as ◌<>◌}
use raftvec.Base.{
  ℕ, Bool, ◌||◌, Option, none, some, List, map, String, Result, ok, err, if◌then◌else◌,
}
use raftvec.Text.{split}
use raftvec.Aggregator.Retry.{RouterError}
use raftvec.Aggregator.Router
use raftvec.Aggregator.Router.{ShardRouter}

-- Of the flags, those that no server or exporter takes.
pub record Args : Type 0 where
  pub shards : List String
  pub deadline_ms : ℕ

unfoldable pub normalize : String → String
normalize addr =
    if starts_with addr "http://" || starts_with addr "https://" then addr else "http://" <> addr

-- 44 is the code of the comma.
unfoldable pub shard_replica_addrs : List String → List (List String)
unfolding normalize split
shard_replica_addrs = map λ shard. map normalize (split 44 shard)

pub data StartError (E : Type 0) : Type 0 where
  installing : StartError E
  router : RouterError E → StartError E

-- `connecting` makes the attempts to connect, and `none` is a panic.
unfoldable pub start :
    {C E : Type 0}
    → (install : Bool) (connecting : String → ℕ → Result E C) → Args
    → Option (Result (StartError E) (ShardRouter C))
unfolding shard_replica_addrs
start install connecting args =
    if install
    then elim (Router.connect connecting (shard_replica_addrs args.shards) args.deadline_ms) [
      | none ↦ none
      | some (err e) ↦ some (err (router e))
      | some (ok r) ↦ some (ok r)
    ]
    else some (err installing)
