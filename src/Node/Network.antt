-- ===== src/Node/Network.antt =====
-- crates/raftvec-node/src/raft_network.rs: Raft messages between the replicas of a shard, as bytes
-- `B` in a gRPC message. tonic's clients `C` and its transport errors `T`, bincode and its errors
-- `X`, and openraft's messages are parameters.
pub mod Connection
pub mod Service
pub mod Cache
pub mod Relay
use raftvec.Base.{
  ℕ, Option, none, some, List, [], String, Result, ok, err, ◌>>=◌, map_err, nat_eq, ◌==◌,
}
use raftvec.HashMap
use raftvec.HashMap.{HashMap}
use raftvec.Proto.{Status, unavailable, internal, invalid_argument}
use raftvec.Node.Raft.{Bincode}

pub record GrpcNetwork (C : Type 0) : Type 0 where
  pub clients : HashMap ℕ C

abbrev pub default : {C : Type 0} → GrpcNetwork C
default = record { clients = [] }

-- `get_or_connect` holds the lock twice, for the lookup and for the insertion, and not while it
-- connects: `at_lookup` and `at_insert` are the cache at these two moments. The result is the cache
-- that it leaves, and the client.
unfoldable pub get_or_connect :
    {C T : Type 0}
    → (at_lookup at_insert : GrpcNetwork C) → (connecting : String → Result T C)
    → (target : ℕ) (addr : String) → GrpcNetwork C × Result T C
unfolding HashMap.get HashMap.insert
get_or_connect at_lookup at_insert connecting target addr =
    elim (HashMap.get at_lookup.clients target) [
      | some client ↦ (at_insert, ok client)
      | none ↦ elim (connecting addr) [
        | err e ↦ (at_insert, err e)
        | ok client ↦
            (record { clients = HashMap.insert at_insert.clients target client }, ok client)
      ]
    ]

pub record GrpcConnection : Type 0 where
  pub target : ℕ
  pub addr : String

-- `RaftNetworkFactory::new_client`. A connection shares the cache of its network.
abbrev pub new_client : ℕ → String → GrpcConnection
new_client target addr = record { target = target; addr = addr }

pub data RaftRpc : Type 0 where
  append_entries vote install_snapshot : RaftRpc

-- What a `NetworkError` or an `Unreachable` is made from.
pub data Cause (T X : Type 0) : Type 0 where
  codec : X → Cause T X
  transport : T → Cause T X
  status : Status → Cause T X

-- openraft's `RPCError`, as the code builds it.
pub data RpcError (T X E : Type 0) : Type 0 where
  network : Cause T X → RpcError T X E
  unreachable : Cause T X → RpcError T X E
  remote_error : (target : ℕ) (source : E) → RpcError T X E

-- The closure that turns a `Status` into an error.
abbrev pub from_status : {T X E : Type 0} → Status → RpcError T X E
from_status unavailable = unreachable (status unavailable)
from_status s = network (status s)

-- The end of `call`: what the peer has replied.
unfoldable pub read_reply :
    {T X B Resp E : Type 0}
    → Bincode (Result E Resp) B X
    → ℕ
    → Result Status B
    → Result (RpcError T X E) Resp
read_reply results target (err s) = err (from_status s)
read_reply results target (ok bytes) = do
  result ← map_err (λ x. network (codec x)) (results.deserialize bytes)
  map_err (remote_error target) result

module _ {C T X B Req Resp E : Type 0} (requests : Bincode Req B X)
    (results : Bincode (Result E Resp) B X) where
  unfoldable pub call :
      (at_lookup at_insert : GrpcNetwork C)
      → (connecting : String → Result T C) → (transmit : C → RaftRpc → B → Result Status B)
      → GrpcConnection
      → RaftRpc
      → Req
      → GrpcNetwork C × Result (RpcError T X E) Resp
  unfolding get_or_connect read_reply
  call at_lookup at_insert connecting transmit connection rpc req = elim (requests.serialize req) [
    | err x ↦ (at_insert, err (network (codec x)))
    | ok payload ↦
        let (clients, found) =
          get_or_connect at_lookup at_insert connecting connection.target connection.addr in
        (
          clients,
          do
            client ← map_err (λ e. unreachable (transport e)) found
            read_reply results connection.target (transmit client rpc payload),
        )
  ]

-- `encode` and `decode`.
unfoldable pub encode : {A B X : Type 0} → Bincode A B X → A → Result Status B
encode bc result = map_err (λ x. internal) (bc.serialize result)

unfoldable pub decode : {A B X : Type 0} → Bincode A B X → B → Result Status A
decode bc payload = map_err (λ x. invalid_argument) (bc.deserialize payload)

-- A handler of `ShardRaftService`: `raft` is the method of the local openraft handle that it calls.
unfoldable pub serve :
    {B X Req Resp E : Type 0}
    → Bincode Req B X
    → Bincode (Result E Resp) B X
    → (Req → Result E Resp)
    → B
    → Result Status B
unfolding encode decode
serve requests results raft payload = do req ← decode requests payload; encode results (raft req)
