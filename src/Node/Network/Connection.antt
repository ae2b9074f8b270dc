-- ===== src/Node/Network/Connection.antt =====
-- `impl RaftNetwork for GrpcConnection`: the three calls. openraft's requests, responses and errors
-- are parameters.
use raftvec.Base.{String, Result}
use raftvec.Proto.{Status}
use raftvec.Node.Raft.{Bincode}
use raftvec.Node.Network.{GrpcNetwork, GrpcConnection, RaftRpc, RpcError, call}

module _ {C T X B Req Resp E : Type 0} (requests : Bincode Req B X)
    (results : Bincode (Result E Resp) B X) (at_lookup at_insert : GrpcNetwork C)
    (connecting : String → Result T C) (transmit : C → RaftRpc → B → Result Status B) where
  unfoldable pub append_entries :
      GrpcConnection → Req → GrpcNetwork C × Result (RpcError T X E) Resp
  unfolding call
  append_entries connection =
      call requests results at_lookup at_insert connecting transmit connection
        RaftRpc.append_entries

  unfoldable pub install_snapshot :
      GrpcConnection → Req → GrpcNetwork C × Result (RpcError T X E) Resp
  unfolding call
  install_snapshot connection =
      call requests results at_lookup at_insert connecting transmit connection
        RaftRpc.install_snapshot

  unfoldable pub vote : GrpcConnection → Req → GrpcNetwork C × Result (RpcError T X E) Resp
  unfolding call
  vote connection =
      call requests results at_lookup at_insert connecting transmit connection RaftRpc.vote
