-- ===== src/Node/Network/Relay.antt =====
-- A call whose message arrives, against the call of the peer's openraft.
use raftvec.Base.{◌≡◌, ◌∙◌, arith, String, Result, ok, map_err}
use raftvec.Proto.{Status}
use raftvec.Node.Raft.{Bincode}
use raftvec.Node.Network.{
  GrpcNetwork, get_or_connect, GrpcConnection, RaftRpc, remote_error, read_reply, call, encode,
  decode, serve,
}

module _ {X B Req Resp E : Type 0} (requests : Bincode Req B X)
    (results : Bincode (Result E Resp) B X) where
  -- The service, handed a serialized request.
  serve-serialize :
      (raft : Req → Result E Resp) (req : Req) (payload reply : B)
      → requests.serialize req ≡ ok payload
      → results.serialize (raft req) ≡ ok reply
      → serve requests results raft payload ≡ ok reply
  unfolding serve encode decode
  serve-serialize raft req payload reply sent answered =
      ground (arith, requests.round_trip req payload sent, answered)

module _ {C T X B Req Resp E : Type 0} (requests : Bincode Req B X)
    (results : Bincode (Result E Resp) B X) where
  call_relayed :
      (at_lookup at_insert left : GrpcNetwork C) (connecting : String → Result T C)
      (transmit : C → RaftRpc → B → Result Status B) (connection : GrpcConnection) (rpc : RaftRpc)
      (client : C) (req : Req) (result : Result E Resp) (payload reply : B)
      → get_or_connect at_lookup at_insert connecting connection.target connection.addr
        ≡ (left, ok client)
      → requests.serialize req ≡ ok payload
      → transmit client rpc payload ≡ ok reply
      → results.serialize result ≡ ok reply
      → call requests results at_lookup at_insert connecting transmit connection rpc req
        ≡ (left, map_err (remote_error connection.target) result)
  unfolding call read_reply
  call_relayed at_lookup at_insert left connecting transmit connection rpc client req result payload
        reply found sent arrived answered =
      ground (arith, found, results.round_trip result reply answered)

  -- A call of any kind whose message reaches a handler of the peer, and of which the request and
  -- the peer's result are serialized: the caller gets the response that the peer's openraft has
  -- given, and its error as a `RemoteError` of the target, both as they were.
  pub call-serve :
      (at_lookup at_insert left : GrpcNetwork C) (connecting : String → Result T C)
      (transmit : C → RaftRpc → B → Result Status B) (connection : GrpcConnection) (rpc : RaftRpc)
      (client : C) (raft : Req → Result E Resp) (req : Req) (payload reply : B)
      → get_or_connect at_lookup at_insert connecting connection.target connection.addr
        ≡ (left, ok client)
      → requests.serialize req ≡ ok payload
      → results.serialize (raft req) ≡ ok reply
      → transmit client rpc payload ≡ serve requests results raft payload
      → call requests results at_lookup at_insert connecting transmit connection rpc req
        ≡ (left, map_err (remote_error connection.target) (raft req))
  call-serve at_lookup at_insert left connecting transmit connection rpc client raft req payload
        reply found sent answered reaches =
      call_relayed at_lookup at_insert left connecting transmit connection rpc client req (raft req)
        payload reply found sent
        (reaches ∙ serve-serialize requests results raft req payload reply sent answered) answered
