-- ===== src/Node/Network/Service.antt =====
-- `ShardRaftService`: the receiving end of the Raft messages.
use raftvec.Base.{Result}
use raftvec.Proto.{Status}
use raftvec.Node.Raft.{Bincode}
use raftvec.Node.Network.{RaftRpc, serve}

-- The methods of the local openraft handle that the service calls, over openraft's requests and
-- responses for entries, votes and snapshots, and its errors.
pub record ShardRaftService (EntriesReq EntriesResp VoteReq VoteResp SnapReq SnapResp E G : Type 0)
    : Type 0 where
  pub raft_append_entries : EntriesReq → Result E EntriesResp
  pub raft_vote : VoteReq → Result E VoteResp
  pub raft_install_snapshot : SnapReq → Result G SnapResp

-- bincode at the types of the messages.
pub record Codecs (B X EntriesReq EntriesResp VoteReq VoteResp SnapReq SnapResp E G : Type 0)
    : Type 0 where
  pub entries_req : Bincode EntriesReq B X
  pub entries_result : Bincode (Result E EntriesResp) B X
  pub vote_req : Bincode VoteReq B X
  pub vote_result : Bincode (Result E VoteResp) B X
  pub snapshot_req : Bincode SnapReq B X
  pub snapshot_result : Bincode (Result G SnapResp) B X

module _ {B X EntriesReq EntriesResp VoteReq VoteResp SnapReq SnapResp E G : Type 0}
    (codecs : Codecs B X EntriesReq EntriesResp VoteReq VoteResp SnapReq SnapResp E G)
    (service : ShardRaftService EntriesReq EntriesResp VoteReq VoteResp SnapReq SnapResp E G) where
  unfoldable pub append_entries : B → Result Status B
  unfolding serve
  append_entries = serve codecs.entries_req codecs.entries_result service.raft_append_entries

  unfoldable pub vote : B → Result Status B
  unfolding serve
  vote = serve codecs.vote_req codecs.vote_result service.raft_vote

  unfoldable pub install_snapshot : B → Result Status B
  unfolding serve
  install_snapshot = serve codecs.snapshot_req codecs.snapshot_result service.raft_install_snapshot

  -- The method that a call names.
  unfoldable pub dispatch : RaftRpc → B → Result Status B
  unfolding append_entries vote install_snapshot
  dispatch RaftRpc.append_entries = append_entries
  dispatch RaftRpc.vote = vote
  dispatch RaftRpc.install_snapshot = install_snapshot
