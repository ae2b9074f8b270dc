-- ===== src/Examples/OfNetwork.antt =====
-- Runs of the Raft transport, and of the leader watcher.
use raftvec.Base.{ℕ, ◌+◌, ◌≡◌, refl, zero, suc, arith, [], ◌∷◌, String, Result, ok, err, map_err}
use raftvec.Node.Raft.{Bincode}
use raftvec.Node.Network.{
  RpcError, GrpcNetwork, default, get_or_connect, new_client, vote, remote_error, call, serve,
}
use raftvec.Node.Network.Relay.{call-serve}
use raftvec.Node.Network.Cache.{History, get_or_connect_serves}

abbrev number : Result String ℕ → Result String ℕ
number (ok n) = ok n
number (err e) = err "no number"

number_of :
    (n : ℕ) (b : Result String ℕ)
    → ◌≡◌ {A = Result String (Result String ℕ)} (ok (ok n)) (ok b)
    → number b ≡ ok n
number_of n b e = ground arith

same_result :
    (a b : Result String ℕ)
    → ◌≡◌ {A = Result String (Result String ℕ)} (ok a) (ok b)
    → ◌≡◌ {A = Result String (Result String ℕ)} (ok b) (ok a)
same_result a b e = ground arith

abbrev requests : Bincode ℕ (Result String ℕ) String
requests = record { serialize = λ n. ok (ok n); deserialize = number; round_trip = number_of }

abbrev results : Bincode (Result String ℕ) (Result String ℕ) String
results = record { serialize = λ a. ok a; deserialize = λ b. ok b; round_trip = same_result }

abbrev next : ℕ → Result String ℕ
next n = ok (n + 1)

abbrev connected : GrpcNetwork ℕ
connected = record { clients = (7, 1) ∷ [] }

first_connects :
    get_or_connect {T = String} default default (λ addr. ok 1) 7 "http://b" ≡ (connected, ok 1)
unfolding get_or_connect
first_connects = refl

call-serve_example :
    call requests results default default
      (λ addr. ok 1)
      (λ c rpc b. serve requests results next b)
      (new_client 7 "http://b")
      vote
      3
    ≡ (connected, map_err {G = RpcError String String String} (remote_error 7) (next 3))
call-serve_example =
    call-serve requests results default default connected (λ addr. ok 1)
      (λ c rpc b. serve requests results next b) (new_client 7 "http://b") vote 1 next 3 (ok 3)
      (ok 4) first_connects refl refl refl

abbrev dial : ℕ → String → Result String ℕ
dial zero addr = err "refused"
dial (suc attempt) addr = ok attempt

abbrev history :
    History dial (λ target. "http://b") (get_or_connect default default (dial 2) 7 "http://b").0
history = History.called 2 7 History.empty History.empty

cached :
    (get_or_connect
      (get_or_connect default default (dial 2) 7 "http://b").0
      default
      (dial 0)
      7
      "http://b").1
    ≡ ok 1
unfolding get_or_connect
cached = refl

get_or_connect_serves_example : (made : ℕ) × (dial made "http://b" ≡ ok 1)
get_or_connect_serves_example =
    get_or_connect_serves dial (λ target. "http://b")
      (get_or_connect default default (dial 2) 7 "http://b").0 default 0 7 1 history cached
