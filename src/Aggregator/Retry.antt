-- ===== src/Aggregator/Retry.antt =====
-- `call_with_retry` and `connect_with_retry` of crates/raftvec-aggregator/src/router.rs. `none` is a
-- panic: a remainder by zero, or an index out of range. The atomic `leader_hint` is passed through;
-- what the network and the timers make of an attempt is a parameter.
pub mod Bounds
pub mod Finds
use raftvec.Base.{
  ℕ, zero, suc, ◌+◌, ◌%◌, Option, none, some, List, [], ◌∷◌, String, Result, ok, err, length,
  get_elem?, if◌then◌else◌, ◌==◌, string_eq, nat_eq, Bool,
}
use raftvec.Proto.{Status, InsertResponse, DeleteResponse, SearchResponse}

pub data RouterError (E : Type 0) : Type 0 where
  connect : (addr : String) (source : E) → RouterError E
  rpc : Status → RouterError E
  shard_unreachable : RouterError E

pub record ShardReplicaSet (C : Type 0) : Type 0 where
  pub clients : List C
  pub addrs : List String
  pub leader_hint : ℕ

abbrev pub max_leader_attempts : ℕ
max_leader_attempts = 4

-- in milliseconds
abbrev pub read_attempt_timeout : ℕ
read_attempt_timeout = 400

-- `CarriesLeaderHint`
pub record CarriesLeaderHint (R : Type 0) : Type 0 where
  pub leader_hint : R → String

instance abbrev pub insert_hint : CarriesLeaderHint InsertResponse
insert_hint = record { leader_hint = λ r. r.leader_hint }

instance abbrev pub delete_hint : CarriesLeaderHint DeleteResponse
delete_hint = record { leader_hint = λ r. r.leader_hint }

instance abbrev pub search_hint : {F : Type 0} → CarriesLeaderHint (SearchResponse F)
search_hint = record { leader_hint = λ r. r.leader_hint }

-- `Ok(Ok(response))`, `Ok(Err(status))` and `Err(elapsed)` of a timed request.
pub data Attempt (R : Type 0) : Type 0 where
  response : R → Attempt R
  failed : Status → Attempt R
  elapsed : Attempt R

-- `addrs.iter().position(|a| a == hint)`
unfoldable pub position : List String → String → Option ℕ
position [] hint = none
position (a ∷ addrs) hint =
    if a == hint then some 0 else elim (position addrs hint) [ none ↦ none | some i ↦ some (suc i) ]

abbrev pub unwrap_or {ℓ} : {A : Type ℓ} → Option A → A → A
unwrap_or none d = d
unwrap_or (some a) d = a

module _ {C R E : Type 0} ⦃ch : CarriesLeaderHint R⦄ (addrs : List String) (clients : List C)
    (make_request : ℕ → C → Attempt R) where
  -- The rest of the loop: `rounds` attempts are left, `attempt` have been made. The result is the
  -- stored hint and the returned value.
  unfoldable pub attempts :
      (rounds attempt idx hint : ℕ) (last_err : Option (RouterError E))
      → Option (ℕ × Result (RouterError E) R)
  unfolding position
  attempts zero attempt idx hint last_err = some (hint, err (unwrap_or last_err shard_unreachable))
  attempts (suc rounds) attempt idx hint last_err = elim (get_elem? clients idx) [
    | none ↦ none
    | some client ↦
        let next = (idx + 1) % length clients in
        elim (make_request attempt client) [
          | response r ↦
              let led = unwrap_or (position addrs (ch.leader_hint r)) next in
              let rest = attempts rounds (suc attempt) led led last_err in
              if ch.leader_hint r == "" then some (idx, ok r) else rest
          | failed status ↦ attempts rounds (suc attempt) next next (some (rpc status))
          | elapsed ↦ attempts rounds (suc attempt) next next (some shard_unreachable)
        ]
  ]

-- A call that is cut off by an outer deadline stores what its finished attempts stored: it is the
-- call with as many `rounds`.
unfoldable pub call_with_rounds :
    {C R E : Type 0} ⦃ch : CarriesLeaderHint R⦄
    → ℕ
    → ShardReplicaSet C
    → (ℕ → C → Attempt R)
    → Option (ℕ × Result (RouterError E) R)
unfolding attempts
call_with_rounds rounds shard make_request =
    if length shard.clients == 0
    then none
    else attempts shard.addrs shard.clients make_request rounds 0
        (shard.leader_hint % length shard.clients) shard.leader_hint none

unfoldable pub call_with_retry :
    {C R E : Type 0} ⦃ch : CarriesLeaderHint R⦄
    → ShardReplicaSet C
    → (ℕ → C → Attempt R)
    → Option (ℕ × Result (RouterError E) R)
unfolding call_with_rounds
call_with_retry = call_with_rounds max_leader_attempts

abbrev pub connect_max_attempts : ℕ
connect_max_attempts = 10

module _ {C E : Type 0} (connecting : ℕ → Result E C) where
  -- The rest of the loop, then `last_err.expect(..)`.
  unfoldable pub connects :
      (rounds attempt : ℕ) → Option E → String → Option (Result (RouterError E) C)
  connects zero attempt none addr = none
  connects zero attempt (some e) addr = some (err (connect addr e))
  connects (suc rounds) attempt last_err addr = elim (connecting attempt) [
    | ok client ↦ some (ok client)
    | err e ↦ connects rounds (suc attempt) (some e) addr
  ]

  unfoldable pub connect_with_retry : String → Option (Result (RouterError E) C)
  unfolding connects
  connect_with_retry addr = connects connect_max_attempts 0 none addr
