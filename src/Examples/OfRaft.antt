-- ===== src/Examples/OfRaft.antt =====
-- Runs of the log and of the state machine.
use raftvec.Base.{ℕ, ◌≡◌, refl, arith, List, [], ◌∷◌, ◌++◌, none, some, ok, String}
use raftvec.Node.Store
use raftvec.Node.Store.{Store, StoreSnapshot}
use raftvec.Node.Raft.{Entry, upsert, delete, normal, blank, membership, Snapshot}
use raftvec.Node.StateMachine.{ShardStateMachine, apply, build_snapshot, install_snapshot}
use raftvec.Node.StateMachine.CatchUp.{catch_up, torn_snapshot}
use raftvec.Node.LogStore.{LogStoreInner, append, truncate}
use raftvec.Node.LogStore.Laws
use raftvec.Node.LogStore.Laws.{
  entry_at, append-IsValid, append-truncate, get_log_state_last, purge_lem,
}
use raftvec.Node.LogStore.Operations
use raftvec.Node.LogStore.Operations.{Operation, do_operations, view-do_operations}
use raftvec.Node.LogStore.Replicated.{replicated}
use raftvec.BTreeMap.{included, unbounded}
use raftvec.Node.LogStore.{try_get_log_entries}
use raftvec.Examples.Fixtures.{nat_float, nat_log_ids, latest_membership, as_is, plum, fruit_store}
use raftvec.Examples.OfStore.{fruit-IsValid}

abbrev pub machine : ShardStateMachine ℕ ℕ (List ℕ)
machine = record { store = fruit_store; last_applied_log = none; last_membership = [] }

abbrev pub first_entries : List (Entry ℕ ℕ (List ℕ))
first_entries =
    record { log_id = 1; payload = blank }
    ∷ record { log_id = 2; payload = normal (upsert "fruit" (plum ∷ [])) }
    ∷ []

abbrev pub later_entries : List (Entry ℕ ℕ (List ℕ))
later_entries =
    record { log_id = 3; payload = membership (7 ∷ []) }
    ∷ record { log_id = 4; payload = normal (delete "fruit" (2 ∷ [])) }
    ∷ []

abbrev pub taken : ShardStateMachine ℕ ℕ (List ℕ)
taken = (apply machine first_entries).0

abbrev pub snap : Snapshot ℕ (List ℕ) (StoreSnapshot ℕ)
snap = record {
  meta = record {
    last_log_id = taken.last_applied_log;
    last_membership = taken.last_membership;
    snapshot_id = "id";
  };
  snapshot = Store.snapshot taken.store;
}

pub snap_built : build_snapshot {E = String} taken taken taken ≡ ok snap
unfolding build_snapshot
snap_built = refl

catch_up_example :
    (sm : ShardStateMachine ℕ ℕ (List ℕ)) × (install_snapshot {E = String} machine snap.meta
        snap.snapshot
      ≡ ok sm)
    × ((apply sm later_entries).0 ≡ (apply machine (first_entries ++ later_entries)).0)
catch_up_example =
    catch_up machine machine first_entries later_entries snap fruit-IsValid snap_built

abbrev torn_snap : Snapshot ℕ (List ℕ) (StoreSnapshot ℕ)
torn_snap = record {
  meta = record {
    last_log_id = taken.last_applied_log;
    last_membership = taken.last_membership;
    snapshot_id = "id";
  };
  snapshot = Store.snapshot machine.store;
}

torn_built : build_snapshot {E = String} machine taken taken ≡ ok torn_snap
unfolding build_snapshot
torn_built = refl

torn_snapshot_example :
    (torn : ShardStateMachine ℕ ℕ (List ℕ)) × (install_snapshot {E = String} machine torn_snap.meta
        torn_snap.snapshot
      ≡ ok torn)
    × (torn.store ≡ machine.store)
    × (torn.last_applied_log ≡ some 2)
torn_snapshot_example =
    torn_snapshot machine machine first_entries torn_snap fruit-IsValid torn_built

-- A log with the entries 1 and 2.
abbrev short_log : LogStoreInner ℕ ℕ (List ℕ) ℕ
short_log = record {
  last_purged_log_id = none;
  log =
      (1, record { log_id = 1; payload = blank })
      ∷ (2, record { log_id = 2; payload = normal (upsert "fruit" (plum ∷ [])) })
      ∷ [];
  committed = none;
  vote = some 5;
}

short_log-IsValid : Laws.IsValid short_log
short_log-IsValid = record {
  ascending = ((omega arith, tt), (tt, tt));
  own_index = (refl, (refl, tt));
}

abbrev operations : List (Operation ℕ ℕ (List ℕ) ℕ)
operations =
    Operation.append_entries first_entries
    ∷ Operation.vote_is 5
    ∷ Operation.truncate_from 2
    ∷ Operation.append_entries later_entries
    ∷ Operation.purge_to 1
    ∷ []

view-do_operations_example :
    Laws.IsValid (do_operations short_log operations)
    × (Operations.view (do_operations short_log operations)
        ≡ Operations.meant_by (Operations.view short_log) operations)
view-do_operations_example = view-do_operations short_log operations short_log-IsValid

-- The log of a follower whose entry 2 is of an old leader.
abbrev stale_log : LogStoreInner ℕ ℕ (List ℕ) ℕ
stale_log = record {
  last_purged_log_id = none;
  log =
      (1, record { log_id = 1; payload = blank })
      ∷ (2, record { log_id = 2; payload = blank })
      ∷ (3, record { log_id = 3; payload = blank })
      ∷ [];
  committed = none;
  vote = some 4;
}

stale_log-IsValid : Laws.IsValid stale_log
stale_log-IsValid = record {
  ascending = ((omega arith, (omega arith, tt)), ((omega arith, tt), (tt, tt)));
  own_index = (refl, (refl, (refl, tt)));
}

replicated_example :
    entry_at
      (append
        (truncate stale_log 2)
        (try_get_log_entries short_log (record { start = included 2; end = unbounded })))
      2
    ≡ entry_at short_log 2
replicated_example = replicated short_log stale_log 2 2 short_log-IsValid stale_log-IsValid
