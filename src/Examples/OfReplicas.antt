-- ===== src/Examples/OfReplicas.antt =====
-- Runs of replicas over one log, and of what clients see of them.
use raftvec.Base.{ℕ, ◌≡◌, refl, List, [], ◌∷◌, ◌++◌, none, some, take, ok, string_eq}
use raftvec.HashMap
use raftvec.Node.Store
use raftvec.Node.Store.{create_collection}
use raftvec.Node.Store.Valid.{IsValid, new-IsValid}
use raftvec.Node.Store.Contents.{contents}
use raftvec.Node.Raft.{Entry, upsert}
use raftvec.Node.StateMachine.{apply, run_command, install_snapshot}
use raftvec.Node.StateMachine.View.{view, meant_by, view-apply}
use raftvec.Node.Raft.{delete}
use raftvec.Node.StateMachine.Again.{run_commands, run_commands_again}
use raftvec.Node.StateMachine.Replicas.{Replica, replicas_agree}
use raftvec.Node.StateMachine.Creates.{Reachable, reachable-IsValid, create_late_diverges}
use raftvec.Examples.Fixtures.{fruit_store, nat_float, nat_log_ids, latest_membership, as_is, plum}
use raftvec.Examples.OfStore.{fruit-IsValid}
use raftvec.Examples.OfRaft.{machine, first_entries, later_entries, taken, snap, snap_built}

abbrev whole_log : List (Entry ℕ ℕ (List ℕ))
whole_log = first_entries ++ later_entries

-- One replica applies the entries in two batches.
two_batches : Replica as_is machine whole_log 4 (apply taken later_entries).0
two_batches =
    Replica.applied later_entries []
      (Replica.applied first_entries later_entries Replica.begin refl refl refl) refl refl refl

snap_installed :
    install_snapshot ⦃bc = as_is⦄ machine snap.meta snap.snapshot
    ≡ ok (record taken { store = Store.restore machine.store snap.snapshot })
unfolding install_snapshot
snap_installed = refl

-- Another installs a snapshot of the first batch, and applies the rest.
from_snapshot :
    Replica as_is machine whole_log 4
      (apply (record taken { store = Store.restore machine.store snap.snapshot }) later_entries).0
from_snapshot =
    Replica.applied later_entries []
      (Replica.caught_up snap Replica.begin
        (Replica.applied first_entries later_entries Replica.begin refl refl refl) snap_built
        snap_installed)
      refl refl refl

replicas_agree_example :
    ((apply taken later_entries).0
      ≡ (apply
          (record taken { store = Store.restore machine.store snap.snapshot })
          later_entries).0)
    × (view (apply taken later_entries).0.store ≡ meant_by (view machine.store) (take 4 whole_log))
replicas_agree_example =
    replicas_agree as_is machine whole_log fruit-IsValid two_batches from_snapshot

view-apply_example :
    view (apply machine whole_log).0.store ≡ meant_by (view machine.store) whole_log
view-apply_example = view-apply machine whole_log fruit-IsValid

reachable-IsValid_example :
    IsValid (run_command (create_collection Store.new "fruit" 2 1).0 (upsert "fruit" (plum ∷ []))).0
reachable-IsValid_example = reachable-IsValid (
    Reachable.commanded (upsert "fruit" (plum ∷ []))
      (Reachable.created "fruit" 2 1 Reachable.empty))

unknown_there : HashMap.get (Store.new {F = ℕ}).collections "fruit" ≡ none
unfolding HashMap.get
unknown_there = refl

create_late_diverges_example :
    (contents
        (run_command (create_collection Store.new "fruit" 2 1).0 (upsert "fruit" (plum ∷ []))).0
        "fruit"
        1
      ≡ some plum)
    × (contents
          (create_collection (run_command Store.new (upsert "fruit" (plum ∷ []))).0 "fruit" 2 1).0
          "fruit"
          1
        ≡ none)
create_late_diverges_example =
    create_late_diverges Store.new "fruit" 2 1 1 (plum ∷ []) plum new-IsValid unknown_there refl
      refl

-- An insert whose answer is lost, a delete of its record by another client, and the insert again.
run_commands_again_example :
    view (
      run_commands fruit_store
        (upsert "fruit" (plum ∷ []) ∷ delete "fruit" (1 ∷ []) ∷ upsert "fruit" (plum ∷ []) ∷ []))
    ≡ view (run_commands fruit_store (delete "fruit" (1 ∷ []) ∷ upsert "fruit" (plum ∷ []) ∷ []))
run_commands_again_example =
    run_commands_again fruit_store (upsert "fruit" (plum ∷ [])) (delete "fruit" (1 ∷ []) ∷ [])
      fruit-IsValid
