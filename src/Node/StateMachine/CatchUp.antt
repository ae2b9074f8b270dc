-- ===== src/Node/StateMachine/CatchUp.antt =====
-- Snapshots of the state machine, and the log after them.
use raftvec.Base.{◌≡◌, refl, sym, List, ◌++◌, ok, arith, Result-cases, inl, inr}
use raftvec.Core.Float.{Float}
use raftvec.Node.Store
use raftvec.Node.Store.{Store, StoreSnapshot}
use raftvec.Node.Store.Valid.{IsValid}
use raftvec.Node.Store.Replica.{restore-snapshot}
use raftvec.Node.Raft.{Memberships, LogIds, Entry, Snapshot, Bincode}
use raftvec.Node.StateMachine.{ShardStateMachine, apply, build_snapshot, install_snapshot}
use raftvec.Node.StateMachine.Apply.{apply-append, apply-IsValid, last_log_id, last_applied-apply}

module _ {F L S B E : Type 0} ⦃fl : Float F⦄ ⦃li : LogIds L⦄
    ⦃bc : Bincode (StoreSnapshot F) B E⦄ where
  pub installed :
      (s l m other : ShardStateMachine F L S) (snap : Snapshot L S B)
      → IsValid s.store
      → build_snapshot {E = E} s l m ≡ ok snap
      → install_snapshot {E = E} other snap.meta snap.snapshot
        ≡ ok (record {
          store = s.store;
          last_applied_log = l.last_applied_log;
          last_membership = m.last_membership;
        })
  unfolding build_snapshot install_snapshot
  installed s l m other snap v h = elim (Result-cases (bc.serialize (Store.snapshot s.store))) [
    | inl (b, e) ↦
        ground (
          arith,
          bc.round_trip (Store.snapshot s.store) b e,
          restore-snapshot s.store other.store v,
        )
    | inr (e, f) ↦ absurd (ground arith)
  ]

module _ {F L M S B E : Type 0} ⦃fl : Float F⦄ ⦃li : LogIds L⦄ ⦃ms : Memberships L M S⦄
    ⦃bc : Bincode (StoreSnapshot F) B E⦄ where
  -- Catching up: a snapshot that is taken, with no write in between, after a prefix of the log
  -- installs on any replica, and the rest of the log then leads to the state that the whole log
  -- leads to: store, position and membership.
  pub catch_up :
      (start other : ShardStateMachine F L S) (prefix suffix : List (Entry F L M))
      (snap : Snapshot L S B)
      → IsValid start.store
      → (let at_snapshot = (apply start prefix).0 in
          build_snapshot {E = E} at_snapshot at_snapshot at_snapshot)
        ≡ ok snap
      → (sm : ShardStateMachine F L S) × (install_snapshot {E = E} other snap.meta snap.snapshot
          ≡ ok sm)
        × ((apply sm suffix).0 ≡ (apply start (prefix ++ suffix)).0)
  catch_up start other prefix suffix snap v h =
      let p = (apply start prefix).0 in
      (
        p,
        installed p p p other snap (apply-IsValid start prefix v) h,
        sym (apply-append start prefix suffix),
      )

  -- A torn snapshot: where entries are applied after `build_snapshot` has read a valid store and
  -- before it reads the position, the snapshot installs as the old store under the position of the
  -- last of these entries.
  pub torn_snapshot :
      (sm other : ShardStateMachine F L S) (between : List (Entry F L M)) (snap : Snapshot L S B)
      → IsValid sm.store
      → (let later = (apply sm between).0 in build_snapshot {E = E} sm later later) ≡ ok snap
      → (torn : ShardStateMachine F L S) × (install_snapshot {E = E} other snap.meta snap.snapshot
          ≡ ok torn)
        × (torn.store ≡ sm.store)
        × (torn.last_applied_log ≡ last_log_id sm.last_applied_log between)
  torn_snapshot sm other between snap v h =
      let later = (apply sm between).0 in
      (
        record {
          store = sm.store;
          last_applied_log = later.last_applied_log;
          last_membership = later.last_membership;
        },
        installed sm later later other snap v h,
        refl,
        last_applied-apply sm between,
      )
