-- ===== src/Node/LogStore.antt =====
-- `LogStore` of crates/raftvec-node/src/raft.rs, the Raft log in memory. Each method holds the
-- mutex throughout, so it is one step on `LogStoreInner`; none returns an error. `append` tells
-- openraft's callback that the write is done, after it.
pub mod Laws
pub mod Operations
pub mod Replicated
use raftvec.Base.{ℕ, Option, none, some, List, [], ◌∷◌}
use raftvec.BTreeMap
use raftvec.BTreeMap.{BTreeMap, Range, included, unbounded}
use raftvec.Node.Raft.{LogIds, Entry}

pub record LogStoreInner (F L M V : Type 0) : Type 0 where
  pub last_purged_log_id : Option L
  pub log : BTreeMap (Entry F L M)
  pub committed : Option L
  pub vote : Option V

-- `openraft::LogState`
pub record LogState (L : Type 0) : Type 0 where
  pub last_purged_log_id : Option L
  pub last_log_id : Option L

module _ {F L M V : Type 0} where
  abbrev pub default : LogStoreInner F L M V
  default = record { last_purged_log_id = none; log = []; committed = none; vote = none }

  unfoldable pub try_get_log_entries : LogStoreInner F L M V → Range → List (Entry F L M)
  unfolding BTreeMap.range
  try_get_log_entries inner range = BTreeMap.values (BTreeMap.range inner.log range)

  unfoldable pub get_log_state : LogStoreInner F L M V → LogState L
  unfolding BTreeMap.next_back
  get_log_state inner = record {
    last_purged_log_id = inner.last_purged_log_id;
    last_log_id = elim (BTreeMap.next_back inner.log) [
      | none ↦ inner.last_purged_log_id
      | some (_, e) ↦ some e.log_id
    ];
  }

  unfoldable pub save_committed : LogStoreInner F L M V → Option L → LogStoreInner F L M V
  save_committed inner committed = record inner { committed = committed }

  unfoldable pub read_committed : LogStoreInner F L M V → Option L
  read_committed inner = inner.committed

  unfoldable pub save_vote : LogStoreInner F L M V → V → LogStoreInner F L M V
  save_vote inner vote = record inner { vote = some vote }

  unfoldable pub read_vote : LogStoreInner F L M V → Option V
  read_vote inner = inner.vote

module _ {F L M : Type 0} ⦃li : LogIds L⦄ where
  -- The loop of `append`.
  unfoldable pub insert_each : BTreeMap (Entry F L M) → List (Entry F L M) → BTreeMap (Entry F L M)
  unfolding BTreeMap.insert
  insert_each log [] = log
  insert_each log (entry ∷ entries) =
      insert_each (BTreeMap.insert log (li.index entry.log_id) entry) entries

module _ {F L M V : Type 0} ⦃li : LogIds L⦄ where
  unfoldable pub append : LogStoreInner F L M V → List (Entry F L M) → LogStoreInner F L M V
  unfolding insert_each
  append inner entries = record inner { log = insert_each inner.log entries }

  unfoldable pub truncate : LogStoreInner F L M V → L → LogStoreInner F L M V
  unfolding BTreeMap.range BTreeMap.remove_all
  truncate inner log_id =
      let from : Range = record { start = included (li.index log_id); end = unbounded } in
      record inner {
        log = BTreeMap.remove_all inner.log (BTreeMap.keys (BTreeMap.range inner.log from));
      }

  unfoldable pub purge : LogStoreInner F L M V → L → LogStoreInner F L M V
  unfolding BTreeMap.range BTreeMap.remove_all
  purge inner log_id =
      let up_to : Range = record { start = unbounded; end = included (li.index log_id) } in
      record inner {
        last_purged_log_id = some log_id;
        log = BTreeMap.remove_all inner.log (BTreeMap.keys (BTreeMap.range inner.log up_to));
      }
