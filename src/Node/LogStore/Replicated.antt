-- ===== src/Node/LogStore/Replicated.antt =====
-- What a follower's log becomes when it takes over the entries that a leader has read from its own.
use raftvec.Base.{
  ℕ, ◌≡◌, ◌∙◌, ap, arith, Bool, Bool-cases, inl, inr, none, [], ◌∷◌, All, if◌then◌else◌, leb, ◌==◌,
  nat_eq, nat_beq_iff,
}
use raftvec.BTreeMap
use raftvec.BTreeMap.{BTreeMap, Range, included, unbounded, in_range}
use raftvec.BTreeMap.Laws.{IsAscending, get_below}
use raftvec.Node.Raft.{LogIds, Entry}
use raftvec.Node.LogStore.{LogStoreInner, append, truncate, try_get_log_entries}
use raftvec.Node.LogStore.Laws.{IsValid, HasOwnIndex, entry_at, last_at, append-truncate}

module _ {F L M : Type 0} ⦃li : LogIds L⦄ where
  last_at-select :
      (test : ℕ → Bool) (m : BTreeMap (Entry F L M)) (i : ℕ)
      → IsAscending m
      → All HasOwnIndex m
      → last_at i (BTreeMap.values (BTreeMap.select test m))
        ≡ (if test i then BTreeMap.get m i else none)
  unfolding BTreeMap.select BTreeMap.get
  last_at-select test [] i a own = ground arith
  last_at-select test ((k, e) ∷ m) i a own = elim (Bool-cases (k == i)) [
    | inr differs ↦ ground (arith, own.0, last_at-select test m i a.1 own.1)
    | inl same ↦
        let key : k ≡ i = (nat_beq_iff k i).0 same in
        let tests : test k ≡ test i = ap test key in
        ground (arith, own.0, key, tests, get_below m k a.0, last_at-select test m i a.1 own.1)
  ]

module _ {F L M V : Type 0} ⦃li : LogIds L⦄ where
  try_get_log_entries_lem :
      (inner : LogStoreInner F L M V) (r : Range) (i : ℕ)
      → IsValid inner
      → last_at i (try_get_log_entries inner r) ≡ (if in_range r i then entry_at inner i else none)
  unfolding try_get_log_entries BTreeMap.range
  try_get_log_entries_lem inner r i v =
      last_at-select (in_range r) inner.log i v.ascending v.own_index

  -- How a follower takes over a leader's log: with valid logs, after the follower truncates at a
  -- log id and appends the entries that the leader reads from the index of that id on, every index
  -- from there on shows what it shows at the leader, and every index below shows what it did.
  pub replicated :
      (leader follower : LogStoreInner F L M V) (id : L) (i : ℕ)
      → IsValid leader
      → IsValid follower
      → (let from : Range = record { start = included (li.index id); end = unbounded } in
          entry_at (append (truncate follower id) (try_get_log_entries leader from)) i)
        ≡ (if leb (li.index id) i then entry_at leader i else entry_at follower i)
  replicated leader follower id i v w =
      let from : Range = record { start = included (li.index id); end = unbounded } in
      append-truncate follower id (try_get_log_entries leader from) i w
      ∙ ground (arith, try_get_log_entries_lem leader from i v)
