-- ===== src/Node/LogStore/Laws.antt =====
-- The Raft log: what its operations leave at each index.
use raftvec.Base.{
  ℕ, ◌≤◌, ◌≡◌, refl, ap, ◌∙◌, ◌⊎◌, inl, inr, Option-cases, Option, none, some, List, [], ◌∷◌, All,
  if◌then◌else◌, leb, ◌==◌, nat_eq, arith,
}
use raftvec.BTreeMap
use raftvec.BTreeMap.{BTreeMap, Range, included, unbounded}
use raftvec.BTreeMap.Laws.{
  IsAscending, All-insert, All-remove_all, All-get, insert-IsAscending, remove_all-IsAscending,
  get-insert, get-remove_range, next_back-greatest, get-next_back, nil_of_next_back,
}
use raftvec.Node.Raft.{LogIds, Entry}
use raftvec.Node.LogStore.{LogStoreInner, insert_each, append, truncate, purge, get_log_state}

module _ {F L M : Type 0} ⦃li : LogIds L⦄ where
  -- The last of some entries with an index.
  abbrev pub last_at : ℕ → List (Entry F L M) → Option (Entry F L M)
  last_at i [] = none
  last_at i (e ∷ es) = elim (last_at i es) [
    | some f ↦ some f
    | none ↦ if li.index e.log_id == i then some e else none
  ]

  abbrev pub or_else : Option (Entry F L M) → Option (Entry F L M) → Option (Entry F L M)
  or_else (some e) o = some e
  or_else none o = o

  pub get-insert_each :
      (log : BTreeMap (Entry F L M)) (es : List (Entry F L M)) (i : ℕ)
      → BTreeMap.get (insert_each log es) i ≡ or_else (last_at i es) (BTreeMap.get log i)
  unfolding insert_each
  get-insert_each log [] i = refl
  get-insert_each log (e ∷ es) i = ground (
    arith,
    get-insert_each (BTreeMap.insert log (li.index e.log_id) e) es i,
    get-insert log (li.index e.log_id) i e,
  )

  insert_each-IsAscending :
      (log : BTreeMap (Entry F L M)) (es : List (Entry F L M))
      → IsAscending log
      → IsAscending (insert_each log es)
  unfolding insert_each
  insert_each-IsAscending log [] a = a
  insert_each-IsAscending log (e ∷ es) a =
      insert_each-IsAscending (BTreeMap.insert log (li.index e.log_id) e) es
        (insert-IsAscending log (li.index e.log_id) e a)

  abbrev pub HasOwnIndex : ℕ × Entry F L M → Type 0
  HasOwnIndex (i, e) = li.index e.log_id ≡ i

  insert_each-own_index :
      (log : BTreeMap (Entry F L M)) (es : List (Entry F L M))
      → All HasOwnIndex log
      → All HasOwnIndex (insert_each log es)
  unfolding insert_each
  insert_each-own_index log [] h = h
  insert_each-own_index log (e ∷ es) h =
      insert_each-own_index (BTreeMap.insert log (li.index e.log_id) e) es
        (All-insert HasOwnIndex log (li.index e.log_id) e refl h)

module _ {F L M V : Type 0} ⦃li : LogIds L⦄ where
  pub record IsValid (inner : LogStoreInner F L M V) : Type 0 where
    pub ascending : IsAscending inner.log
    pub own_index : All HasOwnIndex inner.log

  abbrev pub entry_at : LogStoreInner F L M V → ℕ → Option (Entry F L M)
  entry_at inner i = BTreeMap.get inner.log i

  -- `append` keeps a valid log valid: in order, and each entry under its own index.
  pub append-IsValid :
      (inner : LogStoreInner F L M V) (es : List (Entry F L M))
      → IsValid inner
      → IsValid (append inner es)
  unfolding append
  append-IsValid inner es v = record {
    ascending = insert_each-IsAscending inner.log es v.ascending;
    own_index = insert_each-own_index inner.log es v.own_index;
  }

  pub truncate-IsValid :
      (inner : LogStoreInner F L M V) (id : L) → IsValid inner → IsValid (truncate inner id)
  unfolding truncate
  truncate-IsValid inner id v = record {
    ascending =
        remove_all-IsAscending inner.log
          (BTreeMap.keys
            (BTreeMap.range inner.log (record { start = included (li.index id); end = unbounded })))
          v.ascending;
    own_index =
        All-remove_all HasOwnIndex inner.log
          (BTreeMap.keys
            (BTreeMap.range inner.log (record { start = included (li.index id); end = unbounded })))
          v.own_index;
  }

  pub purge-IsValid :
      (inner : LogStoreInner F L M V) (id : L) → IsValid inner → IsValid (purge inner id)
  unfolding purge
  purge-IsValid inner id v = record {
    ascending =
        remove_all-IsAscending inner.log
          (BTreeMap.keys
            (BTreeMap.range inner.log (record { start = unbounded; end = included (li.index id) })))
          v.ascending;
    own_index =
        All-remove_all HasOwnIndex inner.log
          (BTreeMap.keys
            (BTreeMap.range inner.log (record { start = unbounded; end = included (li.index id) })))
          v.own_index;
  }

  pub entry_at-truncate :
      (inner : LogStoreInner F L M V) (id : L) (i : ℕ)
      → IsValid inner
      → entry_at (truncate inner id) i ≡ (if leb (li.index id) i then none else entry_at inner i)
  unfolding truncate
  entry_at-truncate inner id i v = ground (
    arith,
    get-remove_range inner.log (record { start = included (li.index id); end = unbounded }) i
        v.ascending,
  )

  -- How a follower resolves a conflict: in a valid log, after `truncate` at a log id and `append`,
  -- an index shows the last of the new entries with that index; failing that, the old entry if the
  -- index is below that of the log id; and nothing otherwise.
  pub append-truncate :
      (inner : LogStoreInner F L M V) (id : L) (es : List (Entry F L M)) (i : ℕ)
      → IsValid inner
      → entry_at (append (truncate inner id) es) i
        ≡ or_else (last_at i es) (if leb (li.index id) i then none else entry_at inner i)
  unfolding append
  append-truncate inner id es i v =
      get-insert_each (truncate inner id).log es i
      ∙ ap (or_else (last_at i es)) (entry_at-truncate inner id i v)

  -- `get_log_state` reports, of a valid log with entries, the id of the entry with the greatest
  -- index, and of an empty log the last purged id.
  pub get_log_state_last :
      (inner : LogStoreInner F L M V)
      → IsValid inner
      → ((inner.log ≡ []) × ((get_log_state inner).last_log_id ≡ inner.last_purged_log_id))
        ⊎ ((e : Entry F L M) × ((get_log_state inner).last_log_id ≡ some e.log_id)
            × (entry_at inner (li.index e.log_id) ≡ some e)
            × All (λ x. x.0 ≤ li.index e.log_id) inner.log)
  unfolding get_log_state
  get_log_state_last inner v = elim (Option-cases (BTreeMap.next_back inner.log)) [
    | inl n ↦ inl (nil_of_next_back inner.log n, rw (n, get_log_state))
    | inr ((k, e), h) ↦
        let found = get-next_back inner.log k e v.ascending h in
        let own : li.index e.log_id ≡ k = All-get HasOwnIndex inner.log k e v.own_index found in
        inr (
          e,
          rw (h, get_log_state),
          ap (BTreeMap.get inner.log) own ∙ found,
          rw own (next_back-greatest inner.log k e v.ascending h),
        )
  ]

  -- In a valid log, `purge` removes the entries up to the log id, and keeps those above. The log
  -- state then reports the log id as the last purged one, and some log id as the last one.
  pub purge_lem :
      (inner : LogStoreInner F L M V) (id : L) (i : ℕ)
      → IsValid inner
      → (entry_at (purge inner id) i ≡ (if leb i (li.index id) then none else entry_at inner i))
        × ((get_log_state (purge inner id)).last_purged_log_id ≡ some id)
        × ((l : L) × ((get_log_state (purge inner id)).last_log_id ≡ some l))
  unfolding purge get_log_state
  purge_lem inner id i v = (
    ground (
      arith,
      get-remove_range inner.log (record { start = unbounded; end = included (li.index id) }) i
          v.ascending,
    ),
    refl,
    elim (get_log_state_last (purge inner id) (purge-IsValid inner id v)) [
      | inl (_, e) ↦ (id, e)
      | inr (x, e, _, _) ↦ (x.log_id, e)
    ],
  )
