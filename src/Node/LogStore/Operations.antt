-- ===== src/Node/LogStore/Operations.antt =====
-- Any sequence of the operations of a log store, against a map from indices to entries.
use raftvec.Base.{ℕ, ◌≡◌, refl, ◌∙◌, ap, Option, none, some, List, [], ◌∷◌, if◌then◌else◌, leb}
use mathlib.Core.Path.{fun_ext}
use raftvec.Node.Raft.{LogIds, Entry}
use raftvec.Node.LogStore.{
  LogStoreInner, append, truncate, purge, save_committed, save_vote, read_committed, read_vote,
  get_log_state,
}
use raftvec.Node.LogStore.Laws.{
  IsValid, entry_at, last_at, or_else, get-insert_each, entry_at-truncate, append-IsValid,
  truncate-IsValid, purge-IsValid, purge_lem,
}

-- The operations that change a log store.
pub data Operation (F L M V : Type 0) : Type 0 where
  append_entries : List (Entry F L M) → Operation F L M V
  truncate_from purge_to : L → Operation F L M V
  committed_is : Option L → Operation F L M V
  vote_is : V → Operation F L M V

-- What a log store is about.
pub record LogView (F L M V : Type 0) : Type 0 where
  pub entries : ℕ → Option (Entry F L M)
  pub purged : Option L
  pub committed : Option L
  pub vote : Option V

module _ {F L M V : Type 0} ⦃li : LogIds L⦄ where
  abbrev pub do_operation : LogStoreInner F L M V → Operation F L M V → LogStoreInner F L M V
  do_operation inner (append_entries es) = append inner es
  do_operation inner (truncate_from id) = truncate inner id
  do_operation inner (purge_to id) = purge inner id
  do_operation inner (committed_is id) = save_committed inner id
  do_operation inner (vote_is v) = save_vote inner v

  abbrev pub do_operations :
      LogStoreInner F L M V → List (Operation F L M V) → LogStoreInner F L M V
  do_operations inner [] = inner
  do_operations inner (o ∷ os) = do_operations (do_operation inner o) os

  -- What the operations are meant to do.
  abbrev pub meant : LogView F L M V → Operation F L M V → LogView F L M V
  meant w (append_entries es) = record w { entries = λ i. or_else (last_at i es) (w.entries i) }
  meant w (truncate_from id) = record w {
    entries = λ i. if leb (li.index id) i then none else w.entries i;
  }
  meant w (purge_to id) = record w {
    entries = λ i. if leb i (li.index id) then none else w.entries i;
    purged = some id;
  }
  meant w (committed_is id) = record w { committed = id }
  meant w (vote_is v) = record w { vote = some v }

  abbrev pub meant_by : LogView F L M V → List (Operation F L M V) → LogView F L M V
  meant_by w [] = w
  meant_by w (o ∷ os) = meant_by (meant w o) os

  -- What the reading methods show.
  abbrev pub view : LogStoreInner F L M V → LogView F L M V
  view inner = record {
    entries = entry_at inner;
    purged = (get_log_state inner).last_purged_log_id;
    committed = read_committed inner;
    vote = read_vote inner;
  }

  operation-IsValid :
      (inner : LogStoreInner F L M V) (o : Operation F L M V)
      → IsValid inner
      → IsValid (do_operation inner o)
  unfolding save_committed save_vote
  operation-IsValid inner (append_entries es) v = append-IsValid inner es v
  operation-IsValid inner (truncate_from id) v = truncate-IsValid inner id v
  operation-IsValid inner (purge_to id) v = purge-IsValid inner id v
  operation-IsValid inner (committed_is id) v = record {
    ascending = v.ascending;
    own_index = v.own_index;
  }
  operation-IsValid inner (vote_is w) v = record {
    ascending = v.ascending;
    own_index = v.own_index;
  }

  view-operation :
      (inner : LogStoreInner F L M V) (o : Operation F L M V)
      → IsValid inner
      → view (do_operation inner o) ≡ meant (view inner) o
  unfolding append truncate purge save_committed save_vote read_committed read_vote get_log_state
  view-operation inner (append_entries es) v =
      λ i. record (view inner) { entries = fun_ext (get-insert_each inner.log es) i }
  view-operation inner (truncate_from id) v =
      λ i. record (view inner) { entries = fun_ext (λ j. entry_at-truncate inner id j v) i }
  view-operation inner (purge_to id) v = λ i. record (view inner) {
    entries = fun_ext (λ j. (purge_lem inner id j v).0) i;
    purged = some id;
  }
  view-operation inner (committed_is id) v = refl
  view-operation inner (vote_is w) v = refl

  -- Any sequence of the operations that change a log store, from a valid one: the log stays in
  -- order, with each entry under its own index, and what the store shows, the entry at each index,
  -- the last purged id, the committed id and the vote, is what the operations are meant to do to
  -- what it showed.
  pub view-do_operations :
      (inner : LogStoreInner F L M V) (os : List (Operation F L M V))
      → IsValid inner
      → IsValid (do_operations inner os)
        × (view (do_operations inner os) ≡ meant_by (view inner) os)
  view-do_operations inner [] v = (v, refl)
  view-do_operations inner (o ∷ os) v =
      let (w, e) = view-do_operations (do_operation inner o) os (operation-IsValid inner o v) in
      (w, e ∙ ap (λ x. meant_by x os) (view-operation inner o v))
