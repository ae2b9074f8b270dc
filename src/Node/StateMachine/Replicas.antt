-- ===== src/Node/StateMachine/Replicas.antt =====
-- The replicas of a shard over one committed log: how a replica moves, by applying entries and by
-- installing the snapshots of others.
use raftvec.Base.{
  ℕ, zero, suc, ◌+◌, ◌≡◌, refl, sym, ap, ◌∙◌, subst, arith, List, [], ◌∷◌, ◌++◌, Result, ok, length,
  take, drop,
}
use raftvec.Core.Float.{Float}
use raftvec.Node.Store.{StoreSnapshot}
use raftvec.Node.Store.Valid.{IsValid}
use raftvec.Node.Raft.{LogIds, Memberships, Entry, Snapshot, StorageError, Bincode}
use raftvec.Node.StateMachine.{ShardStateMachine, apply, build_snapshot, install_snapshot}
use raftvec.Node.StateMachine.Apply.{apply-append, apply-IsValid}
use raftvec.Node.StateMachine.CatchUp.{installed}
use raftvec.Node.StateMachine.View.{view, meant_by, view-apply}

module _ {A : Type 0} where
  take-nil : (n : ℕ) → take {A = A} n [] ≡ []
  take-nil zero = refl
  take-nil (suc n) = refl

  take-append_left : (part rest : List A) → take (length part) (part ++ rest) ≡ part
  take-append_left [] rest = refl
  take-append_left (x ∷ part) rest = ap (◌∷◌ x) (take-append_left part rest)

  -- What follows the first `n` elements is the next part.
  take_more :
      (n : ℕ) (l part rest : List A)
      → drop n l ≡ part ++ rest
      → take (n + length part) l ≡ take n l ++ part
  take_more zero l part rest e =
      let k : 0 + length part ≡ length part = omega arith in rw (k, e) (take-append_left part rest)
  take_more (suc n) [] [] rest e = take-nil (suc n + 0)
  take_more (suc n) [] (x ∷ part) rest e = absurd (cc)
  take_more (suc n) (x ∷ l) part rest e =
      let k : suc n + length part ≡ suc (n + length part) = omega arith in
      rw k (ap (◌∷◌ x) (take_more n l part rest e))

module _ {F L M S B E : Type 0} ⦃fl : Float F⦄ ⦃li : LogIds L⦄ ⦃ms : Memberships L M S⦄
    (bc : Bincode (StoreSnapshot F) B E) (start : ShardStateMachine F L S)
    (log : List (Entry F L M)) where
  -- `Replica n sm`: a replica in the state `sm` has the first `n` entries behind it. It has applied
  -- entries and installed snapshots, each read in one state of the replica that has built it; it has
  -- created no collection on its own since the start.
  pub data Replica : ℕ → ShardStateMachine F L S → Type 0 where
    begin : Replica 0 start
    applied :
        {n m : ℕ} {sm sm' : ShardStateMachine F L S} (entries rest : List (Entry F L M))
        → Replica n sm
        → drop n log ≡ entries ++ rest
        → m ≡ n + length entries
        → sm' ≡ (apply sm entries).0
        → Replica m sm'
    caught_up :
        {n m : ℕ} {sm other sm' : ShardStateMachine F L S} (snap : Snapshot L S B)
        → Replica n sm
        → Replica m other
        → build_snapshot ⦃bc = bc⦄ other other other ≡ ok snap
        → install_snapshot ⦃bc = bc⦄ sm snap.meta snap.snapshot ≡ ok sm'
        → Replica m sm'

  pub Replica-state :
      {n : ℕ} {sm : ShardStateMachine F L S}
      → IsValid start.store
      → Replica n sm
      → sm ≡ (apply start (take n log)).0
  Replica-state v begin = unfold apply in refl
  Replica-state v (applied entries rest r at count run) =
      let before = Replica-state v r in
      run
      ∙ ap (λ t. (apply t entries).0) before
      ∙ sym (apply-append start (take _ log) entries)
      ∙ ap (λ l. (apply start l).0) (sym (take_more _ log entries rest at))
      ∙ ap (λ k. (apply start (take k log)).0) (sym count)
  Replica-state v (caught_up {n = k} {m = n} {sm = sm} {other = other} snap r o built done) =
      let there = Replica-state v o in
      let valid : IsValid other.store =
        subst (λ t. IsValid t.store) (sym there) (apply-IsValid start (take n log) v) in
      same_ok (sym done ∙ installed ⦃bc = bc⦄ other other other sm snap valid built) ∙ there
    where
      same_ok :
          {a b : ShardStateMachine F L S}
          → ◌≡◌ {A = Result (StorageError L S E) (ShardStateMachine F L S)} (ok a) (ok b)
          → a ≡ b
      same_ok e = cc

  -- Two replicas of a shard that have started with one valid store, and since then have only
  -- applied entries of the log, in batches of any sizes, and installed snapshots of other such
  -- replicas, each snapshot read with no write in between. With the same number of entries behind
  -- them they are in one state; and clients see in it what these entries are meant to do to the
  -- store at the start.
  pub replicas_agree :
      {n : ℕ} {sm other : ShardStateMachine F L S}
      → IsValid start.store
      → Replica n sm
      → Replica n other
      → (sm ≡ other) × (view sm.store ≡ meant_by (view start.store) (take n log))
  replicas_agree {n} v r o =
      let here = Replica-state v r in
      (
        here ∙ sym (Replica-state v o),
        ap (λ t. view t.store) here ∙ view-apply start (take n log) v,
      )
