-- ===== src/Node/StateMachine/Durable.antt =====
-- What the replicas show of one committed entry, later on.
use raftvec.Base.{
  ℕ, zero, suc, ◌≡◌, ◌≤◌, ◌<◌, refl, ap, ◌∙◌, arith, none, some, List, [], ◌∷◌, String, Bool, true,
  false, ◌&&◌, ◌==◌, nat_eq, string_eq, ◌⊎◌, inl, inr, Bool-cases, get_elem?, take,
}
use native.Mathlib.Decide.{dec_lt}
use raftvec.Core.Float.{Float}
use raftvec.Node.Store.{StoreSnapshot}
use raftvec.Node.Store.Valid.{IsValid}
use raftvec.Node.Store.Contents.{contents, last_with, listed}
use raftvec.Node.Raft.{
  LogIds, Memberships, upsert, delete, EntryPayload, blank, normal, membership, Entry, Bincode,
}
use raftvec.Node.StateMachine.{ShardStateMachine}
use raftvec.Node.StateMachine.View.{View, view, meant_payload, meant_by}
use raftvec.Node.StateMachine.Replicas.{Replica, replicas_agree}

module _ {F M : Type 0} (name : String) (id : ℕ) where
  -- The entry can write or remove the record of the id in the collection.
  abbrev pub touches : EntryPayload F M → Bool
  touches blank = false
  touches (normal (upsert other rs)) =
      other == name && elim (last_with id rs) [ none ↦ false | some r ↦ true ]
  touches (normal (delete other ids)) = other == name && listed id ids
  touches (membership m) = false

  dims-meant_payload : (v : View F) (p : EntryPayload F M) → (meant_payload v p).dims ≡ v.dims
  dims-meant_payload v blank = refl
  dims-meant_payload v (normal (upsert other rs)) = refl
  dims-meant_payload v (normal (delete other ids)) = refl
  dims-meant_payload v (membership m) = refl

  untouched :
      (v : View F) (p : EntryPayload F M)
      → touches p ≡ false
      → (meant_payload v p).records name id ≡ v.records name id
  untouched v blank h = refl
  untouched v (normal (upsert other rs)) h = ground arith
  untouched v (normal (delete other ids)) h = ground arith
  untouched v (membership m) h = refl

module _ {F L M : Type 0} (name : String) (id : ℕ) where
  -- One of the entries of the log from the `i`th up to the `m`th touches the record.
  abbrev pub Touched : List (Entry F L M) → (i m : ℕ) → Type 0
  Touched log i m =
      (q : ℕ) × (e : Entry F L M) × (i ≤ q)
      × (q < m)
      × (get_elem? log q ≡ some e)
      × (touches name id e.payload ≡ true)

  later :
      (x : Entry F L M) (l : List (Entry F L M)) (i m : ℕ)
      → Touched l i m
      → Touched (x ∷ l) (suc i) (suc m)
  later x l i m (q, e, from, to, found, hit) = (suc q, e, omega arith, omega arith, found, hit)

  sooner : (l : List (Entry F L M)) (i j m : ℕ) → i ≤ j → Touched l j m → Touched l i m
  sooner l i j m le (q, e, from, to, found, hit) = (q, e, omega arith, to, found, hit)

  stays :
      (l : List (Entry F L M)) (m : ℕ) (w : View F)
      → Touched l 0 m ⊎ ((meant_by w (take m l)).records name id ≡ w.records name id)
  stays l zero w = inr refl
  stays [] (suc m) w = inr refl
  stays (x ∷ l) (suc m) w = elim (Bool-cases (touches name id x.payload)) [
    | inl hit ↦ inl (0, x, omega arith, omega arith, refl, hit)
    | inr miss ↦ elim (stays l m (meant_payload w x.payload)) [
      | inl t ↦ inl (sooner (x ∷ l) 0 1 (suc m) (omega arith) (later x l 0 m t))
      | inr same ↦ inr (same ∙ untouched name id w x.payload miss)
    ]
  ]

  -- What a log is meant to do to the record, from one of its entries on.
  settles :
      (l : List (Entry F L M)) (pos m : ℕ) (e : Entry F L M) (v : View F)
      → get_elem? l pos ≡ some e
      → pos < m
      → Touched l (suc pos) m
        ⊎ ((w : View F) × (w.dims ≡ v.dims)
            × ((meant_by v (take m l)).records name id
                ≡ (meant_payload w e.payload).records name id))
  settles l pos zero e v h lt = absurd (omega arith)
  settles [] pos (suc m) e v h lt = absurd (cc)
  settles (x ∷ l) zero (suc m) e v h lt = elim (stays l m (meant_payload v x.payload)) [
    | inl t ↦ inl (later x l 0 m t)
    | inr same ↦ inr (v, refl, ground arith)
  ]
  settles (x ∷ l) (suc pos) (suc m) e v h lt =
      elim (settles l pos m e (meant_payload v x.payload) h (omega arith)) [
        | inl t ↦ inl (later x l (suc pos) m t)
        | inr (w, dims, same) ↦ inr (w, dims ∙ dims-meant_payload name id v x.payload, same)
      ]

module _ {F L M S B E : Type 0} ⦃fl : Float F⦄ ⦃li : LogIds L⦄ ⦃ms : Memberships L M S⦄
    (bc : Bincode (StoreSnapshot F) B E) (start : ShardStateMachine F L S)
    (log : List (Entry F L M)) where
  -- What a replica shows of a record, by one entry of the log: it has not applied the entry, or it
  -- has also applied a later one that touches the record, or it shows what the entry is meant to
  -- leave there.
  pub entry_shows :
      {m : ℕ} {sm : ShardStateMachine F L S} (name : String) (id pos : ℕ) (e : Entry F L M)
      → IsValid start.store
      → Replica bc start log m sm
      → get_elem? log pos ≡ some e
      → (m ≤ pos)
        ⊎ Touched name id log (suc pos) m
        ⊎ ((w : View F) × (w.dims ≡ (view start.store).dims)
            × (contents sm.store name id ≡ (meant_payload w e.payload).records name id))
  entry_shows {m} name id pos e v r found = elim (dec_lt pos m) [
    | no before ↦ inl (omega arith)
    | yes applied ↦ elim (settles name id log pos m e (view start.store) found applied) [
      | inl t ↦ inr (inl t)
      | inr (w, dims, same) ↦
          inr (
            inr (w, dims, ap (λ u. u.records name id) (replicas_agree bc start log v r r).1 ∙ same))
    ]
  ]
