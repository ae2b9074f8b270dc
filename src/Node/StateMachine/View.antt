-- ===== src/Node/StateMachine/View.antt =====
-- What clients can see of a replica, and what a command is meant to do to it: collections as maps
-- from ids to records, with no hash maps, cached norms or results.
use raftvec.Base.{
  ℕ, ◌≡◌, refl, ◌∙◌, ap, arith, Option, none, some, List, [], ◌∷◌, String, Bool, true, false, ◌&&◌,
  ◌==◌, nat_eq, string_eq, if◌then◌else◌, length, Option-cases, Bool-cases, inl, inr, ◌⊎◌,
}
use text.Mathlib.TextEquality.{eq_iff}
use raftvec.HashMap
use raftvec.HashMap.{HashMap}
use raftvec.HashMap.Laws.{get-insert}
use raftvec.Core.Float.{Float}
use raftvec.Core.Record.{VectorRecord}
use raftvec.Node.Store
use raftvec.Node.Store.{Store, Collection, StoredVector, first_mismatch, insert_each, remove_each}
use raftvec.Node.Store.Valid.{IsValid, get-IsValid}
use raftvec.Node.Store.Contents.{contents, last_with, or_else, listed, insert_ok_at, removed}
use raftvec.Node.Raft.{
  ShardCommand, upsert, delete, Entry, EntryPayload, blank, normal, membership, Memberships,
}
use raftvec.Node.StateMachine.{ShardStateMachine, run_command, apply_payload, apply_entry, apply}
use raftvec.Node.StateMachine.Apply.{apply_payload-IsValid}

pub record View (F : Type 0) : Type 0 where
  pub dims : String → Option ℕ
  pub records : String → ℕ → Option (VectorRecord F)

module _ {F : Type 0} where
  abbrev pub view : Store F → View F
  view s = record {
    dims = λ name. elim (HashMap.get s.collections name) [ none ↦ none | some c ↦ some c.dim ];
    records = contents s;
  }

  abbrev pub all_fit : ℕ → List (VectorRecord F) → Bool
  all_fit dim [] = true
  all_fit dim (r ∷ rs) = length r.embedding == dim && all_fit dim rs

  -- A batch is taken whole if the collection is there and every record has its dimension.
  abbrev pub accepts : View F → String → List (VectorRecord F) → Bool
  accepts v name rs = elim (v.dims name) [ none ↦ false | some dim ↦ all_fit dim rs ]

  abbrev pub meant : View F → ShardCommand F → View F
  meant v (upsert name rs) = record v {
    records = λ other id.
        if name == other && accepts v name rs
        then or_else (last_with id rs) (v.records other id)
        else v.records other id;
  }
  meant v (delete name ids) = record v {
    records = λ other id. if name == other && listed id ids then none else v.records other id;
  }

module _ {F M : Type 0} where
  abbrev pub meant_payload : View F → EntryPayload F M → View F
  meant_payload v blank = v
  meant_payload v (normal c) = meant v c
  meant_payload v (membership m) = v

module _ {F L M : Type 0} where
  abbrev pub meant_by : View F → List (Entry F L M) → View F
  meant_by v [] = v
  meant_by v (e ∷ es) = meant_by (meant_payload v e.payload) es

module _ {F : Type 0} where
  fits_iff_no_mismatch :
      (dim : ℕ) (rs : List (VectorRecord F))
      → ((first_mismatch dim rs ≡ none) × (all_fit dim rs ≡ true))
        ⊎ ((n : ℕ) × (first_mismatch dim rs ≡ some n) × (all_fit dim rs ≡ false))
  unfolding first_mismatch
  fits_iff_no_mismatch dim [] = inl (refl, refl)
  fits_iff_no_mismatch dim (r ∷ rs) = elim (Bool-cases (length r.embedding == dim)) [
    | inr bad ↦ inr (length r.embedding, rw (bad, first_mismatch), rw bad refl)
    | inl good ↦ elim (fits_iff_no_mismatch dim rs) [
      | inl (e, f) ↦ inl (rw (good, first_mismatch) e, rw (good, f) refl)
      | inr (n, e, f) ↦ inr (n, rw (good, first_mismatch) e, rw (good, f) refl)
    ]
  ]

  pub view-ext :
      (v w : View F)
      → ((name : String) → v.dims name ≡ w.dims name)
      → ((name : String) (id : ℕ) → v.records name id ≡ w.records name id)
      → v ≡ w
  view-ext v w d r = λ i. record { dims = λ name. d name i; records = λ name id. r name id i }

  not_accepted :
      (v : View F) (name : String) (rs : List (VectorRecord F))
      → accepts v name rs ≡ false
      → v ≡ meant v (upsert name rs)
  not_accepted v name rs e = view-ext v _ (λ other. refl) (λ other id. ground arith)

module _ {F : Type 0} ⦃fl : Float F⦄ where
  dims_put :
      (s : Store F) (name other : String) (c : Collection F) (vectors : HashMap ℕ (StoredVector F))
      → HashMap.get s.collections name ≡ some c
      → (view (record {
        collections = HashMap.insert s.collections name (record c { vectors = vectors });
      })).dims
          other
        ≡ (view s).dims other
  dims_put s name other c vectors e = ground (
    arith,
    eq_iff name other,
    get-insert s.collections name other (record c { vectors = vectors }),
  )

  pub view-insert :
      (s : Store F) (name : String) (rs : List (VectorRecord F))
      → view (Store.insert s name rs).0 ≡ meant (view s) (upsert name rs)
  unfolding Store.insert
  view-insert s name rs = elim (Option-cases (HashMap.get s.collections name)) [
    | inl e ↦
        let refused : accepts (view s) name rs ≡ false = rw (e, accepts) refl in
        rw (e, Store.insert) (not_accepted (view s) name rs refused)
    | inr (c, e) ↦ elim (fits_iff_no_mismatch c.dim rs) [
      | inl (f, g) ↦
          let accepted : accepts (view s) name rs ≡ true = rw (e, accepts) g in
          rw (e, f, Store.insert)
            (view-ext _ _ (λ other. dims_put s name other c (insert_each c.vectors rs) e)
              (λ other id.
                insert_ok_at s name other id rs c e
                ∙ taken (name == other) (accepts (view s) name rs) _ _ accepted))
      | inr (n, f, g) ↦
          let refused : accepts (view s) name rs ≡ false = rw (e, accepts) g in
          rw (e, f, Store.insert) (not_accepted (view s) name rs refused)
    ]
  ]
    where
      taken :
          (b accepted : Bool) (x y : Option (VectorRecord F))
          → accepted ≡ true
          → (if b then x else y) ≡ (if b && accepted then x else y)
      taken b accepted x y h = ground arith

  view-delete :
      (s : Store F) (name : String) (ids : List ℕ)
      → IsValid s
      → view (Store.delete s name ids).0 ≡ meant (view s) (delete name ids)
  unfolding Store.delete
  view-delete s name ids v = elim (Option-cases (HashMap.get s.collections name)) [
    | inl e ↦
        rw (e, Store.delete)
          (view-ext _ _ (λ other. refl) (λ other id. ground (arith, eq_iff name other)))
    | inr (c, e) ↦
        rw (e, Store.delete)
          (view-ext _ _ (λ other. dims_put s name other c (remove_each c.vectors ids 0).0 e)
            (λ other id. ground (
              arith,
              eq_iff name other,
              get-insert s.collections name other
                  (record c { vectors = (remove_each c.vectors ids 0).0 }),
              removed c.vectors ids 0 id (get-IsValid s name c v e).distinct,
            )))
  ]

  -- What a command does to what clients can see of a valid store is what it is meant to do.
  pub view-run_command :
      (s : Store F) (c : ShardCommand F) → IsValid s → view (run_command s c).0 ≡ meant (view s) c
  unfolding run_command
  view-run_command s (upsert name rs) v = view-insert s name rs
  view-run_command s (delete name ids) v = view-delete s name ids v

module _ {F L M S : Type 0} ⦃fl : Float F⦄ ⦃ms : Memberships L M S⦄ where
  view-apply_payload :
      (sm : ShardStateMachine F L S) (id : L) (p : EntryPayload F M)
      → IsValid sm.store
      → view (apply_payload sm id p).0.store ≡ meant_payload (view sm.store) p
  unfolding apply_payload
  view-apply_payload sm id blank v = refl
  view-apply_payload sm id (normal c) v = view-run_command sm.store c v
  view-apply_payload sm id (membership m) v = refl

  -- Applying entries to a replica with a valid store does to what clients can see of it, the
  -- dimensions of the collections and the records by id, what the entries are meant to do: a batch
  -- of an insert is taken whole or not at all, the last record with an id stays, and a delete
  -- removes the ids it lists.
  pub view-apply :
      (sm : ShardStateMachine F L S) (es : List (Entry F L M))
      → IsValid sm.store
      → view (apply sm es).0.store ≡ meant_by (view sm.store) es
  unfolding apply apply_entry
  view-apply sm [] v = refl
  view-apply sm (e ∷ es) v =
      view-apply (apply_entry sm e).0 es (apply_payload-IsValid _ e.log_id e.payload v)
      ∙ ap (λ w. meant_by w es)
          (view-apply_payload (record sm { last_applied_log = some e.log_id }) e.log_id e.payload v)
