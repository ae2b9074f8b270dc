-- ===== src/Node/Store/Contents.antt =====
-- `Store::insert` and `Store::delete`: the records that a client can see.
use raftvec.Base.{
  ℕ, ◌+◌, ◌≡◌, refl, sym, ap, ◌∙◌, Option, none, some, List, [], ◌∷◌, String, ok, err, length, All,
  Option-cases, Result-cases, inl, inr, ◌==◌, ◌||◌, ◌&&◌, Bool, nat_eq, string_eq, if◌then◌else◌,
  arith, false,
}
use text.Mathlib.TextEquality.{eq_iff}
use raftvec.HashMap
use raftvec.HashMap.{HashMap}
use raftvec.HashMap.Laws.{IsMap, get-insert, get-remove, remove-IsMap, length-remove}
use raftvec.Core.Float.{Float}
use raftvec.Core.Record.{VectorRecord}
use raftvec.Node.Store.{
  Store, Collection, StoredVector, StoreError, first_mismatch, insert_each, insert, stored,
  remove_each, delete,
}
use raftvec.Node.Store.Valid.{IsValid, get-IsValid, fits_of_first_mismatch}

module _ {F : Type 0} where
  -- The record that a collection holds under an id.
  abbrev pub record_at : HashMap ℕ (StoredVector F) → ℕ → Option (VectorRecord F)
  record_at m id = elim (HashMap.get m id) [ none ↦ none | some v ↦ some v.rec ]

  abbrev pub contents : Store F → String → ℕ → Option (VectorRecord F)
  contents s name id = elim (HashMap.get s.collections name) [
    | none ↦ none
    | some c ↦ record_at c.vectors id
  ]

  -- The last record of a batch with an id.
  abbrev pub last_with : ℕ → List (VectorRecord F) → Option (VectorRecord F)
  last_with id [] = none
  last_with id (r ∷ rs) = elim (last_with id rs) [
    | some q ↦ some q
    | none ↦ if r.id == id then some r else none
  ]

  abbrev pub or_else : Option (VectorRecord F) → Option (VectorRecord F) → Option (VectorRecord F)
  or_else (some r) o = some r
  or_else none o = o

abbrev pub listed : ℕ → List ℕ → Bool
listed id [] = false
listed id (j ∷ ids) = j == id || listed id ids

module _ {F : Type 0} ⦃fl : Float F⦄ where
  get-insert_each :
      (m : HashMap ℕ (StoredVector F)) (rs : List (VectorRecord F)) (id : ℕ)
      → record_at (insert_each m rs) id ≡ or_else (last_with id rs) (record_at m id)
  unfolding insert_each stored
  get-insert_each m [] id = refl
  get-insert_each m (r ∷ rs) id = ground (
    arith,
    get-insert_each (HashMap.insert m r.id (stored r)) rs id,
    get-insert m r.id id (stored r),
  )

  pub insert_ok_at :
      (s : Store F) (name other : String) (id : ℕ) (rs : List (VectorRecord F)) (c : Collection F)
      → HashMap.get s.collections name ≡ some c
      → contents
          (record {
            collections =
                HashMap.insert s.collections name (record c { vectors = insert_each c.vectors rs });
          })
          other
          id
        ≡ (if name == other
            then or_else (last_with id rs) (contents s other id)
            else contents s other id)
  insert_ok_at s name other id rs c e = ground (
    arith,
    eq_iff name other,
    get-insert s.collections name other (record c { vectors = insert_each c.vectors rs }),
    get-insert_each c.vectors rs id,
  )

  -- A successful `insert` names an existing collection, only has records of its dimension, and
  -- reports the length of the batch. From then on each id of the batch shows the last record of the
  -- batch with that id, and every other id and every other collection shows what it did.
  pub insert_ok :
      (s : Store F) (name other : String) (records : List (VectorRecord F)) (n id : ℕ)
      → (insert s name records).1 ≡ ok n
      → (c : Collection F) × (HashMap.get s.collections name ≡ some c)
        × All (λ r. length r.embedding ≡ c.dim) records
        × (n ≡ length records)
        × (contents (insert s name records).0 other id ≡ (
            if name == other
            then or_else (last_with id records) (contents s other id)
            else contents s other id))
  unfolding insert
  insert_ok s name other rs n id h = elim (Option-cases (HashMap.get s.collections name)) [
    | inl e ↦ absurd (ground arith)
    | inr (c, e) ↦ elim (Option-cases (first_mismatch c.dim rs)) [
      | inl f ↦ (
        c,
        e,
        fits_of_first_mismatch c.dim rs f,
        ground arith,
        rw (e, insert, f) (insert_ok_at s name other id rs c e),
      )
      | inr (m, f) ↦ absurd (ground arith)
    ]
  ]

  -- A failed `insert` changes nothing.
  pub insert_err :
      (s : Store F) (name : String) (records : List (VectorRecord F)) (e : StoreError)
      → (insert s name records).1 ≡ err e
      → (insert s name records).0 ≡ s
  unfolding insert
  insert_err s name rs e h = ground arith

  twice :
      (name other : String) (o p : Option (VectorRecord F))
      → (if name == other
          then or_else o (if name == other then or_else o p else p)
          else (if name == other then or_else o p else p))
        ≡ (if name == other then or_else o p else p)
  twice name other o p = ground arith

  -- Inserting a batch again changes nothing that a client can see.
  pub insert_again :
      (s : Store F) (name other : String) (records : List (VectorRecord F)) (id : ℕ)
      → contents (insert (insert s name records).0 name records).0 other id
        ≡ contents (insert s name records).0 other id
  insert_again s name other rs id = elim (Result-cases (insert s name rs).1) [
    | inr (e, h) ↦
        ap (λ (t : Store F). contents (insert t name rs).0 other id) (insert_err s name rs e h)
    | inl (n, h) ↦ elim (Result-cases (insert (insert s name rs).0 name rs).1) [
      | inr (e, k) ↦
          ap (λ (t : Store F). contents t other id) (insert_err (insert s name rs).0 name rs e k)
      | inl (m, k) ↦
          let first = insert_ok s name other rs n id h in
          let second = insert_ok (insert s name rs).0 name other rs m id k in
          second.4
          ∙ (λ i. if name == other then or_else (last_with id rs) (first.4 i) else first.4 i)
          ∙ twice name other (last_with id rs) (contents s other id)
          ∙ sym first.4
    ]
  ]

  pub removed :
      (m : HashMap ℕ (StoredVector F)) (ids : List ℕ) (n id : ℕ)
      → IsMap m
      → record_at (remove_each m ids n).0 id ≡ (if listed id ids then none else record_at m id)
  unfolding remove_each
  removed m [] n id h = refl
  removed m (j ∷ ids) n id h = ground (
    arith,
    removed (HashMap.remove m j) ids (if HashMap.contains_key m j then n + 1 else n) id
        (remove-IsMap m j h),
    get-remove m j id h,
  )

  counted :
      (m : HashMap ℕ (StoredVector F)) (ids : List ℕ) (n : ℕ)
      → length (remove_each m ids n).0 + (remove_each m ids n).1 ≡ length m + n
  unfolding remove_each HashMap.contains_key
  counted m [] n = refl
  counted m (j ∷ ids) n = ground (
    arith,
    counted (HashMap.remove m j) ids (if HashMap.contains_key m j then n + 1 else n),
    length-remove m j,
  )

  -- On a valid store, a successful `delete` reports by how many records the collection has shrunk.
  -- From then on no listed id is there, and every other id and every other collection shows what it
  -- did.
  pub delete_ok :
      (s : Store F) (name other : String) (ids : List ℕ) (n id : ℕ)
      → IsValid s
      → (delete s name ids).1 ≡ ok n
      → (c d : Collection F) × (HashMap.get s.collections name ≡ some c)
        × (HashMap.get (delete s name ids).0.collections name ≡ some d)
        × (length d.vectors + n ≡ length c.vectors)
        × (contents (delete s name ids).0 other id
            ≡ (if (name == other) && listed id ids then none else contents s other id))
  unfolding delete
  delete_ok s name other ids n id v h = elim (Option-cases (HashMap.get s.collections name)) [
    | inl e ↦ absurd (ground arith)
    | inr (c, e) ↦
        let d : Collection F = record c { vectors = (remove_each c.vectors ids 0).0 } in
        let valid = get-IsValid s name c v e in
        (
          c,
          d,
          e,
          ground (arith, get-insert s.collections name name d, eq_iff name name),
          ground (arith, counted c.vectors ids 0),
          ground (
            arith,
            eq_iff name other,
            get-insert s.collections name other d,
            removed c.vectors ids 0 id valid.distinct,
          ),
        )
  ]
