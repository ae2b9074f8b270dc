-- ===== src/Node/Store/Valid.antt =====
-- The invariant of the store, and each method that writes.
use raftvec.Base.{
  if◌then◌else◌, ◌+◌, ℕ, ◌≤◌, ◌≡◌, refl, none, some, List, [], ◌∷◌, String, length, All,
  Option-cases, inl, inr, nat_eq, string_eq, Bool-cases, arith,
}
use raftvec.HashMap
use raftvec.HashMap.{HashMap}
use raftvec.HashMap.Laws.{IsMap, insert-IsMap, remove-IsMap, All-insert, All-remove, All-get}
use raftvec.Core.Float.{Float}
use raftvec.Core.Record.{VectorRecord}
use raftvec.Core.Similarity.{norm_sq}
use raftvec.Node.Store.{
  Store, Collection, StoredVector, new, create_collection, first_mismatch, insert_each, insert,
  stored, remove_each, delete,
}

module _ {F : Type 0} ⦃fl : Float F⦄ where
  -- An entry stands under its own id, has the collection's dimension, and its cached norm is the
  -- norm of its embedding.
  abbrev pub EntryIsValid : ℕ → ℕ × StoredVector F → Type 0
  EntryIsValid dim (id, s) =
      (s.rec.id ≡ id) × (length s.rec.embedding ≡ dim) × (s.norm_sq ≡ norm_sq s.rec.embedding)

  pub record CollectionIsValid (c : Collection F) : Type 0 where
    pub shards : 1 ≤ c.shard_count
    pub distinct : IsMap c.vectors
    pub entries : All (EntryIsValid c.dim) c.vectors

  pub record IsValid (s : Store F) : Type 0 where
    pub distinct : IsMap s.collections
    pub each : All (λ e. CollectionIsValid e.1) s.collections

  pub new-IsValid : IsValid new
  new-IsValid = record { distinct = tt; each = tt }

  -- `create_collection` keeps a valid store valid, whatever its arguments.
  pub create_collection-IsValid :
      (s : Store F) (name : String) (dim shard_count : ℕ)
      → IsValid s
      → IsValid (create_collection s name dim shard_count).0
  unfolding create_collection
  create_collection-IsValid s name dim shard_count v =
      elim (Bool-cases (HashMap.contains_key s.collections name)) [
        | inl e ↦ rw (e, create_collection) v
        | inr e ↦
            rw (e, create_collection)
              (record {
                distinct = insert-IsMap s.collections name _ v.distinct;
                each =
                    All-insert _ s.collections name _
                      (record { shards = omega arith; distinct = tt; entries = tt }) v.each;
              })
      ]

  -- One collection is replaced by a valid one.
  pub put-IsValid :
      (s : Store F) (name : String) (c : Collection F)
      → IsValid s
      → CollectionIsValid c
      → IsValid (record { collections = HashMap.insert s.collections name c })
  put-IsValid s name c v h = record {
    distinct = insert-IsMap s.collections name c v.distinct;
    each = All-insert _ s.collections name c h v.each;
  }

  pub get-IsValid :
      (s : Store F) (name : String) (c : Collection F)
      → IsValid s
      → HashMap.get s.collections name ≡ some c
      → CollectionIsValid c
  get-IsValid s name c v e = All-get (λ x. CollectionIsValid x.1) s.collections name c v.each e

  pub fits_of_first_mismatch :
      (dim : ℕ) (rs : List (VectorRecord F))
      → first_mismatch dim rs ≡ none
      → All (λ r. length r.embedding ≡ dim) rs
  unfolding first_mismatch
  fits_of_first_mismatch dim [] e = tt
  fits_of_first_mismatch dim (r ∷ rs) e = ground (arith, fits_of_first_mismatch dim rs)

  insert_each-distinct :
      (m : HashMap ℕ (StoredVector F)) (rs : List (VectorRecord F))
      → IsMap m
      → IsMap (insert_each m rs)
  unfolding insert_each
  insert_each-distinct m [] h = h
  insert_each-distinct m (r ∷ rs) h =
      insert_each-distinct (HashMap.insert m r.id (stored r)) rs (insert-IsMap m r.id (stored r) h)

  insert_each-entries :
      (dim : ℕ) (m : HashMap ℕ (StoredVector F)) (rs : List (VectorRecord F))
      → All (λ r. length r.embedding ≡ dim) rs
      → All (EntryIsValid dim) m
      → All (EntryIsValid dim) (insert_each m rs)
  unfolding insert_each stored
  insert_each-entries dim m [] f h = h
  insert_each-entries dim m (r ∷ rs) f h =
      insert_each-entries dim (HashMap.insert m r.id (stored r)) rs f.1
        (All-insert (EntryIsValid dim) m r.id (stored r) (refl, f.0, refl) h)

  insert-IsValid_at :
      (s : Store F) (name : String) (rs : List (VectorRecord F)) (c : Collection F)
      → IsValid s
      → HashMap.get s.collections name ≡ some c
      → first_mismatch c.dim rs ≡ none
      → IsValid (record {
        collections =
            HashMap.insert s.collections name (record c { vectors = insert_each c.vectors rs });
      })
  insert-IsValid_at s name rs c v e f =
      let cv = get-IsValid s name c v e in
      put-IsValid s name _ v (record {
        shards = cv.shards;
        distinct = insert_each-distinct c.vectors rs cv.distinct;
        entries =
            insert_each-entries c.dim c.vectors rs (fits_of_first_mismatch c.dim rs f) cv.entries;
      })

  -- `insert` keeps a valid store valid, whether it succeeds or not: each key once, and each entry
  -- under its own id, of the dimension of its collection, with the norm of its embedding.
  pub insert-IsValid :
      (s : Store F) (name : String) (records : List (VectorRecord F))
      → IsValid s
      → IsValid (insert s name records).0
  unfolding insert
  insert-IsValid s name rs v = elim (Option-cases (HashMap.get s.collections name)) [
    | inl e ↦ rw (e, insert) v
    | inr (c, e) ↦ elim (Option-cases (first_mismatch c.dim rs)) [
      | inl f ↦ rw (e, insert, f) (insert-IsValid_at s name rs c v e f)
      | inr (n, f) ↦ rw (e, insert, f) v
    ]
  ]

  remove_each-distinct :
      (m : HashMap ℕ (StoredVector F)) (ids : List ℕ) (n : ℕ)
      → IsMap m
      → IsMap (remove_each m ids n).0
  unfolding remove_each
  remove_each-distinct m [] n h = h
  remove_each-distinct m (id ∷ ids) n h =
      remove_each-distinct (HashMap.remove m id) ids
        (if HashMap.contains_key m id then n + 1 else n) (remove-IsMap m id h)

  remove_each-entries :
      (dim : ℕ) (m : HashMap ℕ (StoredVector F)) (ids : List ℕ) (n : ℕ)
      → All (EntryIsValid dim) m
      → All (EntryIsValid dim) (remove_each m ids n).0
  unfolding remove_each
  remove_each-entries dim m [] n h = h
  remove_each-entries dim m (id ∷ ids) n h =
      remove_each-entries dim (HashMap.remove m id) ids
        (if HashMap.contains_key m id then n + 1 else n) (All-remove (EntryIsValid dim) m id h)

  -- `delete` keeps a valid store valid, whether it succeeds or not.
  pub delete-IsValid :
      (s : Store F) (name : String) (ids : List ℕ) → IsValid s → IsValid (delete s name ids).0
  unfolding delete
  delete-IsValid s name ids v = elim (Option-cases (HashMap.get s.collections name)) [
    | inl e ↦ rw (e, delete) v
    | inr (c, e) ↦
        let cv = get-IsValid s name c v e in
        rw (e, delete)
          (put-IsValid s name _ v (record {
            shards = cv.shards;
            distinct = remove_each-distinct c.vectors ids 0 cv.distinct;
            entries = remove_each-entries c.dim c.vectors ids 0 cv.entries;
          }))
  ]
