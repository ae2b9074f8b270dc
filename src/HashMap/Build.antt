-- ===== src/HashMap/Build.antt =====
-- `collect` over the entries of a map.
use mathlib.Core.List.{append_assoc, append-nil}
use raftvec.Base.{◌≡◌, refl, sym, ◌∙◌, Eq, [], ◌∷◌, ◌++◌, none, arith}
use raftvec.HashMap.{HashMap, get, insert, insert_each, collect}
use raftvec.HashMap.Laws.{IsMap, get-append}

module _ {ℓ κ} {K : Type ℓ} ⦃e : Eq K⦄ {V : Type κ} where
  insert_new : (m : HashMap K V) (k : K) (v : V) → get m k ≡ none → insert m k v ≡ m ++ (k, v) ∷ []
  unfolding get insert
  insert_new [] k v h = refl
  insert_new ((i, w) ∷ m) k v h = ground (arith, insert_new m k v)

  absent_before : (m n : HashMap K V) (k : K) (v : V) → IsMap (m ++ (k, v) ∷ n) → get m k ≡ none
  unfolding get
  absent_before [] n k v h = refl
  absent_before ((i, w) ∷ m) n k v h = ground (
    arith,
    absent_before m n k v h.1,
    get-append m ((k, v) ∷ n) k,
    e.beq_iff i k,
    e.beq_iff k k,
    h.0,
  )

  insert_each-append : (m n : HashMap K V) → IsMap (m ++ n) → insert_each m n ≡ m ++ n
  unfolding insert_each
  insert_each-append m [] h = sym (append-nil m)
  insert_each-append m ((k, v) ∷ n) h = rw (insert_new m k v (absent_before m n k v h)) (
      insert_each-append (m ++ (k, v) ∷ []) n (rw (append_assoc m ((k, v) ∷ []) n) h)
      ∙ append_assoc m ((k, v) ∷ []) n)

  pub collect_self : (m : HashMap K V) → IsMap m → collect m ≡ m
  unfolding collect
  collect_self m h = insert_each-append [] m h
