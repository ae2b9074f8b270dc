-- ===== src/Node/Store/Props.antt =====
-- Validity of a store of crates/raftvec-node/src/store.rs is a property: a store is valid in one way.
use mathlib.Core.HLevel.{hedberg}
use raftvec.Base.{
  Eq, ◌==◌, Bool-cases, inl, inr, ◌≡◌, refl, sym, ap, ◌∙◌, [], ◌∷◌, All, arith, nat_eq, string_eq,
  String, List, Ordering,
}
use raftvec.HashMap.{HashMap}
use raftvec.HashMap.Laws.{IsMap}
use native.Mathlib.Bridge.{le_prop}
use raftvec.Order.{IsTotal}
use raftvec.Core.Float.{Float}
use raftvec.Core.Record.{VectorRecord}
use raftvec.Node.Store.{Store, Collection, StoredVector}
use raftvec.Node.Store.Valid.{IsValid, CollectionIsValid, EntryIsValid}

module _ {K V : Type 0} ⦃e : Eq K⦄ (v_set : IsSet V) where
  pub IsMap-prop : (m : HashMap K V) → IsProp (IsMap m)
  IsMap-prop [] = hlevel
  IsMap-prop ((k, v) ∷ m) = hlevel (v_set, IsMap-prop m)

key_discrete : {K : Type 0} ⦃e : Eq K⦄ → Discrete K
key_discrete ⦃e⦄ a b = elim (Bool-cases (a == b)) [
  | inl t ↦ yes ((e.beq_iff a b).0 t)
  | inr f ↦ no (λ p. absurd (ground (arith, f, (e.beq_iff a b).1 p)))
]

pub string_set : IsSet String
string_set = hedberg key_discrete

pub All-prop :
    {A : Type 0} (P : A → Type 0) (l : List A) → ((x : A) → IsProp (P x)) → IsProp (All P l)
All-prop P [] h = hlevel
All-prop P (x ∷ l) h = hlevel (h x, All-prop P l h)

module _ {F : Type 0} ⦃fl : Float F⦄ where
  F_discrete : Discrete F
  F_discrete a b =
      elim (fl.total_cmp a b) as (λ o. fl.total_cmp a b ≡ o → Dec (a ≡ b)) [
        | Ordering.lt ↦ λ e. no (λ p. differ p (λ q. cc))
        | Ordering.eq ↦ λ e. yes (t.eq_of_cmp a b e)
        | Ordering.gt ↦ λ e. no (λ p. differ p (λ q. cc))
      ]
        refl
    where
      t : IsTotal fl.total_cmp
      t = fl.total_cmp-IsTotal

      differ : a ≡ b → (fl.total_cmp a b ≡ Ordering.eq → ⊥) → ⊥
      differ p h = h (ap (λ x. fl.total_cmp a x) (sym p) ∙ t.cmp_refl a)

  pub float_set : IsSet F
  float_set = hedberg F_discrete

  pub vector_record_set : IsSet (VectorRecord F)
  vector_record_set = hlevel (float_set, string_set)

  stored_vector_set : IsSet (StoredVector F)
  stored_vector_set = hlevel (float_set, vector_record_set)

  collection_set : IsSet (Collection F)
  collection_set = hlevel (string_set, float_set, stored_vector_set)

  CollectionIsValid-prop : (c : Collection F) → IsProp (CollectionIsValid c)
  CollectionIsValid-prop c = hlevel (
    le_prop {n = 1} {m = c.shard_count},
    IsMap-prop stored_vector_set c.vectors,
    float_set,
    All-prop (EntryIsValid c.dim) c.vectors (λ x. hlevel float_set),
  )

  pub IsValid-prop : (s : Store F) → IsProp (IsValid s)
  IsValid-prop s = hlevel (
    IsMap-prop collection_set s.collections,
    All-prop (λ e. CollectionIsValid e.1) s.collections (λ x. CollectionIsValid-prop x.1),
  )
