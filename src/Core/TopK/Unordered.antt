-- ===== src/Core/TopK/Unordered.antt =====
-- The rankings of crates/raftvec-core/src/topk.rs over items without an order: the shards hold bags of
-- items, as quotients of lists.
use mathlib.Core.HLevel.{Discrete, hedberg, Π_set}
use mathlib.Core.List.{Perm, flatten, is_set}
use mathlib.Core.List.Perm
use mathlib.Core.Logic.{∥∥₁_elim}
use mathlib.Core.Path.{fun_ext}
use mathlib.Core.Quot
use mathlib.Core.Quot.{Quot, Quot-set}
use raftvec.Base.{ℕ, ◌≡◌, refl, sym, subst, ap, ◌∙◌, List, [], ◌∷◌, ◌++◌, map, Ordering}
use raftvec.Core.Float.{Float}
use raftvec.Core.Record.{ScoredId, cmp, cmp-IsTotal}
use raftvec.Core.TopK.{bounded_top_k, merge_top_k}
use raftvec.Core.TopK.Exact.{bounded_top_k-eq_of_perm, merge_top_k-exact}

-- Items as a shard holds them: in no order, each as often as it is there.
abbrev pub Bag : Type 0 → Type 0
Bag F = Quot (Perm {A = ScoredId F})

module _ {F : Type 0} ⦃fl : Float F⦄ where
  ScoredId-discrete : Discrete (ScoredId F)
  ScoredId-discrete a b = decide (cmp a b) refl
    where
      decide : (o : Ordering) → cmp a b ≡ o → Dec (a ≡ b)
      decide Ordering.eq e = yes (cmp-IsTotal.eq_of_cmp a b e)
      decide Ordering.lt e = no λ p. differ (sym (cmp-IsTotal.cmp_refl a) ∙ ap (cmp a) p ∙ e)
        where
          differ : ¬ (Ordering.eq ≡ Ordering.lt)
          differ q = cc
      decide Ordering.gt e = no λ p. differ (sym (cmp-IsTotal.cmp_refl a) ∙ ap (cmp a) p ∙ e)
        where
          differ : ¬ (Ordering.eq ≡ Ordering.gt)
          differ q = cc

  List-set : IsSet (List (ScoredId F))
  List-set = is_set (hedberg ScoredId-discrete)

  -- The ranking of a bag.
  pub ranking : ℕ → Bag F → List (ScoredId F)
  ranking k = Quot.lift List-set (λ l. bounded_top_k l k) (bounded_top_k-eq_of_perm k)

  pour : List (ScoredId F) → Bag F → Bag F
  pour xs =
      Quot.lift Quot-set (λ ys. Quot.mk (xs ++ ys)) (λ ys zs p. Quot.sound (Perm.append_left xs p))

  union : Bag F → Bag F → Bag F
  unfolding pour
  union = Quot.lift (Π_set (λ b. Quot-set)) pour (λ xs ys p.
      fun_ext (Quot.ind (λ b. Quot-set _ _) (λ zs. Quot.sound (Perm.append_right zs p))))

  -- The items of all the shards.
  unfoldable pub union_all : List (Bag F) → Bag F
  unfolding union
  union_all [] = Quot.mk []
  union_all (b ∷ bs) = union b (union_all bs)

  union_all-mk :
      (ls : List (List (ScoredId F))) → union_all (map (λ l. Quot.mk l) ls) ≡ Quot.mk (flatten ls)
  unfolding union_all union pour flatten
  union_all-mk [] = refl
  union_all-mk (l ∷ ls) = ap (union (Quot.mk l)) (union_all-mk ls)

  rankings-mk :
      (k : ℕ) (ls : List (List (ScoredId F)))
      → map (ranking k) (map (λ l. Quot.mk l) ls) ≡ map (λ l. bounded_top_k l k) ls
  unfolding ranking
  rankings-mk k [] = refl
  rankings-mk k (l ∷ ls) = ap (◌∷◌ (bounded_top_k l k)) (rankings-mk k ls)

  merge_of_lists :
      (k : ℕ) (ls : List (List (ScoredId F)))
      → merge_top_k (map (ranking k) (map (λ l. Quot.mk l) ls)) k
        ≡ ranking k (union_all (map (λ l. Quot.mk l) ls))
  unfolding ranking
  merge_of_lists k ls =
      ap (λ rs. merge_top_k rs k) (rankings-mk k ls)
      ∙ merge_top_k-exact ls k
      ∙ ap (ranking k) (sym (union_all-mk ls))

  -- Each bag is that of some list.
  represented :
      (bs : List (Bag F)) → ∥ ((ls : List (List (ScoredId F))) × (map (λ l. Quot.mk l) ls ≡ bs)) ∥₁
  represented [] = ∣ ([], refl) ∣₁
  represented (b ∷ bs) = ∥∥₁_elim (represented bs) (hlevel) (λ r.
      Quot.ind
        {β = λ b. ∥ ((ls : List (List (ScoredId F))) × (map (λ l. Quot.mk l) ls ≡ b ∷ bs)) ∥₁}
        (λ b. hlevel) (λ l. ∣ (l ∷ r.0, ap (◌∷◌ (Quot.mk l)) r.1) ∣₁) b)

  -- Shards that hold their items in no order: the ranking of a bag of items is well defined, and
  -- `merge_top_k` of the rankings of any number of bags is the ranking of all their items together.
  pub merge_top_k_unordered :
      (k : ℕ) (shards : List (Bag F))
      → merge_top_k (map (ranking k) shards) k ≡ ranking k (union_all shards)
  merge_top_k_unordered k shards = ∥∥₁_elim (represented shards) (List-set _ _) (λ r.
      subst (λ bs. merge_top_k (map (ranking k) bs) k ≡ ranking k (union_all bs)) r.1
        (merge_of_lists k r.0))
