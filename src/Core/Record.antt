-- ===== src/Core/Record.antt =====
-- crates/raftvec-core/src/record.rs
use raftvec.Base.{ℕ, List, String, Ordering, compare, arith}
use raftvec.HashMap.{HashMap}
use raftvec.Order.{Ord, IsTotal, then_with}
use raftvec.Core.Float.{Float}

-- A `u64` is a number; no operation of the program computes with an id.
pub record VectorRecord (F : Type 0) : Type 0 where
  pub id : ℕ
  pub embedding : List F
  pub metadata : HashMap String String

pub record ScoredId (F : Type 0) : Type 0 where
  pub id : ℕ
  pub score : F

module _ {F : Type 0} where
  unfoldable pub new : ℕ → List F → HashMap String String → VectorRecord F
  new id embedding metadata = record { id = id; embedding = embedding; metadata = metadata }

module _ {F : Type 0} ⦃fl : Float F⦄ where
  -- `impl Ord for ScoredId`: the scores first, and on a tie the lower id is the greater.
  unfoldable pub cmp : ScoredId F → ScoredId F → Ordering
  cmp a b = then_with (fl.total_cmp a.score b.score) (compare b.id a.id)

  pub cmp-IsTotal : IsTotal cmp
  unfolding cmp
  cmp-IsTotal =
      let t = fl.total_cmp-IsTotal in
      record {
        eq_of_cmp = λ a b. ground (arith, t.eq_of_cmp a.score b.score);
        cmp_refl = λ a. ground (arith, t.cmp_refl a.score);
        lt_of_gt = λ a b.
            ground
              (arith, t.eq_of_cmp a.score b.score, t.cmp_refl a.score, t.lt_of_gt a.score b.score);
        gt_of_lt = λ a b.
            ground
              (arith, t.eq_of_cmp a.score b.score, t.cmp_refl a.score, t.gt_of_lt a.score b.score);
        lt_trans = λ a b c. ground (
          arith,
          t.eq_of_cmp a.score b.score,
          t.eq_of_cmp b.score c.score,
          t.cmp_refl a.score,
          t.lt_trans a.score b.score c.score,
        );
      }

  instance abbrev pub scored_id_ord : Ord (ScoredId F)
  scored_id_ord = record { cmp = cmp; total = cmp-IsTotal }
