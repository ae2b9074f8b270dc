-- ===== src/Core/Float.antt =====
-- `f32`: a parameter of the model. `F` stands for the bit patterns, and the operations are those
-- that the program calls. IEEE 754 fixes them; of their values nothing is assumed but that
-- `f32::total_cmp` is, as its documentation says, a total order on the bit patterns.
use raftvec.Base.{Bool, Ordering}
use raftvec.Order.{IsTotal}

pub record Float (F : Type 0) : Type 0 where
  pub zero : F
  pub add : F → F → F
  pub mul : F → F → F
  pub div : F → F → F
  pub sqrt : F → F
  -- `==`
  pub eq : F → F → Bool
  pub total_cmp : F → F → Ordering
  pub total_cmp-IsTotal : IsTotal total_cmp
