-- ===== src/Examples/Fixtures.antt =====
-- A model of `f32` by natural numbers, a plan that cuts every slice in two, and openraft's and
-- bincode's parameters by concrete functions.
use raftvec.Base.{
  ℕ, ◌+◌, ◌*◌, ◌/◌, sym, compare, arith, List, [], ◌∷◌, String, ok, nat_beq, take, drop,
  take-append-drop,
}
use raftvec.Order.{IsTotal}
use raftvec.Core.Float.{Float}
use raftvec.Core.Record.{VectorRecord, ScoredId}
use raftvec.Core.Search.{Rayon, identity, fold, reduce}
use raftvec.Node.Raft.{LogIds, Memberships, Bincode}
use raftvec.Node.Store.{Store, StoreSnapshot, Collection}

pub compare-IsTotal : IsTotal compare
compare-IsTotal = record {
  eq_of_cmp = λ a b. ground arith;
  cmp_refl = λ a. ground arith;
  lt_of_gt = λ a b. ground arith;
  gt_of_lt = λ a b. ground arith;
  lt_trans = λ a b c. ground arith;
}

instance abbrev pub nat_float : Float ℕ
nat_float = record {
  zero = 0;
  add = λ a b. a + b;
  mul = λ a b. a * b;
  div = λ a b. a / b;
  sqrt = λ a. a;
  eq = nat_beq;
  total_cmp = compare;
  total_cmp-IsTotal = compare-IsTotal;
}

instance abbrev pub halves : {A : Type 0} → Rayon A
halves = record {
  par_iter = λ l. reduce (fold (take 1 l)) (reduce identity (fold (drop 1 l)));
  items-par_iter = λ l. take-append-drop 1 l;
}

instance abbrev pub nat_log_ids : LogIds ℕ
nat_log_ids = record { index = λ l. l; debug = λ o. "id" }

instance abbrev pub latest_membership : Memberships ℕ (List ℕ) (List ℕ)
latest_membership = record { stored_membership = λ o m. m }

instance abbrev pub as_is : Bincode (StoreSnapshot ℕ) (StoreSnapshot ℕ) String
as_is = record { serialize = λ a. ok a; deserialize = λ b. ok b; round_trip = λ a b e. sym e }

abbrev pub ids : List (ScoredId ℕ)
ids =
    record { id = 1; score = 5 } ∷ record { id = 2; score = 9 } ∷ record { id = 3; score = 5 } ∷ []

abbrev pub more_ids : List (ScoredId ℕ)
more_ids = record { id = 4; score = 7 } ∷ record { id = 5; score = 1 } ∷ []

abbrev pub apple : VectorRecord ℕ
apple = record { id = 1; embedding = 1 ∷ 2 ∷ []; metadata = ("name", "apple") ∷ [] }

abbrev pub pear : VectorRecord ℕ
pear = record { id = 2; embedding = 3 ∷ 0 ∷ []; metadata = [] }

abbrev pub plum : VectorRecord ℕ
plum = record { id = 1; embedding = 2 ∷ 2 ∷ []; metadata = [] }

-- The collection "fruit" of dimension 2, with the records 1 and 2.
abbrev pub fruit : Collection ℕ
fruit = record {
  dim = 2;
  shard_count = 1;
  vectors = (1, record { rec = apple; norm_sq = 5 }) ∷ (2, record { rec = pear; norm_sq = 9 }) ∷ [];
}

abbrev pub fruit_store : Store ℕ
fruit_store = record { collections = ("fruit", fruit) ∷ [] }
