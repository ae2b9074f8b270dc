-- ===== src/Examples/OfStore.antt =====
-- Runs of the store.

use raftvec.Base.{ℕ, ◌≡◌, refl, arith, [], ◌∷◌, map, ok, string_eq, nat_eq}
use raftvec.HashMap
use raftvec.Core.TopK.{bounded_top_k}
use raftvec.Core.Similarity.{norm_sq}
use raftvec.Node.Store.{Store, Collection, insert, delete, search, snapshot, restore}
use raftvec.Node.Store.Valid.{IsValid}
use raftvec.Node.Store.Replica.{restore-snapshot}
use raftvec.Node.Store.Ranking.{direct, search_lem}
use std.Path.{transport, transport⁻¹}
use raftvec.Node.Store
use raftvec.Node.Store.OneType.{ValidStore, ValidSnapshot, valid_stores-eq-valid_snapshots}
use raftvec.Examples.Fixtures.{nat_float, halves, plum, fruit, fruit_store}

abbrev empty : Store ℕ
empty = record { collections = [] }

pub fruit-IsValid : IsValid fruit_store
unfolding norm_sq HashMap.get
fruit-IsValid = record {
  distinct = (refl, tt);
  each = (
    record {
      shards = omega arith;
      distinct = (refl, (refl, tt));
      entries = ((refl, refl, refl), ((refl, refl, refl), tt));
    },
    tt,
  );
}

restore-snapshot_example : restore empty (snapshot fruit_store) ≡ fruit_store
restore-snapshot_example = restore-snapshot fruit_store empty fruit-IsValid

insert_returns : (insert fruit_store "fruit" (plum ∷ [])).1 ≡ ok 1
unfolding insert
insert_returns = refl

delete_returns : (delete fruit_store "fruit" (2 ∷ 7 ∷ [])).1 ≡ ok 1
unfolding delete
delete_returns = refl

search_lem_example :
    search fruit_store "fruit" (1 ∷ 1 ∷ []) 1
    ≡ ok (bounded_top_k (map (direct (1 ∷ 1 ∷ [])) fruit.vectors) 1)
unfolding HashMap.get
search_lem_example = search_lem fruit_store "fruit" (1 ∷ 1 ∷ []) 1 fruit-IsValid

valid_stores-eq-valid_snapshots_example :
    (path : ValidStore ℕ ≡ ValidSnapshot ℕ) × ((s : ValidStore ℕ)
      → (transport path s).0 ≡ snapshot s.0)
    × ((p : ValidSnapshot ℕ) → (transport⁻¹ path p).0 ≡ restore Store.new p.0)
valid_stores-eq-valid_snapshots_example = valid_stores-eq-valid_snapshots ℕ
