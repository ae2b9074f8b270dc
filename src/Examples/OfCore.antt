-- ===== src/Examples/OfCore.antt =====
-- Runs of raftvec-core.
use raftvec.Base.{◌≡◌, [], ◌∷◌, map}
use raftvec.Order.Top.{IsBestOf}
use raftvec.Core.Record.{scored_id_ord}
use raftvec.Core.TopK.{bounded_top_k, merge_top_k}
use mathlib.Core.Quot.{Quot}
use raftvec.Core.TopK.Unordered.{ranking, union_all, merge_top_k_unordered}
use raftvec.Core.TopK.Exact.{bounded_top_k-IsBestOf}
use raftvec.Examples.Fixtures.{nat_float, halves, ids, more_ids}

merge_top_k_unordered_example :
    merge_top_k (map (ranking 2) (Quot.mk ids ∷ Quot.mk more_ids ∷ [])) 2
    ≡ ranking 2 (union_all (Quot.mk ids ∷ Quot.mk more_ids ∷ []))
merge_top_k_unordered_example = merge_top_k_unordered 2 (Quot.mk ids ∷ Quot.mk more_ids ∷ [])

bounded_top_k-IsBestOf_example : IsBestOf 2 ids (bounded_top_k ids 2)
bounded_top_k-IsBestOf_example = bounded_top_k-IsBestOf ids 2
