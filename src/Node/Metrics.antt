-- ===== src/Node/Metrics.antt =====
-- crates/raftvec-node/src/metrics.rs: what the background tasks export, as functions of what they
-- observe. The exporter and the timers are left out.
pub mod Coalesced
use raftvec.Base.{
  ℕ, ◌+◌, ◌-◌, Option, none, some, List, [], ◌∷◌, map, Bool, true, false, ◌==◌, nat_eq,
  if◌then◌else◌,
}
use raftvec.Node.Raft.{LogIds}
use raftvec.Node.Store
use raftvec.Node.Store.{Store}

-- `current != last_leader && current.is_some()`
abbrev pub elected : Option ℕ → Option ℕ → Bool
elected last_leader none = false
elected none (some current) = true
elected (some last) (some current) = if last == current then false else true

-- The increments of the counter, over the values of `current_leader` that the task sees.
unfoldable pub leader_elections : Option ℕ → List (Option ℕ) → ℕ
leader_elections last_leader [] = 0
leader_elections last_leader (current ∷ rest) =
    (if elected last_leader current then 1 else 0) + leader_elections current rest

-- One poll: the value of the gauge.
unfoldable pub vector_count : {F : Type 0} → Store F → ℕ
vector_count store = (Store.cluster_status store).1

-- The fields of openraft's metrics that the third task reads.
pub record RaftMetrics (L : Type 0) : Type 0 where
  pub last_log_index : Option ℕ
  pub replication : Option (List (ℕ × Option L))

module _ {L : Type 0} ⦃li : LogIds L⦄ where
  unfoldable pub lag : ℕ → Option L → ℕ
  lag leader_log_index none = leader_log_index - 0
  lag leader_log_index (some l) = leader_log_index - li.index l

  -- What one observation sets: the lag by follower. `saturating_sub` stops at 0.
  unfoldable pub replication_lags : RaftMetrics L → List (ℕ × ℕ)
  unfolding lag
  replication_lags metrics = elim metrics.last_log_index [
    | none ↦ []
    | some leader_log_index ↦ elim metrics.replication [
      | none ↦ []
      | some replication ↦ map (λ f. (f.0, lag leader_log_index f.1)) replication
    ]
  ]
