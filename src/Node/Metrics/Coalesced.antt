-- ===== src/Node/Metrics/Coalesced.antt =====
-- The leader watcher of crates/raftvec-node/src/metrics.rs behind its watch channel, which keeps
-- the latest value only: a task that is late misses values.
use raftvec.Base.{
  ℕ, ◌+◌, ◌≤◌, ◌≡◌, refl, arith, Option, none, some, List, [], ◌∷◌, nat_eq, if◌then◌else◌,
}
use raftvec.Node.Metrics.{elected, leader_elections}

-- What a task observes of the values that are published.
pub data Seen {A : Type 0} : List A → List A → Type 0 where
  end : Seen [] []
  seen :
      {observed published : List A} (a : A)
      → Seen observed published
      → Seen (a ∷ observed) (a ∷ published)
  missed :
      {observed published : List A} (a : A)
      → Seen observed published
      → Seen observed (a ∷ published)

-- What one value adds to the counter.
abbrev step : Option ℕ → Option ℕ → ℕ
step last_leader current = if elected last_leader current then 1 else 0

step_same : (a : Option ℕ) → step a a ≡ 0
step_same none = refl
step_same (some a) = ground arith

-- A change that is missed is part of the next one that is seen.
step_triangle : (o p a : Option ℕ) → step o a ≤ step p a + step o p
step_triangle o p none = omega arith
step_triangle none none (some a) = omega arith
step_triangle (some o) none (some a) = ground arith
step_triangle none (some p) (some a) = ground arith
step_triangle (some o) (some p) (some a) = ground arith

elections_behind :
    {observed published : List (Option ℕ)} (o p : Option ℕ)
    → Seen observed published
    → leader_elections o observed ≤ leader_elections p published + step o p
unfolding leader_elections
elections_behind o p end = omega arith
elections_behind o p (seen a s) =
    omega (arith, elections_behind a a s, step_triangle o p a, step_same a)
elections_behind o p (missed a s) = omega (arith, elections_behind o a s, step_triangle o p a)

-- The leader watcher behind a channel that drops values, from a leader that both have started with:
-- it counts no more elections than it would have counted if it had seen every value.
pub leader_elections-Seen :
    {observed published : List (Option ℕ)} (last_leader : Option ℕ)
    → Seen observed published
    → leader_elections last_leader observed ≤ leader_elections last_leader published
leader_elections-Seen last_leader s =
    omega (arith, elections_behind last_leader last_leader s, step_same last_leader)
