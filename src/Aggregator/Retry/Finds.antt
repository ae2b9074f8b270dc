-- ===== src/Aggregator/Retry/Finds.antt =====
-- `call_with_retry`: the way to the replica that answers.
use raftvec.Base.{
  ℕ, zero, suc, ◌+◌, ◌-◌, ◌%◌, ◌<◌, ◌≤◌, ◌≡◌, Option, none, some, List, String, ok, length,
  get_elem?, ◌⊎◌, ◌==◌, string_eq, nat_eq, inl, inr, arith, false, sym, ◌∙◌,
}
use native.Mathlib.Nat.{mod-eq_of_lt, mod_self, mod-lt}
use raftvec.Aggregator.Retry.{
  RouterError, CarriesLeaderHint, Attempt, response, attempts, call_with_rounds,
}
use raftvec.Aggregator.Retry.Bounds.{get_elem?-lt, next_of, attempts_cases}

le_cases : (a b : ℕ) → (a < b) ⊎ (b ≤ a)
le_cases a b = ground arith

next_cases :
    (i n : ℕ) → i < n → ((i + 1 < n) × ((i + 1) % n ≡ i + 1)) ⊎ ((i + 1 ≡ n) × ((i + 1) % n ≡ 0))
next_cases i n h = elim (le_cases (i + 1) n) [
  | inl l ↦ inl (l, mod-eq_of_lt l)
  | inr e ↦ inr (omega (arith, e, h), rw (the_same e) (mod_self n))
]
  where
    the_same : n ≤ i + 1 → i + 1 ≡ n
    the_same e = omega (arith, e, h)

-- One step from `idx` towards `live`, round the `n` replicas.
next_nearer :
    (n live idx next d : ℕ)
    → idx < n
    → live < n
    → (idx + suc d ≡ live) ⊎ (idx + suc d ≡ live + n)
    → suc d < n
    → (next ≡ live) ⊎ (next ≡ (idx + 1) % n)
    → (d' : ℕ) × (next < n) × ((next + d' ≡ live) ⊎ (next + d' ≡ live + n)) × (d' ≤ d)
next_nearer n live idx next d i l at small (inl e) =
    (0, omega arith, inl (omega arith), omega arith)
next_nearer n live idx next d i l at small (inr e) = elim (next_cases idx n i) [
  | inl (h, m) ↦ (d, omega arith, onward at (e ∙ m), omega arith)
  | inr (h, m) ↦ (d, omega arith, around at h (e ∙ m), omega arith)
]
  where
    onward :
        (idx + suc d ≡ live) ⊎ (idx + suc d ≡ live + n)
        → next ≡ idx + 1
        → (next + d ≡ live) ⊎ (next + d ≡ live + n)
    onward (inl a) m = inl (omega arith)
    onward (inr a) m = inr (omega arith)

    around :
        (idx + suc d ≡ live) ⊎ (idx + suc d ≡ live + n)
        → idx + 1 ≡ n
        → next ≡ 0
        → (next + d ≡ live) ⊎ (next + d ≡ live + n)
    around (inl a) h m = absurd (omega arith)
    around (inr a) h m = inl (omega arith)

distance :
    (n live idx : ℕ)
    → idx < n
    → live < n
    → (d : ℕ) × ((idx + d ≡ live) ⊎ (idx + d ≡ live + n)) × (d < n)
distance n live idx i l = elim (le_cases live idx) [
  | inl h ↦ (live + n - idx, inr (omega arith), omega arith)
  | inr h ↦ (live - idx, inl (omega arith), omega arith)
]

module _ {C R : Type 0} ⦃ch : CarriesLeaderHint R⦄ (addrs : List String) (clients : List C)
    (make_request : ℕ → C → Attempt R) where
  -- The replica at `live` answers with a response that carries no hint; the others fail, hang, or
  -- name a leader: the address of `live`, or one that is not in the list.
  pub record Reaches (live : ℕ) : Type 0 where
    pub same : length addrs ≡ length clients
    pub live-lt : live < length clients
    pub answers :
        (round : ℕ) (c : C)
        → get_elem? clients live ≡ some c
        → (r : R) × (make_request round c ≡ response r) × (ch.leader_hint r ≡ "")
    pub steers :
        (round idx : ℕ) (c : C)
        → ¬ (idx ≡ live)
        → get_elem? clients idx ≡ some c
        → (next_of addrs (length clients) (make_request round c) idx ≡ live)
          ⊎ (next_of addrs (length clients) (make_request round c) idx ≡ (idx + 1) % length clients)

  module _ {E : Type 0} (live : ℕ) (v : Reaches live) where
    -- `d` steps of `+ 1` lead from `idx` to `live`.
    pub attempts-reach :
        (rounds attempt idx hint d : ℕ) (last_err : Option (RouterError E))
        → idx < length clients
        → (idx + d ≡ live) ⊎ (idx + d ≡ live + length clients)
        → d < length clients
        → d < rounds
        → (hint' : ℕ) × (r : R) × (attempts addrs clients make_request rounds attempt idx hint
              last_err
            ≡ some (hint', ok r))
          × (ch.leader_hint r ≡ "")
    unfolding attempts
    attempts-reach zero attempt idx hint d last_err i at small h = absurd (omega arith)
    attempts-reach (suc rounds) attempt idx hint zero last_err i at small h =
        let (c, found) = get_elem?-lt clients idx i in
        let arrived = here idx i at in
        let (r, e, final) = v.answers attempt c (rw (sym arrived) found) in
        (idx, r, rw (found, e, final, attempts), final)
      where
        here :
            (idx : ℕ)
            → idx < length clients
            → (idx + 0 ≡ live) ⊎ (idx + 0 ≡ live + length clients)
            → idx ≡ live
        here idx i (inl e) = omega arith
        here idx i (inr e) = omega arith
    attempts-reach (suc rounds) attempt idx hint (suc d) last_err i at small h =
        let (c, found) = get_elem?-lt clients idx i in
        elim (attempts_cases addrs clients make_request rounds attempt idx hint last_err c found) [
          | inl (r, e, final, run) ↦ (idx, r, run, final)
          | inr (next, e, next_at, run) ↦
              let (d', lt, at', le) =
                next_nearer (length clients) live idx next d i v.live-lt at small
                  (rw next_at (v.steers attempt idx c (away at) found)) in
              let (hint', r, reached, final) =
                attempts-reach rounds (suc attempt) next next d' e lt at' (omega arith)
                  (omega arith) in
              (hint', r, run ∙ reached, final)
        ]
      where
        away : (idx + suc d ≡ live) ⊎ (idx + suc d ≡ live + length clients) → ¬ (idx ≡ live)
        away (inl a) same = omega arith
        away (inr a) same = omega arith

  -- With at most `rounds` replicas, of which the one at `live` answers every request with a
  -- response that names no leader, while each other one fails, hangs, names the address of `live`
  -- or names an address that is not in the list: whatever the stored hint is, the call returns such
  -- a response.
  pub retry_finds_live :
      (E : Type 0) (live rounds hint : ℕ)
      → Reaches live
      → length clients ≤ rounds
      → (hint' : ℕ) × (r : R) × (call_with_rounds {E = E} rounds
            record { clients = clients; addrs = addrs; leader_hint = hint }
            make_request
          ≡ some (hint', ok r))
        × (ch.leader_hint r ≡ "")
  unfolding call_with_rounds
  retry_finds_live E live rounds hint v enough =
      let start = hint % length clients in
      let i = mod-lt hint (some_replica (length clients) v.live-lt) in
      let (d, at, small) = distance (length clients) live start i v.live-lt in
      let (hint', r, run, final) =
        attempts-reach {E = E} live v rounds 0 start hint d none i at small (omega arith) in
      (hint', r, rw (not_empty (length clients) v.live-lt) run, final)
    where
      some_replica : (n : ℕ) → live < n → 0 < n
      some_replica n h = omega arith

      not_empty : (n : ℕ) → live < n → (n == 0) ≡ false
      not_empty n h = ground arith
