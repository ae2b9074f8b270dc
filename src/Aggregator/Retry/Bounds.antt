-- ===== src/Aggregator/Retry/Bounds.antt =====
-- `call_with_retry`: the index, the stored hint, and what a success means.
use raftvec.Base.{
  ℕ, zero, suc, ◌+◌, ◌%◌, ◌<◌, ◌≡◌, refl, Option, none, some, List, [], ◌∷◌, String, Result, ok,
  err, length, get_elem?, ◌⊎◌, ◌==◌, string_eq, nat_eq, Bool-cases, Option-cases, inl, inr, arith,
  false, subst, sym,
}
use text.Mathlib.TextEquality.{eq_iff}
use raftvec.Aggregator.Retry.{
  RouterError, ShardReplicaSet, CarriesLeaderHint, Attempt, response, failed, elapsed, position,
  unwrap_or, attempts, call_with_rounds, rpc, shard_unreachable,
}

module _ {ℓ} {A : Type ℓ} where
  pub get_elem?-lt : (l : List A) (i : ℕ) → i < length l → (a : A) × (get_elem? l i ≡ some a)
  get_elem?-lt [] i h = absurd (omega arith)
  get_elem?-lt (x ∷ l) zero h = (x, refl)
  get_elem?-lt (x ∷ l) (suc i) h = get_elem?-lt l i (omega arith)

pub position-lt :
    (addrs : List String) (hint : String) (i : ℕ) → position addrs hint ≡ some i → i < length addrs
unfolding position
position-lt [] hint i h = absurd (cc)
position-lt (a ∷ addrs) hint i h = elim (Option-cases (position addrs hint)) [
  | inl e ↦ ground arith
  | inr (j, e) ↦ ground (arith, position-lt addrs hint j e)
]

pub next-lt : (i n : ℕ) → 0 < n → (i + 1) % n < n
next-lt i (suc n) h = omega arith
next-lt i zero h = absurd (omega arith)

module _ {C : Type 0} where
  -- As many addresses as clients, and at least one replica: what `connect` builds from a
  -- non-empty list of addresses.
  pub record IsValid (shard : ShardReplicaSet C) : Type 0 where
    pub same : length shard.addrs ≡ length shard.clients
    pub some_replica : 0 < length shard.clients

-- Where the loop goes after an attempt at `idx`.
module _ {R : Type 0} ⦃ch : CarriesLeaderHint R⦄ (addrs : List String) (n : ℕ) where
  abbrev pub next_of : Attempt R → ℕ → ℕ
  next_of (response r) idx = unwrap_or (position addrs (ch.leader_hint r)) ((idx + 1) % n)
  next_of (failed status) idx = (idx + 1) % n
  next_of elapsed idx = (idx + 1) % n

  pub next_of-lt : (a : Attempt R) (idx : ℕ) → length addrs ≡ n → 0 < n → next_of a idx < n
  next_of-lt (failed status) idx same p = next-lt idx n p
  next_of-lt elapsed idx same p = next-lt idx n p
  next_of-lt (response r) idx same p = elim (Option-cases (position addrs (ch.leader_hint r))) [
    | inl e ↦ rw e (next-lt idx n p)
    | inr (j, e) ↦ rw e (omega (arith, position-lt addrs (ch.leader_hint r) j e))
  ]

module _ {C R E : Type 0} ⦃ch : CarriesLeaderHint R⦄ (addrs : List String) (clients : List C)
    (make_request : ℕ → C → Attempt R) where
  -- One round: a final answer, or the rest of the loop from the next index.
  pub attempts_cases :
      (rounds attempt idx hint : ℕ) (last_err : Option (RouterError E)) (c : C)
      → get_elem? clients idx ≡ some c
      → ((r : R) × (make_request attempt c ≡ response r)
          × (ch.leader_hint r ≡ "")
          × (attempts addrs clients make_request (suc rounds) attempt idx hint last_err
              ≡ some (idx, ok r)))
        ⊎ ((next : ℕ) × (e : Option (RouterError E)) × (next
              ≡ next_of addrs (length clients) (make_request attempt c) idx)
            × (attempts addrs clients make_request (suc rounds) attempt idx hint last_err
                ≡ attempts addrs clients make_request rounds (suc attempt) next next e))
  unfolding attempts
  attempts_cases rounds attempt idx hint last_err c found = go (make_request attempt c) refl
    where
      go :
          (a : Attempt R)
          → make_request attempt c ≡ a
          → ((r : R) × (make_request attempt c ≡ response r)
              × (ch.leader_hint r ≡ "")
              × (attempts addrs clients make_request (suc rounds) attempt idx hint last_err
                  ≡ some (idx, ok r)))
            ⊎ ((next : ℕ) × (e : Option (RouterError E)) × (next
                  ≡ next_of addrs (length clients) (make_request attempt c) idx)
                × (attempts addrs clients make_request (suc rounds) attempt idx hint last_err
                    ≡ attempts addrs clients make_request rounds (suc attempt) next next e))
      go (failed status) e =
          inr ((idx + 1) % length clients, some (rpc status), rw e refl, rw (found, e, attempts))
      go elapsed e =
          inr
            ((idx + 1) % length clients, some shard_unreachable, rw e refl, rw (found, e, attempts))
      go (response r) e = elim (Bool-cases (ch.leader_hint r == "")) [
        | inl last ↦
            inl (r, e, (eq_iff (ch.leader_hint r) "").0 last, rw (found, e, last, attempts))
        | inr more ↦ inr (
          unwrap_or (position addrs (ch.leader_hint r)) ((idx + 1) % length clients),
          last_err,
          rw e refl,
          rw (found, e, more, attempts),
        )
      ]

  -- The loop returned: the stored index exists; a response carries no hint and was given by the
  -- replica at the stored index; all else is an error.
  unfoldable pub IsAnswered : Option (ℕ × Result (RouterError E) R) → Type 0
  IsAnswered res =
      (hint : ℕ) × (out : Result (RouterError E) R) × (res ≡ some (hint, out))
      × (hint < length clients)
      × (((r : R) × (round : ℕ) × (c : C) × (out ≡ ok r)
            × (ch.leader_hint r ≡ "")
            × (get_elem? clients hint ≡ some c)
            × (make_request round c ≡ response r))
          ⊎ ((e : RouterError E) × (out ≡ err e)))

  pub attempts-IsAnswered :
      (rounds attempt idx hint : ℕ) (last_err : Option (RouterError E))
      → length addrs ≡ length clients
      → idx < length clients
      → hint < length clients
      → IsAnswered (attempts addrs clients make_request rounds attempt idx hint last_err)
  unfolding attempts IsAnswered
  attempts-IsAnswered zero attempt idx hint last_err same i h = (
    hint,
    err (unwrap_or last_err shard_unreachable),
    refl,
    h,
    inr (unwrap_or last_err shard_unreachable, refl),
  )
  attempts-IsAnswered (suc rounds) attempt idx hint last_err same i h =
      let (c, found) = get_elem?-lt clients idx i in
      elim (attempts_cases rounds attempt idx hint last_err c found) [
        | inl (r, e, final, run) ↦ (idx, ok r, run, i, inl (r, attempt, c, refl, final, found, e))
        | inr (next, e, at, run) ↦
            let next_valid =
              next_of-lt addrs (length clients) (make_request attempt c) idx same (omega arith) in
            subst IsAnswered (sym run) (
              attempts-IsAnswered rounds (suc attempt) next next e same (rw at next_valid)
                (rw at next_valid))
      ]

module _ {C R : Type 0} ⦃ch : CarriesLeaderHint R⦄ (E : Type 0) (shard : ShardReplicaSet C)
    (make_request : ℕ → C → Attempt R) where
  -- For a shard with at least one replica, an address for each, and a stored hint in range, a call
  -- of any number of rounds does not panic, and the hint it stores is in range. Either it answers
  -- with a response that names no other leader, given by the replica that the stored hint now
  -- points at, or it ends with an error.
  pub call_with_rounds-IsAnswered :
      IsValid shard
      → shard.leader_hint < length shard.clients
      → (rounds : ℕ)
      → IsAnswered {E = E} shard.addrs shard.clients make_request
          (call_with_rounds rounds shard make_request)
  unfolding call_with_rounds
  call_with_rounds-IsAnswered v h rounds =
      let tested = not_empty (length shard.clients) v.some_replica in
      rw tested (
        attempts-IsAnswered shard.addrs shard.clients make_request rounds 0
          (shard.leader_hint % length shard.clients) shard.leader_hint none v.same
          (mod-lt shard.leader_hint (length shard.clients) v.some_replica) h)
    where
      not_empty : (n : ℕ) → 0 < n → (n == 0) ≡ false
      not_empty n p = ground arith

      mod-lt : (i n : ℕ) → 0 < n → i % n < n
      mod-lt i (suc n) p = omega arith
      mod-lt i zero p = absurd (omega arith)
