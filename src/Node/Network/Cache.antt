-- ===== src/Node/Network/Cache.antt =====
-- The cache of connections, under calls that overlap.
use raftvec.Base.{
  ℕ, ◌≡◌, arith, some, String, Result, ok, Option-cases, Bool-cases, Result-cases, inl, inr, nat_eq,
  ◌==◌,
}
use raftvec.HashMap
use raftvec.HashMap.Laws.{get-insert}
use raftvec.Node.Network.{GrpcNetwork, default, get_or_connect}

module _ {C T : Type 0} (connecting : ℕ → String → Result T C) (addr_of : ℕ → String) where
  -- What a cache can come to hold. A call looks it up at one moment of the history and inserts
  -- at another; `connecting attempt` is what the attempt of that number gives.
  pub data History : GrpcNetwork C → Type 0 where
    empty : History default
    called :
        {at_lookup at_insert : GrpcNetwork C} (attempt target : ℕ)
        → History at_lookup
        → History at_insert
        → History
            (get_or_connect at_lookup at_insert (connecting attempt) target (addr_of target)).0

  -- A client that comes from a connection to the address of the target.
  abbrev pub Serves : ℕ → C → Type 0
  Serves target client = (attempt : ℕ) × (connecting attempt (addr_of target) ≡ ok client)

  insert-Serves :
      (n : GrpcNetwork C) (target other : ℕ) (client found : C)
      → ((c : C) → HashMap.get n.clients other ≡ some c → Serves other c)
      → Serves target client
      → HashMap.get (HashMap.insert n.clients target client) other ≡ some found
      → Serves other found
  insert-Serves n target other client found h s e = elim (Bool-cases (target == other)) [
    | inl same ↦ (s.0, ground (arith, s.1, get-insert n.clients target other client))
    | inr differs ↦ h found (ground (arith, get-insert n.clients target other client))
  ]

  get_or_connect-Serves :
      (at_lookup at_insert : GrpcNetwork C) (attempt target : ℕ) (client : C)
      → ((c : C) → HashMap.get at_lookup.clients target ≡ some c → Serves target c)
      → (get_or_connect at_lookup at_insert (connecting attempt) target (addr_of target)).1
        ≡ ok client
      → Serves target client
  unfolding get_or_connect
  get_or_connect-Serves at_lookup at_insert attempt target client h e =
      elim (Option-cases (HashMap.get at_lookup.clients target)) [
        | inl f ↦ (attempt, ground arith)
        | inr (c, f) ↦ h client (ground arith)
      ]

  History-Serves :
      {n : GrpcNetwork C}
      → History n
      → (target : ℕ) (client : C) → HashMap.get n.clients target ≡ some client
      → Serves target client
  unfolding get_or_connect HashMap.get
  History-Serves empty target client e = absurd (cc)
  History-Serves (called {at_lookup} {at_insert} attempt target before now) other client e =
      elim (Option-cases (HashMap.get at_lookup.clients target)) [
        | inr (c, f) ↦ History-Serves now other client (rw (f, get_or_connect) at e)
        | inl f ↦ elim (Result-cases (connecting attempt (addr_of target))) [
          | inr (t, g) ↦ History-Serves now other client (rw (f, g, get_or_connect) at e)
          | inl (c, g) ↦
              insert-Serves at_insert target other c client (History-Serves now other) (attempt, g)
                (rw (f, g, get_or_connect) at e)
        ]
      ]

  -- With a fixed address for each target, and however the calls of `get_or_connect` overlap: the
  -- client that a call returns for a target comes from a connection to the address of that target.
  pub get_or_connect_serves :
      (at_lookup at_insert : GrpcNetwork C) (attempt target : ℕ) (client : C)
      → History at_lookup
      → (get_or_connect at_lookup at_insert (connecting attempt) target (addr_of target)).1
        ≡ ok client
      → (made : ℕ) × (connecting made (addr_of target) ≡ ok client)
  get_or_connect_serves at_lookup at_insert attempt target client before e =
      get_or_connect-Serves at_lookup at_insert attempt target client (History-Serves before target)
        e
