-- ===== src/Node/Start/Peers.antt =====
-- `parse_peers` of crates/raftvec-node/src/main.rs: the membership that the peers of the command
-- line describe.
use raftvec.Base.{
  ℕ, ◌≡◌, refl, ◌∙◌, arith, Bool, true, false, Option, none, some, Option-cases, inl, inr, ◌⊎◌,
  List, [], ◌∷◌, String, ok, err, ◌==◌, nat_eq, if◌then◌else◌,
}
use raftvec.BTreeMap
use raftvec.BTreeMap.{BTreeMap}
use raftvec.BTreeMap.Laws.{get-insert}
use raftvec.Text.{split_once, parse_u64}
use raftvec.Node.Start.{
  BasicNode, StartError, normalize, parse_each, parse_peers, not_id_addr, bad_peer_id,
}

-- What one peer says: an id and an address.
abbrev pub peer : String → Option (ℕ × String)
peer p = elim (split_once 61 p) [
  | none ↦ none
  | some (id_str, addr) ↦ elim (parse_u64 id_str) [
    | none ↦ none
    | some id ↦ some (id, normalize addr)
  ]
]

abbrev pub all_peers : List String → Bool
all_peers [] = true
all_peers (p ∷ peers) = elim (peer p) [ none ↦ false | some _ ↦ all_peers peers ]

-- The address that the last peer with an id gives it.
abbrev pub last_addr : ℕ → List String → Option BasicNode
last_addr id [] = none
last_addr id (p ∷ peers) = elim (last_addr id peers) [
  | some node ↦ some node
  | none ↦ elim (peer p) [
    | none ↦ none
    | some (j, addr) ↦ if j == id then some (record { addr = addr }) else none
  ]
]

abbrev or_else : Option BasicNode → Option BasicNode → Option BasicNode
or_else none o = o
or_else (some n) o = some n

module _ {E : Type 0} where
  parse_each_members :
      (peers : List String) (members : BTreeMap BasicNode)
      → ((all_peers peers ≡ true)
          × (m : BTreeMap BasicNode) × (parse_each {E = E} peers members ≡ ok m)
          × ((id : ℕ) → BTreeMap.get m id ≡ or_else (last_addr id peers) (BTreeMap.get members id)))
        ⊎ ((all_peers peers ≡ false)
            × (e : StartError E) × (parse_each {E = E} peers members ≡ err e))
  unfolding parse_each
  parse_each_members [] members = inl (refl, members, refl, λ id. refl)
  parse_each_members (p ∷ peers) members = elim (Option-cases (split_once 61 p)) [
    | inl e ↦ inr (ground arith, not_id_addr p, rw (e, parse_each) refl)
    | inr ((id_str, addr), e) ↦ elim (Option-cases (parse_u64 id_str)) [
      | inl f ↦ inr (ground arith, bad_peer_id p, rw (e, f, parse_each) refl)
      | inr (id, f) ↦
          let node : BasicNode = record { addr = normalize addr } in
          elim (parse_each_members peers (BTreeMap.insert members id node)) [
            | inl (all, m, run, found) ↦ inl (
              ground arith,
              m,
              rw (e, f, parse_each) run,
              λ j. ground (arith, found j, get-insert members id j node),
            )
            | inr (bad, x, run) ↦ inr (ground arith, x, rw (e, f, parse_each) run)
          ]
    ]
  ]

  -- `parse_peers` succeeds where every peer has a `=` with a `u64` before it, and then the
  -- membership gives each id the normalised address of the last peer with that id, and no other id
  -- any; with any other peer it fails.
  pub parse_peers_lem :
      (peers : List String)
      → ((all_peers peers ≡ true)
          × (members : BTreeMap BasicNode) × (parse_peers {E = E} peers ≡ ok members)
          × ((id : ℕ) → BTreeMap.get members id ≡ last_addr id peers))
        ⊎ ((all_peers peers ≡ false) × (e : StartError E) × (parse_peers {E = E} peers ≡ err e))
  unfolding parse_peers BTreeMap.get
  parse_peers_lem peers = elim (parse_each_members peers []) [
    | inl (all, m, run, found) ↦ inl (all, m, run, λ id. found id ∙ bare (last_addr id peers))
    | inr r ↦ inr r
  ]
    where
      bare : (o : Option BasicNode) → or_else o none ≡ o
      bare none = refl
      bare (some n) = refl
