-- ===== src/Node/Service/Reads.antt =====
-- The answer of `NodeService::search`.
use raftvec.Base.{
  ℕ, ◌≡◌, ◌≢◌, ◌⊎◌, inl, inr, refl, Bool, true, some, List, [], ◌∷◌, String, ok, arith,
  Result-cases, Option-cases, map, nat_eq, ap,
}
use raftvec.Core.Float.{Float}
use raftvec.Core.Record.{VectorRecord, ScoredId}
use raftvec.Core.Search.{Rayon}
use raftvec.Node.Store
use raftvec.Node.Store.{Store}
use raftvec.Node.Service.{
  Raft, Leadership, leadership, with_metadata, search, i_am_leader, unknown, redirect,
}
use raftvec.Proto.{SearchRequest, SearchResponse, ScoredRecord}

pub Leadership-cases :
    (l : Leadership) → (l ≡ i_am_leader) ⊎ ((hint : String) × (l ≡ redirect hint)) ⊎ (l ≡ unknown)
Leadership-cases i_am_leader = inl refl
Leadership-cases (redirect hint) = inr (inl (hint, refl))
Leadership-cases unknown = inr (inr refl)

module _ {F : Type 0} ⦃fl : Float F⦄ ⦃ry : Rayon (VectorRecord F × F)⦄ where
  abbrev pub ranking : List (ScoredRecord F) → List (ScoredId F)
  ranking = map λ r. record { id = r.id; score = r.score }

  ranking-with_metadata :
      (seen : ℕ → Store F) (name : String) (l : List (ScoredId F))
      → ranking (with_metadata seen name l) ≡ l
  unfolding with_metadata
  ranking-with_metadata seen name [] = refl
  ranking-with_metadata seen name (s ∷ l) = ap (◌∷◌ s) (ranking-with_metadata seen name l)

  leads :
      (raft : Raft F) (node_id : ℕ)
      → leadership raft node_id ≡ i_am_leader
      → raft.current_leader ≡ some node_id
  unfolding leadership
  leads raft node_id h = ground arith

  redirects :
      (raft : Raft F) (node_id : ℕ) (hint : String)
      → leadership raft node_id ≡ redirect hint
      → (leader : ℕ) × (raft.current_leader ≡ some leader)
        × (leader ≢ node_id)
        × (raft.get_node leader ≡ some hint)
  unfolding leadership
  redirects raft node_id hint h = elim (Option-cases raft.current_leader) [
    | inl e ↦ absurd (ground arith)
    | inr (leader, e) ↦ (leader, e, ground arith, ground arith)
  ]

  served :
      (raft : Raft F) (node_id : ℕ) (scanned : Store F) (seen : ℕ → Store F) (joined : Bool)
      (req : SearchRequest F) (resp : SearchResponse F)
      → search raft node_id scanned seen joined req ≡ ok resp
      → leadership raft node_id ≡ i_am_leader
      → (raft.ensure_linearizable ≡ true)
        × (Store.search scanned req.collection req.query_vector req.k ≡ ok (ranking resp.results))
        × (resp.shards_queried ≡ 1)
        × (resp.leader_hint ≡ "")
  unfolding search
  served raft node_id scanned seen joined req resp h leader =
      elim (Result-cases (Store.search scanned req.collection req.query_vector req.k)) [
        | inl (l, e) ↦
            let kept = ranking-with_metadata seen req.collection l in
            (ground arith, ground (arith, kept), ground arith, ground arith)
        | inr (e, f) ↦ absurd (ground arith)
      ]

  -- A successful answer to a search is one of two. Either this replica believes that it leads, a
  -- quorum has confirmed it, and the answer ranks the ids and scores that the store's `search`
  -- returns, whatever is written before the metadata is looked up; or another node leads, and the
  -- answer is empty, counts no shard and hands on that node's address.
  pub search_answer :
      (raft : Raft F) (node_id : ℕ) (scanned : Store F) (seen : ℕ → Store F) (joined : Bool)
      (req : SearchRequest F) (resp : SearchResponse F)
      → search raft node_id scanned seen joined req ≡ ok resp
      → ((raft.current_leader ≡ some node_id)
          × (raft.ensure_linearizable ≡ true)
          × (Store.search scanned req.collection req.query_vector req.k ≡ ok (ranking resp.results))
          × (resp.shards_queried ≡ 1)
          × (resp.leader_hint ≡ ""))
        ⊎ ((leader : ℕ) × (raft.current_leader ≡ some leader)
            × (leader ≢ node_id)
            × (raft.get_node leader ≡ some resp.leader_hint)
            × (resp.results ≡ [])
            × (resp.shards_queried ≡ 0))
  unfolding search
  search_answer raft node_id scanned seen joined req resp h =
      elim (Leadership-cases (leadership raft node_id)) [
        | inl e ↦
            let (confirmed, found, counted, hint) =
              served raft node_id scanned seen joined req resp h e in
            inl (leads raft node_id e, confirmed, found, counted, hint)
        | inr (inl (hint, e)) ↦
            let (leader, known, differs, addr) = redirects raft node_id hint e in
            inr (leader, known, differs, ground arith, ground arith, ground arith)
        | inr (inr e) ↦ absurd (ground arith)
      ]
