-- ===== src/Node/StateMachine/Apply.antt =====
-- What `apply` does to the state machine, over any list of entries.
use raftvec.Base.{◌≡◌, refl, ap, ◌∙◌, Option, some, List, [], ◌∷◌, ◌++◌, length, suc}
use raftvec.Core.Float.{Float}
use raftvec.Node.Store.{Store}
use raftvec.Node.Store.Valid.{IsValid, insert-IsValid, delete-IsValid}
use raftvec.Node.Raft.{
  Memberships, ShardCommand, upsert, delete, EntryPayload, blank, normal, membership, Entry,
}
use raftvec.Node.StateMachine.{ShardStateMachine, run_command, apply_payload, apply_entry, apply}

-- The position after some entries is that of the last one.
module _ {F L M : Type 0} where
  abbrev pub last_log_id : Option L → List (Entry F L M) → Option L
  last_log_id o [] = o
  last_log_id o (e ∷ es) = last_log_id (some e.log_id) es

module _ {F : Type 0} ⦃fl : Float F⦄ where
  pub run_command-IsValid :
      (s : Store F) (c : ShardCommand F) → IsValid s → IsValid (run_command s c).0
  unfolding run_command
  run_command-IsValid s (upsert name rs) v = insert-IsValid s name rs v
  run_command-IsValid s (delete name ids) v = delete-IsValid s name ids v

module _ {F L M S : Type 0} ⦃fl : Float F⦄ ⦃ms : Memberships L M S⦄ where
  -- Applying a log in two parts leads to the state that applying it whole leads to.
  pub apply-append :
      (sm : ShardStateMachine F L S) (es fs : List (Entry F L M))
      → (apply sm (es ++ fs)).0 ≡ (apply (apply sm es).0 fs).0
  unfolding apply
  apply-append sm [] fs = refl
  apply-append sm (e ∷ es) fs = apply-append (apply_entry sm e).0 es fs

  pub responses-append :
      (sm : ShardStateMachine F L S) (es fs : List (Entry F L M))
      → (apply sm (es ++ fs)).1 ≡ (apply sm es).1 ++ (apply (apply sm es).0 fs).1
  unfolding apply
  responses-append sm [] fs = refl
  responses-append sm (e ∷ es) fs =
      ap (◌∷◌ (apply_entry sm e).1) (responses-append (apply_entry sm e).0 es fs)

  pub length-responses :
      (sm : ShardStateMachine F L S) (es : List (Entry F L M)) → length (apply sm es).1 ≡ length es
  unfolding apply
  length-responses sm [] = refl
  length-responses sm (e ∷ es) = ap suc (length-responses (apply_entry sm e).0 es)

  last_applied-apply_payload :
      (sm : ShardStateMachine F L S) (id : L) (p : EntryPayload F M)
      → (apply_payload sm id p).0.last_applied_log ≡ sm.last_applied_log
  unfolding apply_payload
  last_applied-apply_payload sm id blank = refl
  last_applied-apply_payload sm id (normal c) = refl
  last_applied-apply_payload sm id (membership m) = refl

  -- After some entries are applied, the position is the log id of the last of them, or what it was
  -- if there are none.
  pub last_applied-apply :
      (sm : ShardStateMachine F L S) (es : List (Entry F L M))
      → (apply sm es).0.last_applied_log ≡ last_log_id sm.last_applied_log es
  unfolding apply apply_entry
  last_applied-apply sm [] = refl
  last_applied-apply sm (e ∷ es) =
      last_applied-apply (apply_entry sm e).0 es
      ∙ ap (λ o. last_log_id o es)
          (last_applied-apply_payload (record sm { last_applied_log = some e.log_id }) e.log_id
            e.payload)

  pub apply_payload-IsValid :
      (sm : ShardStateMachine F L S) (id : L) (p : EntryPayload F M)
      → IsValid sm.store
      → IsValid (apply_payload sm id p).0.store
  unfolding apply_payload
  apply_payload-IsValid sm id blank v = v
  apply_payload-IsValid sm id (normal c) v = run_command-IsValid sm.store c v
  apply_payload-IsValid sm id (membership m) v = v

  -- A valid store stays valid under any log.
  pub apply-IsValid :
      (sm : ShardStateMachine F L S) (es : List (Entry F L M))
      → IsValid sm.store
      → IsValid (apply sm es).0.store
  unfolding apply apply_entry
  apply-IsValid sm [] v = v
  apply-IsValid sm (e ∷ es) v =
      apply-IsValid (apply_entry sm e).0 es (apply_payload-IsValid _ e.log_id e.payload v)
