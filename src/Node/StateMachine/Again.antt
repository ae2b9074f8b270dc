-- ===== src/Node/StateMachine/Again.antt =====
-- A command that the log holds twice, as where a client tries again a write whose answer it has
-- missed.
use raftvec.Base.{
  ◌≡◌, refl, sym, ◌∙◌, ap, arith, Bool, String, ◌==◌, string_eq, ◌&&◌, none, some, true, false,
  List, [], ◌∷◌, ◌++◌, ℕ, Option,
}
use raftvec.Core.Float.{Float}
use raftvec.Core.Record.{VectorRecord}
use raftvec.Node.Store.{Store}
use raftvec.Node.Store.Valid.{IsValid}
use raftvec.Node.Store.Contents.{last_with, listed}
use raftvec.Node.Raft.{ShardCommand, upsert, delete}
use raftvec.Node.StateMachine.{run_command}
use raftvec.Node.StateMachine.Apply.{run_command-IsValid}
use raftvec.Node.StateMachine.View.{View, view, meant, accepts, view-ext, view-run_command}

module _ {F : Type 0} where
  abbrev meant_all : View F → List (ShardCommand F) → View F
  meant_all v [] = v
  meant_all v (c ∷ cs) = meant_all (meant v c) cs

  is_some : Option (VectorRecord F) → Bool
  is_some none = false
  is_some (some r) = true

  -- Whether a command sets what is seen of an id.
  sets : View F → ShardCommand F → String → ℕ → Bool
  unfolding is_some
  sets v (upsert name rs) other id =
      (name == other && accepts v name rs) && is_some (last_with id rs)
  sets v (delete name ids) other id = name == other && listed id ids

  accepts-dims :
      (v w : View F) (name : String) (rs : List (VectorRecord F))
      → v.dims ≡ w.dims
      → accepts v name rs ≡ accepts w name rs
  accepts-dims v w name rs e = ap (λ dims. accepts (record v { dims = dims }) name rs) e

  -- Two views that differ at most in what a command sets.
  record Agrees (c : ShardCommand F) (v w : View F) : Type 0 where
    dims : v.dims ≡ w.dims
    records :
        (other : String) (id : ℕ)
        → sets v c other id ≡ false
        → v.records other id ≡ w.records other id

  Agrees-meant : (v : View F) (c : ShardCommand F) → Agrees c (meant v c) v
  unfolding sets is_some
  Agrees-meant v (upsert name rs) = record {
    dims = refl;
    records = λ other id e. ground (arith, e);
  }
  Agrees-meant v (delete name ids) = record {
    dims = refl;
    records = λ other id e. ground (arith, e);
  }

  sets-meant :
      (v : View F) (d c : ShardCommand F) (other : String) (id : ℕ)
      → sets (meant v d) c other id ≡ sets v c other id
  unfolding sets
  sets-meant v (upsert name rs) (upsert name' rs') other id = refl
  sets-meant v (upsert name rs) (delete name' ids') other id = refl
  sets-meant v (delete name ids) (upsert name' rs') other id = refl
  sets-meant v (delete name ids) (delete name' ids') other id = refl

  meant-Agrees :
      (c d : ShardCommand F) (v w : View F) → Agrees c v w → Agrees c (meant v d) (meant w d)
  meant-Agrees c (upsert name rs) v w a = record {
    dims = a.dims;
    records = λ other id e.
        let same = a.records other id (sym (sets-meant v (upsert name rs) c other id) ∙ e) in
        ground (arith, same, accepts-dims v w name rs a.dims);
  }
  meant-Agrees c (delete name ids) v w a = record {
    dims = a.dims;
    records = λ other id e.
        let same = a.records other id (sym (sets-meant v (delete name ids) c other id) ∙ e) in
        ground (arith, same);
  }

  meant_of_Agrees : (c : ShardCommand F) (v w : View F) → Agrees c v w → meant v c ≡ meant w c
  unfolding sets is_some
  meant_of_Agrees (upsert name rs) v w a =
      view-ext _ _ (λ other. ap (λ dims. dims other) a.dims)
        (λ other id. ground (arith, a.records other id, accepts-dims v w name rs a.dims))
  meant_of_Agrees (delete name ids) v w a =
      view-ext _ _ (λ other. ap (λ dims. dims other) a.dims)
        (λ other id. ground (arith, a.records other id))

  meant_all-Agrees :
      (c : ShardCommand F) (cs : List (ShardCommand F)) (v w : View F)
      → Agrees c v w
      → meant_all v (cs ++ c ∷ []) ≡ meant_all w (cs ++ c ∷ [])
  meant_all-Agrees c [] v w a = meant_of_Agrees c v w a
  meant_all-Agrees c (d ∷ cs) v w a =
      meant_all-Agrees c cs (meant v d) (meant w d) (meant-Agrees c d v w a)

module _ {F : Type 0} ⦃fl : Float F⦄ where
  abbrev pub run_commands : Store F → List (ShardCommand F) → Store F
  run_commands s [] = s
  run_commands s (c ∷ cs) = run_commands (run_command s c).0 cs

  view-run_commands :
      (s : Store F) (cs : List (ShardCommand F))
      → IsValid s
      → view (run_commands s cs) ≡ meant_all (view s) cs
  view-run_commands s [] v = refl
  view-run_commands s (c ∷ cs) v =
      view-run_commands (run_command s c).0 cs (run_command-IsValid s c v)
      ∙ ap (λ w. meant_all w cs) (view-run_command s c v)

  -- A write that is committed twice, as where a client tries again after an answer that it has
  -- missed: from a valid store, whatever commands are committed in between, clients see in the end
  -- what they would see if only the second of the two had been committed.
  pub run_commands_again :
      (s : Store F) (c : ShardCommand F) (between : List (ShardCommand F))
      → IsValid s
      → view (run_commands s (c ∷ between ++ c ∷ [])) ≡ view (run_commands s (between ++ c ∷ []))
  run_commands_again s c between v =
      view-run_commands s (c ∷ between ++ c ∷ []) v
      ∙ meant_all-Agrees c between (meant (view s) c) (view s) (Agrees-meant (view s) c)
      ∙ sym (view-run_commands s (between ++ c ∷ []) v)
