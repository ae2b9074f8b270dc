-- ===== src/Examples/OfVecctl.antt =====
-- Runs of vecctl, against a node that leads and one that follows.
use raftvec.Base.{
  ℕ, ◌+◌, ◌≡◌, refl, ◌==◌, string_eq, nat_eq, true, false, if◌then◌else◌, List, [], ◌∷◌, none, some,
  String, ok, err, Option,
}
use raftvec.HashMap
use raftvec.Core.Record
use raftvec.Core.Record.{VectorRecord}
use raftvec.Proto.{unavailable}
use raftvec.Node.Raft.{upsert}
use raftvec.Node.Service
use raftvec.Node.Service.{Raft, forward_to_leader}
use raftvec.Node.Store.{Store}
use raftvec.Node.StateMachine.{run_command}
use raftvec.Node.StateMachine.View.{view, meant, accepts}
use raftvec.Vecctl
use raftvec.Vecctl.{Client, Cmd, Printed, insert_records}
use raftvec.Vecctl.Errors.{invalid_record}
use raftvec.Vecctl.Jsonl.{JsonlRecord, load_jsonl, trims_to_empty}
use raftvec.Vecctl.Jsonl.Reads.{Written, load_jsonl-Written, load_jsonl_invalid}
use raftvec.Vecctl.Query.{Host}
use raftvec.Vecctl.OnNode.{Leads, Follows, run_inserts_as_one, run_insert_on_follower}
use raftvec.Vecctl.Stops.{Ends, run_insert_cases}
use raftvec.Examples.Fixtures.{nat_float, fruit_store}

abbrev parsed : JsonlRecord ℕ
parsed = record { id = 4; embedding = 1 ∷ 2 ∷ []; metadata = [] }

abbrev four : VectorRecord ℕ
four = record { id = 4; embedding = 1 ∷ 2 ∷ []; metadata = [] }

abbrev from_str : String → Option (JsonlRecord ℕ)
from_str line = if line == "{}" then none else some parsed

abbrev lines : List (Option String)
lines = some " " ∷ some "{4}" ∷ []

abbrev open_lines : String → Option (List (Option String))
open_lines path = if path == "a" then some lines else some (some " " ∷ some "{4}" ∷ some "{}" ∷ [])

abbrev host : Host ℕ ℕ
host = record {
  open_lines = open_lines;
  exists = λ path. false;
  output = λ program args. none;
  from_str = from_str;
  from_slice = λ b. none;
}

one_record : Written from_str (four ∷ []) lines
unfolding trims_to_empty Record.new
one_record = Written.blank_line " " refl (Written.record_line "{4}" parsed refl refl Written.end)

load_jsonl-Written_example : load_jsonl from_str open_lines "a" ≡ ok (four ∷ [])
load_jsonl-Written_example = load_jsonl-Written from_str open_lines "a" refl one_record

not_blank : trims_to_empty "{}" ≡ false
unfolding trims_to_empty
not_blank = refl

load_jsonl_invalid_example : load_jsonl from_str open_lines "b" ≡ err (invalid_record 3)
load_jsonl_invalid_example =
    load_jsonl_invalid from_str open_lines "b" "{}" [] refl one_record not_blank refl

abbrev leading : Store ℕ → Raft ℕ
leading s = record {
  client_write = λ c. ok (record { applied_count = (run_command s c).1 });
  current_leader = some 1;
  get_node = λ id. none;
  ensure_linearizable = true;
}

abbrev client : (Store ℕ → Raft ℕ) → Client ℕ (Store ℕ)
client raft = record {
  create_collection = λ s req. (s, err unavailable);
  insert =
      λ s req. ((run_command s (upsert req.collection req.records)).0, Service.insert (raft s) req);
  delete = λ s req. (s, err unavailable);
  search = λ s req. (s, err unavailable);
  cluster_status = λ s. (s, err unavailable);
}

leads : Leads leading (client leading)
leads = record { committed = λ s c. refl; served = λ s req. refl }

from_file : insert_records host (some "a") none none ≡ ok (four ∷ [])
unfolding insert_records
from_file = refl

accepted : accepts (view fruit_store) "fruit" (four ∷ []) ≡ true
unfolding HashMap.get
accepted = refl

run_inserts_as_one_example :
    (view (Vecctl.run host (client leading) (Cmd.insert "fruit" (some "a") none none) fruit_store).0
      ≡ meant (view fruit_store) (upsert "fruit" (four ∷ [])))
    × ((Vecctl.run host (client leading) (Cmd.insert "fruit" (some "a") none none) fruit_store).1
        ≡ ok (Printed.inserted 1 1 "fruit" ∷ []))
run_inserts_as_one_example =
    run_inserts_as_one leading (client leading) host "fruit" (some "a") none none (four ∷ [])
      fruit_store leads from_file accepted

abbrev following : ℕ → Raft ℕ
following s = record {
  client_write = λ c. err (forward_to_leader (some "http://b"));
  current_leader = some 2;
  get_node = λ id. some "http://b";
  ensure_linearizable = false;
}

abbrev client_of_follower : Client ℕ ℕ
client_of_follower = record {
  create_collection = λ s req. (s, err unavailable);
  insert = λ s req. (s, Service.insert (following s) req);
  delete = λ s req. (s, err unavailable);
  search = λ s req. (s, err unavailable);
  cluster_status = λ s. (s, err unavailable);
}

follows : Follows client_of_follower following
follows = record { forwards = λ s c. ("http://b", refl); served = λ s req. refl }

run_insert_on_follower_example :
    Vecctl.run host client_of_follower (Cmd.insert "fruit" (some "a") none none) 0
    ≡ (0, ok (Printed.inserted 0 1 "fruit" ∷ []))
run_insert_on_follower_example =
    run_insert_on_follower client_of_follower following host "fruit" (some "a") none none
      (four ∷ []) 0 follows from_file

-- A server that takes the first batch that it is sent and refuses the next.
abbrev filling : Client ℕ ℕ
filling = record {
  create_collection = λ s req. (s, err unavailable);
  insert = λ s req.
      (s + 1, if s == 0 then ok (record { inserted = 1; leader_hint = "" }) else err unavailable);
  delete = λ s req. (s, err unavailable);
  search = λ s req. (s, err unavailable);
  cluster_status = λ s. (s, err unavailable);
}

run_insert_cases_example :
    Ends host filling "fruit"
      (some "a")
      none
      none
      1
      (Vecctl.run host filling (Cmd.insert "fruit" (some "a") none none) 1)
run_insert_cases_example = run_insert_cases host filling "fruit" (some "a") none none 1
