-- ===== src/Vecctl.antt =====
-- crates/vecctl/src/main.rs: the commands of the client. clap's parsing is left out: a command is what
-- it has parsed. The servers, the files, the JSON parser and the embedding script are parameters.
pub mod Errors
pub mod Chunks
pub mod Jsonl
pub mod Query
pub mod Batching
pub mod OnNode
pub mod Stops
use raftvec.Base.{
  ℕ, suc, ◌+◌, ◌%◌, Option, none, some, List, [], ◌∷◌, ◌++◌, String, Result, ok, err, ◌>>=◌,
  map_err, length, ltb, if◌then◌else◌, string_eq,
}
use raftvec.HashMap
use raftvec.HashMap.{HashMap}
use raftvec.Core.Record
use raftvec.Core.Record.{VectorRecord}
use raftvec.Core.Sharding.{u32_mod}
use raftvec.Proto.{
  Status, CreateCollectionRequest, CreateCollectionResponse, InsertRequest, InsertResponse,
  DeleteRequest, DeleteResponse, SearchRequest, SearchResponse, ScoredRecord, ClusterStatusResponse,
}
use raftvec.Vecctl.Errors.{Failure, connecting, refused, missing_id, missing_embedding}
use raftvec.Vecctl.Chunks.{chunks}
use raftvec.Vecctl.Jsonl.{load_jsonl}
use raftvec.Vecctl.Query.{Host, query_vector}

-- What a server in the state `S` does with a request.
pub record Client (F S : Type 0) : Type 0 where
  pub create_collection : S → CreateCollectionRequest → S × Result Status CreateCollectionResponse
  pub insert : S → InsertRequest F → S × Result Status InsertResponse
  pub delete : S → DeleteRequest → S × Result Status DeleteResponse
  pub search : S → SearchRequest F → S × Result Status (SearchResponse F)
  pub cluster_status : S → S × Result Status ClusterStatusResponse

pub data Cmd (F : Type 0) : Type 0 where
  create_collection : (collection : String) (dim shard_count : ℕ) → Cmd F
  insert :
      (collection : String) (file : Option String) (id : Option ℕ) (embedding : Option (List F))
      → Cmd F
  delete : (collection : String) (ids : List ℕ) → Cmd F
  search : (collection : String) (query : Option String) (vector : Option (List F)) (k : ℕ) → Cmd F
  status : Cmd F

-- The lines that are printed, by what they show.
pub data Printed (F : Type 0) : Type 0 where
  created : (collection : String) (dim shard_count : ℕ) → Printed F
  inserted : (inserted total : ℕ) (collection : String) → Printed F
  deleted : ℕ → Printed F
  shards_failed : (shards_failed shards_queried : ℕ) → Printed F
  hit : (place : ℕ) (score : F) (id : ℕ) (title : Option String) → Printed F
  collections : List String → Printed F
  vector_count : ℕ → Printed F

abbrev pub batch_size : ℕ
batch_size = 1000

-- `?` and `context` on an `Option`.
abbrev pub required {ℓ} : {A : Type ℓ} → Failure → Option A → Result Failure A
required e none = err e
required e (some a) = ok a

abbrev or_else {ℓ} : {A : Type ℓ} → Option A → Option A → Option A
or_else none b = b
or_else (some a) b = some a

module _ {F B : Type 0} (host : Host F B) where
  -- The records that `Cmd::Insert` sends.
  unfoldable pub insert_records :
      (file : Option String) (id : Option ℕ) (embedding : Option (List F))
      → Result Failure (List (VectorRecord F))
  unfolding load_jsonl
  insert_records (some path) id embedding = load_jsonl host.from_str host.open_lines path
  insert_records none id embedding = do
    id ← required missing_id id
    embedding ← required missing_embedding embedding
    ok (record { id = id; embedding = embedding; metadata = [] } ∷ [])

module _ {F S : Type 0} (client : Client F S) where
  -- The loop over the chunks; `count` is `inserted`. `+=` on a `u32` wraps in a release build.
  unfoldable pub insert_chunks :
      String → List (List (VectorRecord F)) → (count : ℕ) → S → S × Result Failure ℕ
  insert_chunks collection [] count s = (s, ok count)
  insert_chunks collection (chunk ∷ rest) count s =
      let (s', resp) = client.insert s (record { collection = collection; records = chunk }) in
      elim resp [
        | err e ↦ (s', err (refused e))
        | ok r ↦ insert_chunks collection rest ((count + r.inserted) % u32_mod) s'
      ]

-- The lines for the results, the first of which has the place `i + 1`.
unfoldable pub hits : {F : Type 0} → (i : ℕ) → List (ScoredRecord F) → List (Printed F)
unfolding HashMap.get
hits i [] = []
hits i (r ∷ rs) =
    hit (i + 1) r.score r.id
      (or_else (HashMap.get r.metadata "text") (HashMap.get r.metadata "title"))
    ∷ hits (suc i) rs

unfoldable pub warning : {F : Type 0} → SearchResponse F → List (Printed F)
warning resp =
    if ltb 0 resp.shards_failed
    then shards_failed resp.shards_failed resp.shards_queried ∷ []
    else []

module _ {F B S : Type 0} (host : Host F B) (client : Client F S) where
  -- The `match` of `main`. Each arm prints when nothing of it can fail any more.
  unfoldable pub run : Cmd F → S → S × Result Failure (List (Printed F))
  unfolding insert_records insert_chunks chunks hits warning query_vector
  run (create_collection collection dim shard_count) s =
      let (s', resp) =
        client.create_collection s
          (record { name = collection; dim = dim; shard_count = shard_count }) in
      (s', do _ ← map_err refused resp; ok (created collection dim shard_count ∷ []))
  run (insert collection file id embedding) s = elim (insert_records host file id embedding) [
    | err e ↦ (s, err e)
    | ok records ↦
        let (s', result) = insert_chunks client collection (chunks batch_size records) 0 s in
        (s', do n ← result; ok (inserted n (length records) collection ∷ []))
  ]
  run (delete collection ids) s =
      let (s', resp) = client.delete s (record { collection = collection; ids = ids }) in
      (s', do r ← map_err refused resp; ok (deleted r.deleted ∷ []))
  run (search collection query vector k) s = elim (query_vector host query vector) [
    | err e ↦ (s, err e)
    | ok v ↦
        let (s', resp) =
          client.search s (record { collection = collection; query_vector = v; k = k }) in
        (s', do r ← map_err refused resp; ok (warning r ++ hits 0 r.results))
  ]
  run status s =
      let (s', resp) = client.cluster_status s in
      (
        s',
        do
          r ← map_err refused resp
          ok (collections r.collections ∷ vector_count r.vector_count ∷ []),
      )

-- `main`: a `connect` that gives none has failed.
unfoldable pub main :
    {F B S : Type 0}
    → Host F B
    → (connect : String → Option (Client F S)) (addr : String) → Cmd F
    → S
    → S × Result Failure (List (Printed F))
unfolding run
main host connect addr command s = elim (connect addr) [
  | none ↦ (s, err (connecting addr))
  | some client ↦ run host client command s
]
