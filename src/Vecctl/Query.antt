-- ===== src/Vecctl/Query.antt =====
-- The query vector of a search of crates/vecctl/src/main.rs: given as it is, or computed by the
-- embedding script. The machine that runs the script is a parameter.
use raftvec.Base.{Bool, Option, none, some, List, [], ◌∷◌, String, Result, ok, err, if◌then◌else◌}
use raftvec.Vecctl.Errors.{Failure, exactly_one, running, embedding_failed, parsing_vector}
use raftvec.Vecctl.Jsonl.{JsonlRecord}

-- `std::process::Output`: whether the exit status is 0, and the bytes of the standard output.
pub record Output (B : Type 0) : Type 0 where
  pub success : Bool
  pub stdout : B

-- What the client asks of the machine it runs on, and serde_json's two parsers.
pub record Host (F B : Type 0) : Type 0 where
  -- the lines of a file; a line that cannot be read is none
  pub open_lines : String → Option (List (Option String))
  pub exists : String → Bool
  pub output : (program : String) (args : List String) → Option (Output B)
  pub from_str : String → Option (JsonlRecord F)
  pub from_slice : B → Option (List F)

module _ {F B : Type 0} (host : Host F B) where
  unfoldable pub embed_query_text : String → Result Failure (List F)
  embed_query_text text =
      let python = if host.exists ".venv/bin/python3" then ".venv/bin/python3" else "python3" in
      elim (host.output python ("scripts/embed_corpus.py" ∷ "--embed-query" ∷ text ∷ [])) [
        | none ↦ err running
        | some output ↦
            if output.success
            then elim (host.from_slice output.stdout) [
              | none ↦ err parsing_vector
              | some vector ↦ ok vector
            ]
            else err embedding_failed
      ]

  unfoldable pub query_vector : Option String → Option (List F) → Result Failure (List F)
  unfolding embed_query_text
  query_vector (some text) none = embed_query_text text
  query_vector none (some v) = ok v
  query_vector none none = err exactly_one
  query_vector (some text) (some v) = err exactly_one
