-- ===== src/Vecctl/Jsonl.antt =====
-- `load_jsonl` of crates/vecctl/src/main.rs. The file system and serde_json are parameters.
pub mod Reads
use raftvec.Base.{
  ℕ, suc, ◌+◌, Bool, true, false, ◌&&◌, ◌||◌, Option, none, some, List, [], ◌∷◌, ◌++◌, String,
  Result, ok, err, ◌>>=◌, leb, ◌==◌, nat_eq, if◌then◌else◌,
}
use Prim.Native.Char.{Char, code}
use raftvec.HashMap.{HashMap}
use raftvec.Core.Record.{VectorRecord}
use raftvec.Vecctl.Errors.{Failure, opening, reading, invalid_record}

pub record JsonlRecord (F : Type 0) : Type 0 where
  pub id : ℕ
  pub embedding : List F
  pub metadata : HashMap String String

-- `char::is_whitespace`: the code points of Unicode with the property White_Space.
unfoldable pub is_whitespace : ℕ → Bool
is_whitespace c =
    (leb 9 c && leb c 13)
    || c == 32
    || c == 133
    || c == 160
    || c == 5760
    || (leb 8192 c && leb c 8202)
    || c == 8232
    || c == 8233
    || c == 8239
    || c == 8287
    || c == 12288

-- `line.trim().is_empty()`
unfoldable pub trims_to_empty : String → Bool
unfolding is_whitespace
trims_to_empty String.[] = true
trims_to_empty (String.◌∷◌ c s) = is_whitespace (code c) && trims_to_empty s

-- `from_str` is serde_json's, for `JsonlRecord`. A line is `none` where it cannot be read.
module _ {F : Type 0} (from_str : String → Option (JsonlRecord F)) where
  unfoldable pub load_lines :
      (lineno : ℕ)
      → List (Option String)
      → List (VectorRecord F)
      → Result Failure (List (VectorRecord F))
  unfolding trims_to_empty
  load_lines lineno [] records = ok records
  load_lines lineno (none ∷ lines) records = err reading
  load_lines lineno (some line ∷ lines) records =
      if trims_to_empty line then load_lines (suc lineno) lines records else elim (from_str line) [
        | none ↦ err (invalid_record (lineno + 1))
        | some rec ↦ load_lines (suc lineno) lines (
            records
            ++ record { id = rec.id; embedding = rec.embedding; metadata = rec.metadata } ∷ [])
      ]

  -- `open_lines` is none where the file cannot be opened.
  unfoldable pub load_jsonl :
      (open_lines : String → Option (List (Option String))) (path : String)
      → Result Failure (List (VectorRecord F))
  unfolding load_lines
  load_jsonl open_lines path = elim (open_lines path) [
    | none ↦ err opening
    | some lines ↦ load_lines 0 lines []
  ]
