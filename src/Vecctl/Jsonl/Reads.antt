-- ===== src/Vecctl/Jsonl/Reads.antt =====
-- What `load_jsonl` of crates/vecctl/src/main.rs makes of a file.
use raftvec.Base.{
  ℕ, suc, ◌+◌, ◌≡◌, subst, ap, arith, true, false, Option, none, some, List, [], ◌∷◌, ◌++◌, String,
  ok, err, length,
}
use mathlib.Core.List.{append-nil, append_assoc}
use raftvec.Core.Record
use raftvec.Core.Record.{VectorRecord}
use raftvec.Vecctl.Errors.{invalid_record}
use raftvec.Vecctl.Jsonl.{JsonlRecord, trims_to_empty, load_lines, load_jsonl}

module _ {F : Type 0} (from_str : String → Option (JsonlRecord F)) where
  -- The lines of a file with one record on each line and blank lines anywhere.
  pub data Written : List (VectorRecord F) → List (Option String) → Type 0 where
    end : Written [] []
    blank_line :
        {records : List (VectorRecord F)} {lines : List (Option String)} (line : String)
        → trims_to_empty line ≡ true
        → Written records lines
        → Written records (some line ∷ lines)
    record_line :
        {records : List (VectorRecord F)} {lines : List (Option String)} (line : String)
        (rec : JsonlRecord F)
        → trims_to_empty line ≡ false
        → from_str line ≡ some rec
        → Written records lines
        → Written (Record.new rec.id rec.embedding rec.metadata ∷ records) (some line ∷ lines)

  -- After the lines that are written, the loop goes on with the rest of the file.
  load_lines-Written :
      {records : List (VectorRecord F)} {lines : List (Option String)} (lineno : ℕ)
      (rest : List (Option String)) (before : List (VectorRecord F))
      → Written records lines
      → load_lines from_str lineno (lines ++ rest) before
        ≡ load_lines from_str (lineno + length lines) rest (before ++ records)
  unfolding load_lines Record.new
  load_lines-Written lineno rest before end = grind (arith, append-nil)
  load_lines-Written lineno rest before (blank_line line b w) =
      grind (arith, b, load_lines-Written (suc lineno) rest before w)
  load_lines-Written lineno rest before (record_line line rec b e w) =
      let r : VectorRecord F = Record.new rec.id rec.embedding rec.metadata in
      grind (arith, b, e, load_lines-Written (suc lineno) rest (before ++ r ∷ []) w, append_assoc)

  -- Where a file that can be opened has one record on each line, with blank lines anywhere,
  -- `load_jsonl` returns the records in the order of the lines.
  pub load_jsonl-Written :
      {records : List (VectorRecord F)} {lines : List (Option String)}
      (open_lines : String → Option (List (Option String))) (path : String)
      → open_lines path ≡ some lines
      → Written records lines
      → load_jsonl from_str open_lines path ≡ ok records
  unfolding load_jsonl load_lines
  load_jsonl-Written {records} {lines} open_lines path opened w =
      rw (opened, load_jsonl)
        (subst (λ l. load_lines from_str 0 l [] ≡ ok records) (append-nil lines)
          (load_lines-Written 0 [] [] w))

  -- Where a file that can be opened has lines with records and blank lines, and after them a line
  -- that is not blank and that the JSON parser refuses, `load_jsonl` fails with the number of that
  -- line, counted from 1, whatever follows.
  pub load_jsonl_invalid :
      {records : List (VectorRecord F)} {lines : List (Option String)}
      (open_lines : String → Option (List (Option String))) (path line : String)
      (rest : List (Option String))
      → open_lines path ≡ some (lines ++ some line ∷ rest)
      → Written records lines
      → trims_to_empty line ≡ false
      → from_str line ≡ none
      → load_jsonl from_str open_lines path ≡ err (invalid_record (length lines + 1))
  unfolding load_jsonl load_lines
  load_jsonl_invalid {records} {lines} open_lines path line rest opened w b e =
      rw (opened, load_jsonl, load_lines-Written 0 (some line ∷ rest) [] w)
        (rw (b, e) (ap (λ n. err (invalid_record n)) (omega arith)))
