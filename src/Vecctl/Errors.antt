-- ===== src/Vecctl/Errors.antt =====
-- The errors that crates/vecctl/src/main.rs ends with, by where they come from. The texts are not
-- modelled, but for the line number of a record that is refused.
use raftvec.Base.{ℕ, String}
use raftvec.Proto.{Status}

pub data Failure : Type 0 where
  connecting : (addr : String) → Failure
  refused : Status → Failure
  missing_id missing_embedding exactly_one : Failure
  opening reading : Failure
  invalid_record : (lineno : ℕ) → Failure
  running embedding_failed parsing_vector : Failure
