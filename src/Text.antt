-- ===== src/Text.antt =====
-- The operations of `str` that the start-up code uses: `split_once`, `split` and `parse::<u64>`. A
-- character stands for its code point.
use Prim.Native.Char.{Char, code}
use raftvec.Base.{
  ℕ, ◌+◌, ◌-◌, ◌*◌, ◌^◌, ◌&&◌, Option, none, some, List, [], ◌∷◌, String, ltb, leb, ◌==◌, nat_eq,
  if◌then◌else◌,
}

unfoldable pub split_once : ℕ → String → Option (String × String)
split_once sep String.[] = none
split_once sep (String.◌∷◌ c s) =
    let rest = split_once sep s in
    if code c == sep
    then some (String.[], s)
    else elim rest [ none ↦ none | some (before, after) ↦ some (String.◌∷◌ c before, after) ]

abbrev with_head : Char → List String → List String
with_head c [] = String.◌∷◌ c String.[] ∷ []
with_head c (part ∷ parts) = String.◌∷◌ c part ∷ parts

-- One part more than there are separators.
unfoldable pub split : ℕ → String → List String
split sep String.[] = String.[] ∷ []
split sep (String.◌∷◌ c s) =
    let rest = split sep s in if code c == sep then String.[] ∷ rest else with_head c rest

-- `checked_mul` and `checked_add`, digit by digit.
unfoldable pub parse_digits : String → ℕ → Option ℕ
parse_digits String.[] n = some n
parse_digits (String.◌∷◌ c s) n =
    let next = n * 10 + (code c - 48) in
    let rest = parse_digits s next in
    if leb 48 (code c) && leb (code c) 57 then if ltb next (2 ^ 64) then rest else none else none

unfoldable pub parse_some_digits : String → Option ℕ
unfolding parse_digits
parse_some_digits String.[] = none
parse_some_digits (String.◌∷◌ c s) = parse_digits (String.◌∷◌ c s) 0

-- A leading `+` is skipped; `-` is no digit.
unfoldable pub parse_u64 : String → Option ℕ
unfolding parse_some_digits
parse_u64 String.[] = none
parse_u64 (String.◌∷◌ c s) =
    let rest = parse_some_digits s in
    if code c == 43 then rest else parse_some_digits (String.◌∷◌ c s)
