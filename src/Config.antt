-- ===== src/Config.antt =====
-- config_parser.c: `parse_line` and the loop of `parse`. A line is the list of its bytes before the
-- final 0. What is assigned is given by the index of the parameter and the text; `sscanf` is a
-- parameter that says whether it reads a text by the format of a parameter.
pub mod Print
mod Tests
use suspend.Common.{
  ℕ, zero, suc, ◌+◌, ◌-◌, Bool, true, false, ◌||◌, ◌&&◌, leb, List, [], ◌∷◌, ◌==◌, if◌then◌else◌,
  take, Option, none, some,
}

-- struct config_par: `stored` tells whether `ptr` is set, `is_string` whether the format is %s.
pub record ConfigPar : Type 0 where
  pub name : List ℕ
  pub is_string : Bool
  pub stored : Bool
  pub len : ℕ

pub data Parsed : Type 0 where
  ignored invalid : Parsed
  assigned : ℕ → List ℕ → Parsed

abbrev pub isspace : ℕ → Bool
isspace c = (c == 32) || (leb 9 c && leb c 13)

abbrev pub isblank : ℕ → Bool
isblank c = (c == 32) || (c == 9)

abbrev pub skip : (ℕ → Bool) → List ℕ → List ℕ
skip f [] = []
skip f (c ∷ s) = if f c then skip f s else c ∷ s

abbrev pub keep_last : ℕ → List ℕ → List ℕ
keep_last c [] = if isspace c then [] else c ∷ []
keep_last c (d ∷ s) = c ∷ d ∷ s

-- The white space at the end is overwritten with 0.
abbrev pub trim_end : List ℕ → List ℕ
trim_end [] = []
trim_end (c ∷ s) = keep_last c (trim_end s)

-- What follows a name that the text starts with.
abbrev pub after_name : List ℕ → List ℕ → Option (List ℕ)
after_name [] s = some s
after_name (c ∷ n) [] = none
after_name (c ∷ n) (d ∷ s) = if c == d then after_name n s else none

module _ (sscanf : ℕ → List ℕ → Bool) where
  -- `next` is the rest of the table on the text, which is empty by then.
  abbrev pub assign : ConfigPar → ℕ → Parsed → List ℕ → Parsed
  assign p i next [] = next
  assign p i next (c ∷ s) =
      if p.is_string
      then assigned i (take (p.len - 1) (c ∷ s))
      else if sscanf i (c ∷ s)
      then assigned i (c ∷ s)
      else invalid

  abbrev pub after_separator : ConfigPar → ℕ → Parsed → List ℕ → Parsed
  after_separator p i next [] = invalid
  after_separator p i next (c ∷ s) =
      if (c == 58) || (c == 61) then assign p i next (trim_end (skip isblank s)) else invalid

  -- The names are compared in the order of the table, whose first entry has the index `i`.
  pub find_name : ℕ → List ConfigPar → List ℕ → Parsed
  find_name i [] s = ignored
  find_name i (p ∷ ps) s =
      let next = find_name (i + 1) ps [] in
      let other = find_name (i + 1) ps s in
      elim (after_name p.name s) [
        | none ↦ other
        | some rest ↦ (if p.stored then after_separator p i next (skip isblank rest) else ignored)
      ]

  abbrev pub parse_text : List ConfigPar → List ℕ → Parsed
  parse_text parv [] = ignored
  parse_text parv (c ∷ s) = if c == 35 then ignored else find_name 0 parv (c ∷ s)

  unfoldable pub parse_line : List ConfigPar → List ℕ → Parsed
  unfolding find_name
  parse_line parv s = parse_text parv (skip isspace s)

  abbrev pub next_line : Parsed → Bool × List (ℕ × List ℕ) → Bool × List (ℕ × List ℕ)
  next_line ignored rest = rest
  next_line (assigned i v) (e, vs) = (e, (i, v) ∷ vs)
  next_line invalid rest = (true, [])

  -- The lines of the file in turn, up to the first with an error: whether there was one, and what was
  -- assigned.
  unfoldable pub parse : List ConfigPar → List (List ℕ) → Bool × List (ℕ × List ℕ)
  parse parv [] = (false, [])
  parse parv (l ∷ ls) = next_line (parse_line parv l) (parse parv ls)
