-- ===== src/Config/Tests.antt =====
-- Lines for a table of two parameters.
use suspend.Common.{ℕ, ◌≡◌, refl, Bool, true, false, List, [], ◌∷◌}
use suspend.Config.{ConfigPar, assigned, parse_line, parse}
use suspend.Config.Print.{printed, parse_line-printed}

-- "ab", a number, and "ac", a string of three bytes.
abbrev ab : ConfigPar
ab = record { name = 97 ∷ 98 ∷ []; is_string = false; stored = true; len = 0 }

abbrev ac : ConfigPar
ac = record { name = 97 ∷ 99 ∷ []; is_string = true; stored = true; len = 4 }

abbrev all_read : ℕ → List ℕ → Bool
all_read i s = true

-- An empty line, "#a" and "ab:7 ".
parse_run :
    parse all_read (ab ∷ ac ∷ []) ((10 ∷ []) ∷ (35 ∷ 97 ∷ []) ∷ (97 ∷ 98 ∷ 58 ∷ 55 ∷ 32 ∷ []) ∷ [])
    ≡ (false, (0, 55 ∷ []) ∷ [])
unfolding parse parse_line
parse_run = refl

-- "ac = wxyz" and a newline: the value is cut.
parse_line-printed_example :
    parse_line all_read (ab ∷ ac ∷ []) (printed (97 ∷ 99 ∷ []) (119 ∷ 120 ∷ 121 ∷ 122 ∷ 10 ∷ []))
    ≡ assigned 1 (119 ∷ 120 ∷ 121 ∷ [])
parse_line-printed_example =
    parse_line-printed all_read (ab ∷ []) ac [] 97 (99 ∷ []) 119 (120 ∷ 121 ∷ 122 ∷ []) (10 ∷ [])
      refl refl refl (refl, tt) refl (record { front = refl; back = refl }) (refl, tt)
