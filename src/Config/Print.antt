-- ===== src/Config/Print.antt =====
-- A setting that is written out the way config_parser.c expects is read back.
use suspend.Common.{
  ℕ, suc, ◌+◌, ◌-◌, ◌≡◌, refl, Bool, true, false, List, [], ◌∷◌, ◌++◌, ◌==◌, if◌then◌else◌, take,
  length, none, some, arith, ◌∙◌, sym, subst,
}
use suspend.Config.{
  ConfigPar, invalid, assigned, isspace, isblank, trim_end, after_name, find_name, parse_line,
}

-- `name = value`.
abbrev pub printed : List ℕ → List ℕ → List ℕ
printed name v = name ++ (32 ∷ 61 ∷ 32 ∷ v)

-- No name of the list starts the text.
abbrev pub NoneMatches : List ConfigPar → List ℕ → Type 0
NoneMatches [] s = Unit
NoneMatches (p ∷ ps) s = (after_name p.name s ≡ none) × NoneMatches ps s

-- A text that is all white space, as the newline at the end of a line.
abbrev pub IsSpace : List ℕ → Type 0
IsSpace [] = Unit
IsSpace (c ∷ s) = (isspace c ≡ true) × IsSpace s

-- The last byte of `c ∷ s` is no white space.
abbrev pub EndsInk : ℕ → List ℕ → Type 0
EndsInk c [] = isspace c ≡ false
EndsInk c (d ∷ s) = EndsInk d s

-- A value that no white space surrounds.
pub record IsTrimmed (c : ℕ) (s : List ℕ) : Type 0 where
  pub front : isblank c ≡ false
  pub back : EndsInk c s

trim_end_space : (ws : List ℕ) → IsSpace ws → trim_end ws ≡ []
trim_end_space [] h = refl
trim_end_space (c ∷ s) (a, h) = rw (trim_end_space s h, a) refl

trim_end-append :
    (c : ℕ) (s ws : List ℕ) → EndsInk c s → IsSpace ws → trim_end ((c ∷ s) ++ ws) ≡ c ∷ s
trim_end-append c [] ws e h = rw (trim_end_space ws h, e) refl
trim_end-append c (d ∷ s) ws e h = rw (trim_end-append d s ws e h) refl

after_name-append : (n s : List ℕ) → after_name n (n ++ s) ≡ some s
after_name-append [] s = refl
after_name-append (c ∷ n) s = let t : (c == c) ≡ true = ground arith in rw t (after_name-append n s)

module _ (sscanf : ℕ → List ℕ → Bool) where
  find_name-append :
      (ps : List ConfigPar) (p : ConfigPar) (qs : List ConfigPar) (i : ℕ) (c : ℕ) (v ws : List ℕ)
      → NoneMatches ps (printed p.name ((c ∷ v) ++ ws))
      → p.stored ≡ true
      → IsTrimmed c v
      → IsSpace ws
      → find_name sscanf i (ps ++ (p ∷ qs)) (printed p.name ((c ∷ v) ++ ws)) ≡ (
          if p.is_string
          then assigned (i + length ps) (take (p.len - 1) (c ∷ v))
          else if sscanf (i + length ps) (c ∷ v)
          then assigned (i + length ps) (c ∷ v)
          else invalid)
  unfolding find_name
  find_name-append [] p qs i c v ws none_before s t b =
      let e : i ≡ i + 0 = omega arith in
      rw
        (
          find_name,
          after_name-append p.name (32 ∷ 61 ∷ 32 ∷ ((c ∷ v) ++ ws)),
          s,
          t.front,
          trim_end-append c v ws t.back b,
          sym e,
        )
        refl
  find_name-append (q ∷ ps) p qs i c v ws (n, none_before) s t b =
      let e : i + 1 + length ps ≡ i + suc (length ps) = omega arith in
      rw (find_name, n, find_name-append ps p qs (i + 1) c v ws none_before s t b, e) refl

  parse_text-printed :
      (parv : List ConfigPar) (name v : List ℕ) (d : ℕ) (n : List ℕ)
      → name ≡ d ∷ n
      → isspace d ≡ false
      → (d == 35) ≡ false
      → parse_line sscanf parv (printed name v) ≡ find_name sscanf 0 parv (printed name v)
  unfolding parse_line
  parse_text-printed parv name v d n e space hash =
      subst (λ x. parse_line sscanf parv (printed x v) ≡ find_name sscanf 0 parv (printed x v))
        (sym e) (rw (space, hash) refl)

  -- The line `name = value` with any white space behind it, such as the newline that `fgets` leaves, for
  -- a parameter that is stored, with a name that starts with neither white space nor `#` and a
  -- value that does not start with a blank or a tab and does not end in white space: it gives the
  -- parameter the value alone, cut to `len` - 1 bytes for a string, or is an error where `sscanf`
  -- fails on it, if no name before it in the table starts the line.
  pub parse_line-printed :
      (ps : List ConfigPar) (p : ConfigPar) (qs : List ConfigPar) (d : ℕ) (n : List ℕ) (c : ℕ)
      (v ws : List ℕ)
      → p.name ≡ d ∷ n
      → isspace d ≡ false
      → (d == 35) ≡ false
      → NoneMatches ps (printed p.name ((c ∷ v) ++ ws))
      → p.stored ≡ true
      → IsTrimmed c v
      → IsSpace ws
      → parse_line sscanf (ps ++ (p ∷ qs)) (printed p.name ((c ∷ v) ++ ws)) ≡ (
          if p.is_string
          then assigned (0 + length ps) (take (p.len - 1) (c ∷ v))
          else if sscanf (0 + length ps) (c ∷ v)
          then assigned (0 + length ps) (c ∷ v)
          else invalid)
  parse_line-printed ps p qs d n c v ws e space hash none_before s t b =
      parse_text-printed (ps ++ (p ∷ qs)) p.name ((c ∷ v) ++ ws) d n e space hash
      ∙ find_name-append ps p qs 0 c v ws none_before s t b
