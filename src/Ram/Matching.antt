-- ===== src/Ram/Matching.antt =====
-- Which machines a pattern stands for, and which entry of the whitelist s2ram takes.
use suspend.Common.{
  ℕ, zero, suc, ◌+◌, ◌<◌, ◌≡◌, ◌≢◌, ◌↔◌, ◌⊎◌, inl, inr, refl, Bool, true, false, ◌&&◌, List, [],
  ◌∷◌, ◌++◌, ◌==◌, ==→eq, ==_false→ne, Bool-cases, Option, none, some, arith, ap, ap₂, sym, ◌∙◌,
  subst, get_or,
}
use suspend.Ram.{
  Machine, MachineEntry, is_text, starts_with, split_last, match_text, match_entry, first_match,
  machine_match,
}

-- `*` at the end of a pattern.
abbrev pub star : List ℕ
star = 42 ∷ []

-- The pattern is empty, or is the beginning of the text and `*`, or is the text.
abbrev pub Matches : List ℕ → List ℕ → Type 0
Matches t s =
    (s ≡ [])
    ⊎ ((front : List ℕ) × (rest : List ℕ) × (s ≡ front ++ star) × (t ≡ front ++ rest))
    ⊎ ((t ≡ s) × ((front : List ℕ) → s ≢ front ++ star))

is_text-true : (t s : List ℕ) → is_text t s ≡ true → t ≡ s
is_text-true [] [] h = refl
is_text-true [] (d ∷ s) h = absurd (cc)
is_text-true (c ∷ t) [] h = absurd (cc)
is_text-true (c ∷ t) (d ∷ s) h = elim (Bool-cases (c == d)) [
  | inl e ↦ ap₂ (λ x y. x ∷ y) (==→eq c d e) (is_text-true t s (rw e at h))
  | inr e ↦ let q : false ≡ true = rw e at h in absurd (cc)
]

is_text_self : (t : List ℕ) → is_text t t ≡ true
is_text_self [] = refl
is_text_self (c ∷ t) = let e : (c == c) ≡ true = ground arith in rw e (is_text_self t)

pub starts_with-true : (t s : List ℕ) → starts_with t s ≡ true → (rest : List ℕ) × (t ≡ s ++ rest)
starts_with-true t [] h = (t, refl)
starts_with-true [] (d ∷ s) h = absurd (cc)
starts_with-true (c ∷ t) (d ∷ s) h = elim (Bool-cases (c == d)) [
  | inl e ↦
      let (rest, q) = starts_with-true t s (rw e at h) in (rest, ap₂ (λ x y. x ∷ y) (==→eq c d e) q)
  | inr e ↦ let q : false ≡ true = rw e at h in absurd (cc)
]

starts_with_append : (s rest : List ℕ) → starts_with (s ++ rest) s ≡ true
starts_with_append [] rest = refl
starts_with_append (c ∷ s) rest =
    let e : (c == c) ≡ true = ground arith in rw e (starts_with_append s rest)

split_last_lem : (c : ℕ) (s : List ℕ) → c ∷ s ≡ (split_last c s).0 ++ ((split_last c s).1 ∷ [])
split_last_lem c [] = refl
split_last_lem c (d ∷ s) = ap (λ x. c ∷ x) (split_last_lem d s)

tail : List ℕ → List ℕ
tail [] = []
tail (c ∷ s) = s

-- It is the only way to split.
split_last_only :
    (c : ℕ) (s front : List ℕ) (l : ℕ)
    → c ∷ s ≡ front ++ (l ∷ [])
    → ((split_last c s).0 ≡ front) × ((split_last c s).1 ≡ l)
unfolding tail
split_last_only c [] [] l h = (refl, ap (λ x. get_or x 0 0) h)
split_last_only c [] (f ∷ []) l h = absurd (let q : [] ≡ l ∷ [] = ap tail h in cc)
split_last_only c [] (f ∷ g ∷ front) l h =
    absurd (let q : [] ≡ g ∷ (front ++ (l ∷ [])) = ap tail h in cc)
split_last_only c (d ∷ s) [] l h = absurd (let q : d ∷ s ≡ [] = ap tail h in cc)
split_last_only c (d ∷ s) (f ∷ front) l h =
    let (a, b) = split_last_only d s front l (ap tail h) in
    (ap₂ (λ x y. x ∷ y) (ap (λ x. get_or x 0 0) h) a, b)

-- The test of a pattern decides that it stands for the text.
pub match_text-Matches : (t s : List ℕ) → (match_text t s ≡ true) ↔ Matches t s
unfolding match_text
match_text-Matches t [] = (λ h. inl refl, λ h. refl)
match_text-Matches t (c ∷ s) =
    let front = (split_last c s).0 in
    let last = (split_last c s).1 in
    elim (Bool-cases (last == 42)) [
      | inl e ↦
          let whole : c ∷ s ≡ front ++ star =
            split_last_lem c s ∙ ap (λ x. front ++ (x ∷ [])) (==→eq last 42 e) in
          rw e (
            λ h. let (rest, q) = starts_with-true t front h in inr (inl (front, rest, whole, q)),
            λ m. elim m [
              | inl q ↦ absurd (cc)
              | inr (inl (f, rest, q, r)) ↦
                  let g = (split_last_only c s f 42 q).0 in
                  subst (λ x. starts_with t x ≡ true) (sym g)
                    (subst (λ x. starts_with x f ≡ true) (sym r) (starts_with_append f rest))
              | inr (inr (q, other)) ↦ absurd (other front whole)
            ],
          )
      | inr e ↦ rw e (
        λ h. inr (
            inr (
              is_text-true t (c ∷ s) h,
              λ f q. ==_false→ne last 42 e (split_last_only c s f 42 q).1,
            )),
        λ m. elim m [
          | inl q ↦ absurd (cc)
          | inr (inl (f, rest, q, r)) ↦
              absurd (==_false→ne last 42 e (split_last_only c s f 42 q).1)
          | inr (inr (q, other)) ↦
              subst (λ x. is_text x (c ∷ s) ≡ true) (sym q) (is_text_self (c ∷ s))
        ],
      )
    ]

-- The entry with an index.
abbrev pub IsAt : List MachineEntry → ℕ → MachineEntry → Type 0
IsAt [] i e = ⊥
IsAt (d ∷ es) zero e = d ≡ e
IsAt (d ∷ es) (suc i) e = IsAt es i e

-- Every one of the four texts is matched.
abbrev pub MatchesEntry : Machine → Machine → Type 0
MatchesEntry m e =
    Matches m.sys_vendor e.sys_vendor
    × Matches m.sys_product e.sys_product
    × Matches m.sys_version e.sys_version
    × Matches m.bios_version e.bios_version

and-true : (a b : Bool) → ((a && b) ≡ true) ↔ ((a ≡ true) × (b ≡ true))
and-true true b = (λ h. (refl, h), λ h. h.1)
and-true false b = (λ h. absurd (cc), λ h. h.0)

match_entry-MatchesEntry : (m e : Machine) → (match_entry m e ≡ true) ↔ MatchesEntry m e
match_entry-MatchesEntry m e =
    let v = match_text-Matches m.sys_vendor e.sys_vendor in
    let p = match_text-Matches m.sys_product e.sys_product in
    let s = match_text-Matches m.sys_version e.sys_version in
    let b = match_text-Matches m.bios_version e.bios_version in
    (
      λ h.
          let (h1, r1) = (and-true _ _).0 h in
          let (h2, r2) = (and-true _ _).0 r1 in
          let (h3, h4) = (and-true _ _).0 r2 in (v.0 h1, p.0 h2, s.0 h3, b.0 h4),
      λ h.
          (and-true _ _).1
            (v.1 h.0, (and-true _ _).1 (p.1 h.1, (and-true _ _).1 (s.1 h.2, b.1 h.3))),
    )

-- What the search for an entry tells.
abbrev pub IsFirst : Machine → List MachineEntry → Option (ℕ × MachineEntry) → Type 0
IsFirst m es none = (j : ℕ) (e : MachineEntry) → IsAt es j e → ¬ MatchesEntry m e.pattern
IsFirst m es (some (i, e)) =
    IsAt es i e
    × MatchesEntry m e.pattern
    × ((j : ℕ) (d : MachineEntry) → j < i → IsAt es j d → ¬ MatchesEntry m d.pattern)

-- The same for entries that are counted from `k` on.
IsFirstFrom : Machine → List MachineEntry → ℕ → Option (ℕ × MachineEntry) → Type 0
IsFirstFrom m es k none = (j : ℕ) (e : MachineEntry) → IsAt es j e → ¬ MatchesEntry m e.pattern
IsFirstFrom m es k (some (i, e)) =
    (n : ℕ) × (i ≡ k + n)
    × IsAt es n e
    × MatchesEntry m e.pattern
    × ((j : ℕ) (d : MachineEntry) → j < n → IsAt es j d → ¬ MatchesEntry m d.pattern)

-- An entry that does not match goes in front.
skip_entry :
    (m : Machine) (e : MachineEntry) (es : List MachineEntry) (k : ℕ)
    (r : Option (ℕ × MachineEntry))
    → ¬ MatchesEntry m e.pattern
    → IsFirstFrom m es (k + 1) r
    → IsFirstFrom m (e ∷ es) k r
unfolding IsFirstFrom
skip_entry m e es k none ne h = nowhere
  where
    nowhere : (j : ℕ) (d : MachineEntry) → IsAt (e ∷ es) j d → ¬ MatchesEntry m d.pattern
    nowhere zero d at g = ne (subst (λ x. MatchesEntry m (MachineEntry.pattern x)) (sym at) g)
    nowhere (suc j) d at g = h j d at g
skip_entry m e es k (some (i, f)) ne (n, q, at, g, before) =
    (suc n, omega (arith, q), at, g, earlier)
  where
    earlier :
        (j : ℕ) (d : MachineEntry) → j < suc n → IsAt (e ∷ es) j d → ¬ MatchesEntry m d.pattern
    earlier zero d l x y = ne (subst (λ x. MatchesEntry m (MachineEntry.pattern x)) (sym x) y)
    earlier (suc j) d l x y = before j d (omega (arith, l)) x y

first_match-IsFirstFrom :
    (m : Machine) (es : List MachineEntry) (k : ℕ) → IsFirstFrom m es k (first_match m es k)
unfolding IsFirstFrom
first_match-IsFirstFrom m [] k = λ j e at. absurd at
first_match-IsFirstFrom m (e ∷ es) k = elim (Bool-cases (match_entry m e.pattern)) [
  | inl t ↦ rw t (
    0,
    omega arith,
    refl,
    (match_entry-MatchesEntry m e.pattern).0 t,
    λ j d l. absurd (omega (arith, l)),
  )
  | inr t ↦
      let ne : ¬ MatchesEntry m e.pattern = λ g.
        let q : true ≡ false = sym ((match_entry-MatchesEntry m e.pattern).1 g) ∙ t in
        absurd (cc) in
      rw t
        (skip_entry m e es k (first_match m es (k + 1)) ne (first_match-IsFirstFrom m es (k + 1)))
]

from_zero :
    (m : Machine) (es : List MachineEntry) (r : Option (ℕ × MachineEntry))
    → IsFirstFrom m es 0 r
    → IsFirst m es r
unfolding IsFirstFrom
from_zero m es none h = h
from_zero m es (some (i, e)) (n, q, at, g, before) =
    let same : n ≡ i = omega (arith, q) in
    (subst (λ x. IsAt es x e) same at, g, λ j d l. before j d (omega (arith, l, q)))

-- The entry that is found is the first of the whitelist that matches the machine; none is found only
-- when none matches.
pub machine_match-IsFirst :
    (m : Machine) (whitelist : List MachineEntry) → IsFirst m whitelist (machine_match m whitelist)
unfolding machine_match
machine_match-IsFirst m whitelist =
    from_zero m whitelist (first_match m whitelist 0) (first_match-IsFirstFrom m whitelist 0)
