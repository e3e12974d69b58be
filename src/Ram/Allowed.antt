-- ===== src/Ram/Allowed.antt =====
-- When s2ram puts the machine to sleep: with a KMS driver, on a demand in the configuration or by an
-- option, or because the whitelist knows the machine.
use suspend.Common.{
  ℕ, suc, arith, ◌++◌, ◌≡◌, ◌⊎◌, inl, inr, refl, Bool, true, false, not, ◌&&◌, Bool-cases, List, [],
  ◌∷◌, ◌==◌, ==→eq, Option, none, some, ap, sym, ◌∙◌, subst, if◌then◌else◌,
}
use suspend.Ram.{
  Code, plain, is_zero, Options, MachineEntry, ConfigFile, any_flag, s2ram_check, machine_match,
  s2ram_is_supported, get_s2ram_config, s2ram_check_kms, starts_with, has_card,
}
use mathlib.Core.List.{Memᴰ}
use suspend.Ram.Matching.{starts_with-true}
use suspend.Ram.Run.{Event, asked_to_sleep, World, Ram, after_config, main}
use suspend.Ram.Settled.{fresh}

abbrev pub is_asleep : List Event → Bool
is_asleep [] = false
is_asleep (asked_to_sleep ∷ l) = true
is_asleep (_ ∷ l) = is_asleep l

-- The whitelist has an entry for the machine, which may be used with this frame buffer; without
-- --force no flags come from the options.
abbrev pub IsKnown : World → Options → Type 0
IsKnown w o =
    (i : ℕ) × (e : MachineEntry) × (machine_match w.machine w.whitelist ≡ some (i, e))
    × ((e.flags.nofb && w.is_framebuffer) ≡ false)
    × (any_flag o.flags ≡ false)

abbrev pub IsDemanded : World → Type 0
IsDemanded w =
    (c : ConfigFile) × (w.config ≡ some c) × (is_zero c.error ≡ true) × (c.s2ram_force ≡ 121)

-- /sys/class/drm has an entry that starts with "card0-".
abbrev pub HasKms : World → Options → Type 0
HasKms w o =
    (o.no_kms_flag ≡ false)
    × ((names : List (List ℕ)) × (rest : List ℕ) × (w.drm ≡ some names)
        × Memᴰ ((99 ∷ 97 ∷ 114 ∷ 100 ∷ 48 ∷ 45 ∷ []) ++ rest) names)

card_found :
    (names : List (List ℕ))
    → has_card names ≡ true
    → (rest : List ℕ) × Memᴰ ((99 ∷ 97 ∷ 114 ∷ 100 ∷ 48 ∷ 45 ∷ []) ++ rest) names
card_found [] h = absurd (cc)
card_found (d ∷ ds) h = elim (Bool-cases (starts_with d (99 ∷ 97 ∷ 114 ∷ 100 ∷ 48 ∷ 45 ∷ []))) [
  | inl t ↦
      let (rest, e) = starts_with-true d (99 ∷ 97 ∷ 114 ∷ 100 ∷ 48 ∷ 45 ∷ []) t in
      (rest, Memᴰ.head (sym e))
  | inr t ↦ let (rest, m) = card_found ds (rw t at h) in (rest, Memᴰ.tail m)
]

kms_found :
    (w : World) (o : Options) (drm : Option (List (List ℕ)))
    → w.drm ≡ drm
    → o.no_kms_flag ≡ false
    → is_zero (s2ram_check_kms drm w.errno) ≡ true
    → HasKms w o
unfolding s2ram_check_kms
kms_found w o none e f h = let q : (suc w.errno == 0) ≡ false = ground arith in absurd (cc)
kms_found w o (some names) e f h = elim (Bool-cases (has_card names)) [
  | inl t ↦ let (rest, m) = card_found names t in (f, (names, rest, e, m))
  | inr t ↦ let q : false ≡ true = rw t at h in absurd (cc)
]

config_demands :
    (w : World) (o : Options) (c : Option ConfigFile)
    → w.config ≡ c
    → is_zero (get_s2ram_config c o).0 ≡ true
    → IsDemanded w
unfolding get_s2ram_config
config_demands w o none e h = absurd (cc)
config_demands w o (some c) e h = elim (Bool-cases (is_zero c.error)) [
  | inr t ↦ let q : false ≡ true = sym t ∙ (rw t at h) in absurd (cc)
  | inl t ↦ elim (Bool-cases (c.s2ram_force == 121)) [
    | inl u ↦ (c, e, t, ==→eq c.s2ram_force 121 u)
    | inr u ↦ let q : false ≡ true = rw (t, u) at h in absurd (cc)
  ]
]

entry_allows :
    (w : World) (o : Options) (x : Option (ℕ × MachineEntry))
    → machine_match w.machine w.whitelist ≡ x
    → any_flag o.flags ≡ false
    → is_zero (s2ram_check w.is_framebuffer o x).0 ≡ true
    → IsKnown w o
entry_allows w o none e f h = absurd (cc)
entry_allows w o (some (i, x)) e f h = elim (Bool-cases (x.flags.nofb && w.is_framebuffer)) [
  | inr t ↦ (i, x, e, t, f)
  | inl t ↦ let q : false ≡ true = rw t at h in absurd (cc)
]

supported_allows :
    (w : World) (o : Options)
    → is_zero (s2ram_is_supported w.is_framebuffer w.machine w.whitelist o).0 ≡ true
    → (o.force ≡ true) ⊎ IsKnown w o
unfolding s2ram_is_supported
supported_allows w o h = pick o.force (any_flag o.flags) refl refl h
  where
    pick :
        (a b : Bool)
        → o.force ≡ a
        → any_flag o.flags ≡ b
        → is_zero
            (if a
              then (plain 0, o)
              else if b
              then (plain 22, o)
              else s2ram_check w.is_framebuffer o (machine_match w.machine w.whitelist)).0
          ≡ true
        → (o.force ≡ true) ⊎ IsKnown w o
    pick true b e f g = inl e
    pick false true e f g = absurd (cc)
    pick false false e f g = inr (entry_allows w o (machine_match w.machine w.whitelist) refl f g)

-- Only a config that demands it leaves the options as they are.
no_config :
    (c : Option ConfigFile) (o : Options)
    → is_zero (get_s2ram_config c o).0 ≡ false
    → (get_s2ram_config c o).1 ≡ o
unfolding get_s2ram_config
no_config none o h = refl
no_config (some c) o h = elim (Bool-cases (is_zero c.error)) [
  | inr t ↦ rw t refl
  | inl t ↦ elim (Bool-cases (c.s2ram_force == 121)) [
    | inl u ↦ let q : true ≡ false = rw (t, u) at h in absurd (cc)
    | inr u ↦ rw (t, u) refl
  ]
]

-- A test decides between two ways, of which the second does not sleep.
chosen :
    (b : Bool) (x y : Code × Ram)
    → is_asleep (if b then x else y).1.log ≡ true
    → (b ≡ true) ⊎ (is_asleep y.1.log ≡ true)
chosen true x y h = inl refl
chosen false x y h = inr h

abbrev pub IsAllowed : World → Options → Type 0
IsAllowed w o = HasKms w o ⊎ IsDemanded w ⊎ (o.force ≡ true) ⊎ IsKnown w o

config_allows :
    (w : World) (o o' : Options) (c : Code)
    → get_s2ram_config w.config o ≡ (c, o')
    → is_asleep (after_config w (c, o') fresh).1.log ≡ true
    → IsAllowed w o
config_allows w o o' c e h = elim (chosen (is_zero c) _ _ h) [
  | inl t ↦ inr (inl (config_demands w o w.config refl (ap (λ x. is_zero x.0) e ∙ t)))
  | inr g ↦ elim (Bool-cases (is_zero c)) [
    | inl t ↦ inr (inl (config_demands w o w.config refl (ap (λ x. is_zero x.0) e ∙ t)))
    | inr t ↦
        let same : o' ≡ o =
          sym (ap (λ x. x.1) e) ∙ no_config w.config o (ap (λ x. is_zero x.0) e ∙ t) in
        let y = s2ram_is_supported w.is_framebuffer w.machine w.whitelist o' in
        elim (chosen (is_zero y.0) _ _ g) [
          | inl u ↦
              inr (inr (subst (λ x. (x.force ≡ true) ⊎ IsKnown w x) same (supported_allows w o' u)))
          | inr u ↦ absurd (cc)
        ]
  ]
]

-- If s2ram asks for sleep, then /sys/class/drm has an entry that starts with "card0-" and the test for
-- KMS is not disabled, or the configuration or an option demands it, or the whitelist has an entry for the machine that may be used with its frame buffer and
-- the options set no flags.
pub main-IsAllowed :
    (w : World) (o : Options) → is_asleep (main w o fresh).1.log ≡ true → IsAllowed w o
unfolding main
main-IsAllowed w o h =
    elim (chosen (not o.no_kms_flag && is_zero (s2ram_check_kms w.drm w.errno)) _ _ h) [
      | inl t ↦
          let (a, b) = both o.no_kms_flag (is_zero (s2ram_check_kms w.drm w.errno)) t in
          inl (kms_found w o w.drm refl a b)
      | inr g ↦
          config_allows w o (get_s2ram_config w.config o).1 (get_s2ram_config w.config o).0 refl g
    ]
  where
    both : (a b : Bool) → (not a && b) ≡ true → (a ≡ false) × (b ≡ true)
    both true b e = absurd (cc)
    both false b e = (refl, e)
