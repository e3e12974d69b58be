-- ===== src/Threads/Stream.antt =====
-- Pages encrypted and saved one after another, as the threads of suspend.c do it in the end.
use suspend.Common.{◌≡◌, refl, Bool, List, [], ◌∷◌, ◌++◌, ◌∙◌, ap, if◌then◌else◌}
use suspend.Swap.{Status, ok}

module _ (C W Page : Type 0) (do_encrypt : Bool) (encrypt : C → Page → Status × Page × C)
    (save_page : W → Page → Status × W) where
  -- What becomes of a page before it is saved.
  abbrev pub prepare : C → Page → Status × Page × C
  prepare c p = if do_encrypt then encrypt c p else (ok, p, c)

  -- The pages become those of the second list, and the cipher goes from one state to the other.
  abbrev pub Prepares : C → List Page → List Page → C → Type 0
  Prepares c [] qs c' = (qs ≡ []) × (c ≡ c')
  Prepares c (p ∷ ps) [] c' = ⊥
  Prepares c (p ∷ ps) (q ∷ qs) c' = (d : C) × (prepare c p ≡ (ok, q, d)) × Prepares d ps qs c'

  -- `save_page` succeeds on each of the pages.
  abbrev pub Saves : W → List Page → W → Type 0
  Saves w [] w' = w ≡ w'
  Saves w (q ∷ qs) w' = (v : W) × (save_page w q ≡ (ok, v)) × Saves v qs w'

  pub Prepares-snoc :
      (c : C) (ps qs : List Page) (d : C) (p q : Page) (e : C)
      → Prepares c ps qs d
      → prepare d p ≡ (ok, q, e)
      → Prepares c (ps ++ (p ∷ [])) (qs ++ (q ∷ [])) e
  Prepares-snoc c [] [] d p q e (_, h) g = (e, ap (λ x. prepare x p) h ∙ g, (refl, refl))
  Prepares-snoc c [] (r ∷ qs) d p q e (h, _) g = absurd (cc)
  Prepares-snoc c (p' ∷ ps) [] d p q e h g = absurd h
  Prepares-snoc c (p' ∷ ps) (q' ∷ qs) d p q e (x, h, r) g =
      (x, h, Prepares-snoc x ps qs d p q e r g)

  pub Saves-snoc :
      (w : W) (qs : List Page) (v : W) (q : Page) (u : W)
      → Saves w qs v
      → save_page v q ≡ (ok, u)
      → Saves w (qs ++ (q ∷ [])) u
  Saves-snoc w [] v q u h g = (u, ap (λ x. save_page x q) h ∙ g, refl)
  Saves-snoc w (q' ∷ qs) v q u (x, h, r) g = (x, h, Saves-snoc x qs v q u r g)
