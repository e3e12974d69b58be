-- ===== src/Swap/Log.antt =====
-- The writes to the resume device in order. Where no offset is written twice, every page that was
-- written is read back.
use suspend.Common.{ℕ, ◌≡◌, ◌≢◌, ◌⊎◌, inl, inr, ◌==◌, ==→eq, true, Bool-cases, List, [], ◌∷◌, arith}
use suspend.Swap.{find_write}

module _ {Page : Type 0} where
  -- The page was written to the offset.
  abbrev pub Wrote : List (ℕ × Page) → ℕ → Page → Type 0
  Wrote [] offset p = ⊥
  Wrote ((o, q) ∷ ws) offset p = ((o ≡ offset) × (q ≡ p)) ⊎ Wrote ws offset p

  -- Nothing was written to the offset.
  abbrev pub IsUnwritten : List (ℕ × Page) → ℕ → Type 0
  IsUnwritten [] offset = Unit
  IsUnwritten ((o, q) ∷ ws) offset = (o ≢ offset) × IsUnwritten ws offset

  -- No offset was written twice.
  abbrev pub IsDistinct : List (ℕ × Page) → Type 0
  IsDistinct [] = Unit
  IsDistinct ((o, q) ∷ ws) = IsUnwritten ws o × IsDistinct ws

  unwritten_no :
      (ws : List (ℕ × Page)) (offset : ℕ) (p : Page) → IsUnwritten ws offset → Wrote ws offset p → ⊥
  unwritten_no [] offset p u w = w
  unwritten_no ((o, q) ∷ ws) offset p u (inl e) = u.0 e.0
  unwritten_no ((o, q) ∷ ws) offset p u (inr w) = unwritten_no ws offset p u.1 w

  pub find_write_lem :
      (ws : List (ℕ × Page)) (old : Page) (offset : ℕ) (p : Page)
      → IsDistinct ws
      → Wrote ws offset p
      → find_write ws old offset ≡ p
  find_write_lem [] old offset p d w = absurd w
  find_write_lem ((o, q) ∷ ws) old offset p d (inl e) =
      let t : (o == offset) ≡ true = ground arith in rw t e.1
  find_write_lem ((o, q) ∷ ws) old offset p d (inr w) = elim (Bool-cases (o == offset)) [
    | inl t ↦ absurd (unwritten_no ws offset p (rw (==→eq o offset t) at d.0) w)
    | inr t ↦ rw t (find_write_lem ws old offset p d.1 w)
  ]
