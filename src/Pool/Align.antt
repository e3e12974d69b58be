-- ===== src/Pool/Align.antt =====
-- The alignment that `getmem` of memalloc.c chooses for an area.
use native.Mathlib.Nat.{pow-suc}
use suspend.Common.{
  ℕ, zero, suc, ◌*◌, ◌%◌, ◌^◌, ◌≤◌, ◌<◌, ◌≡◌, refl, ◌⊎◌, Bool-cases, inl, inr, arith, leb, ltb,
  tests,
}
use suspend.Pool.{align_size, grow}

pub pow-pos : (j : ℕ) → 0 < 2 ^ j
pow-pos zero = omega arith
pow-pos (suc j) = rw pow-suc (omega (arith, pow-pos j))

mul-pow-zero : (a : ℕ) → a * 2 ^ 0 ≡ a
mul-pow-zero a = omega arith

mul-pow-suc : (a j : ℕ) → a * 2 ^ suc j ≡ a * 2 * 2 ^ j
mul-pow-suc a j = rw pow-suc (omega arith)

pub le-mul-pow : (a j : ℕ) → a ≤ a * 2 ^ j
le-mul-pow a j = let p = pow-pos j in grind arith

pub pow_le : (i j : ℕ) → i ≤ j → 2 ^ i ≤ 2 ^ j
pow_le zero j h = pow-pos j
pow_le (suc i) zero h = absurd (omega arith)
pow_le (suc i) (suc j) h = rw (pow-suc 2 i, pow-suc 2 j) (omega (arith, pow_le i j (omega arith)))

page_le : (page j : ℕ) → page ≡ 8 * 2 ^ j → j < 29 → page ≤ 2 ^ 31
page_le page j e h = let p : 2 ^ j ≤ 2 ^ 28 = pow_le j 28 (omega arith) in omega arith

-- A power-of-two multiple of `a`, as the page size is of every alignment.
abbrev pub Scaled : ℕ → ℕ → Type 0
Scaled page a = (j : ℕ) × (page ≡ a * 2 ^ j)

grow_lem :
    (f a size page j : ℕ)
    → page ≡ a * 2 ^ j
    → j < f
    → size < page
    → page ≤ 2 ^ 31
    → Scaled page (grow f a size) × (size ≤ grow f a size)
unfolding grow
grow_lem zero a size page j e hj hs hp = absurd (omega arith)
grow_lem (suc f) a size page zero e hj hs hp = elim (Bool-cases (ltb a size)) [
  | inl t ↦ absurd (omega (tests, mul-pow-zero a))
  | inr t ↦ rw (t, grow) ((zero, e), omega tests)
]
grow_lem (suc f) a size page (suc j) e hj hs hp = elim (Bool-cases (ltb a size)) [
  | inl t ↦
      let fits : a * 2 % 2 ^ 32 ≡ a * 2 = omega (arith, le-mul-pow a j, mul-pow-suc a j) in
      rw (t, grow, fits)
        (grow_lem f (a * 2) size page j (omega (arith, mul-pow-suc a j)) (omega arith) hs hp)
  | inr t ↦ rw (t, grow) ((suc j, e), omega tests)
]

-- The alignment chosen divides the page size by a power of two; it is at least 8 and at least the
-- size, or it is the page itself.
pub align_size_lem :
    (page size j : ℕ)
    → page ≡ 8 * 2 ^ j
    → j < 29
    → Scaled page (align_size page size)
      × ((size ≤ align_size page size) ⊎ (align_size page size ≡ page))
unfolding align_size
align_size_lem page size j e hj = elim (Bool-cases (leb page size)) [
  | inl t ↦ rw t ((0, omega (arith, mul-pow-zero page)), inr refl)
  | inr t ↦
      let (s, le) =
        grow_lem 32 8 size page j e (omega arith) (ground arith) (page_le page j e hj) in
      rw t (s, inl le)
]
