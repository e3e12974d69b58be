-- ===== src/Pool/Search.antt =====
-- The binary search of `freemem` (memalloc.c) finds exactly the slot with the given address.
use suspend.Common.{ℕ, zero, suc, ◌+◌, ◌/◌, ◌≤◌, ◌<◌, ◌≡◌, List, some, arith, dec_lt, ℕ_discrete}
use suspend.Pool.{Slot, slot, find}

-- The addresses of the slots `i` to `j` increase strictly.
abbrev pub IsIncreasing : List Slot → ℕ → ℕ → Type 0
IsIncreasing s i j = (a b : ℕ) → i ≤ a → a < b → b ≤ j → (slot s a).addr < (slot s b).addr

-- Whatever is found has the address.
pub find_sound :
    (f : ℕ) (s : List Slot) (address i j : ℕ) {k : ℕ}
    → i ≤ j
    → find f s address i j ≡ some k
    → ((slot s k).addr ≡ address) × (i ≤ k) × (k ≤ j)
unfolding find
find_sound zero s address i j le h = ground arith
find_sound (suc f) s address i j {k} le h = ground (
  arith,
  find_sound f s address ((i + j) / 2) j {k = k},
  find_sound f s address i ((i + j) / 2) {k = k},
)

-- A slot of the range that has the address is found.
pub find_complete :
    (f : ℕ) (s : List Slot) (i j m : ℕ)
    → IsIncreasing s i j
    → i ≤ m
    → m ≤ j
    → j < i + f
    → find f s (slot s m).addr i j ≡ some m
unfolding find
find_complete zero s i j m inc lo hi fuel = absurd (omega arith)
find_complete (suc f) s i j m inc lo hi fuel =
    let k = (i + j) / 2 in
    elim (ℕ_discrete m k) [
      | yes e ↦ ground arith
      | no ne ↦ elim (dec_lt k m) [
        | yes up ↦ ground (
          arith,
          inc k m (omega arith) up hi,
          find_complete f s k j m (λ a b la lb lj. inc a b (omega arith) lb lj) (omega arith) hi,
        )
        | no down ↦ ground (
          arith,
          inc m k lo (omega arith) (omega arith),
          find_complete f s i k m (λ a b la lb lj. inc a b la lb (omega arith)) lo (omega arith),
        )
      ]
    ]
