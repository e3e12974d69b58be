-- ===== src/SwapAlloc/Tests.antt =====
-- `alloc_swap` of suspend.c against kernels that hand out the pages downwards or from a list.
use suspend.Common.{
  ℕ, ◌-◌, ◌≡◌, refl, false, ltb, leb, List, [], ◌∷◌, arith, if◌then◌else◌, Bool-cases, inl, inr,
}
use suspend.Extents.{Extents, nothing, add_page}
use suspend.SwapAlloc.{
  Reply, granted, refused, unsupported, SwapDevice, IsAllocator, Accounts, get_swap_page,
  alloc_swap,
}
use suspend.SwapAlloc.Loop.{IsFull, alloc_swap-IsFull}

-- All swap from the state on is in use.
abbrev down_reply : ℕ → Reply × ℕ
down_reply n = if ltb n 16 then (refused, n) else (granted (n - 16), n - 16)

abbrev downwards : SwapDevice
downwards = record { State = ℕ; alloc_swap_page = down_reply; old_get_swap_page = down_reply }

down_law : (n : ℕ) → Accounts 16 (down_reply n).0 (leb n) (leb (down_reply n).1)
down_law n = elim (Bool-cases (ltb n 16)) [
  | inl t ↦ rw t (λ y. refl)
  | inr t ↦ rw t (λ y. (ground arith, λ h. ground arith))
]

downwards-IsAllocator : IsAllocator downwards 16
downwards-IsAllocator = record { used = leb; alloc_law = down_law; old_law = down_law }

abbrev unused : Extents
unused = record { live = []; rest = nothing ∷ nothing ∷ nothing ∷ [] }

alloc_swap_run : alloc_swap downwards 16 2 40 unused 100 ≡ record {
  failed = false;
  exts = record { live = record { start = 52; end = 100 } ∷ []; rest = nothing ∷ nothing ∷ [] };
  size = 48;
  dev = 52;
}
unfolding alloc_swap get_swap_page add_page
alloc_swap_run = refl

alloc_swap_ok : (alloc_swap downwards 16 2 40 unused 100).failed ≡ false
unfolding alloc_swap get_swap_page add_page
alloc_swap_ok = refl

alloc_swap-IsFull_example :
    IsFull downwards 16 downwards-IsAllocator
      (omega arith)
      2
      40
      (omega arith)
      []
      100
      (alloc_swap downwards 16 2 40 unused 100)
alloc_swap-IsFull_example =
    alloc_swap-IsFull downwards 16 downwards-IsAllocator (omega arith) 2 40 (omega arith) unused 100
      tt (omega arith) (λ y h. absurd (ground arith)) alloc_swap_ok

-- A kernel that answers from a list, by the old ioctl only.
abbrev from_list : List ℕ → Reply × List ℕ
from_list [] = (refused, [])
from_list (o ∷ os) = (granted o, os)

abbrev listed : SwapDevice
listed = record {
  State = List ℕ;
  alloc_swap_page = λ l. (unsupported, l);
  old_get_swap_page = from_list;
}

-- The page at 32 joins its two neighbours; the second of them stays behind the end as it was.
stale_run : (alloc_swap listed 16 3 48 unused (16 ∷ 48 ∷ 32 ∷ [])).exts ≡ record {
  live = record { start = 16; end = 64 } ∷ [];
  rest = record { start = 48; end = 64 } ∷ nothing ∷ [];
}
unfolding alloc_swap get_swap_page add_page
stale_run = refl
