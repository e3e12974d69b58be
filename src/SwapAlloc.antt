-- ===== src/SwapAlloc.antt =====
-- Allocation of swap pages: `get_swap_page` and `alloc_swap` of suspend.c.
-- The kernel's side is a parameter: the two ioctls that hand out a page, over a state of their own.
pub mod Total
pub mod Loop
pub mod Shape
mod Tests
use suspend.Common.{
  ℕ, zero, suc, ◌+◌, ◌≡◌, Bool, true, false, ◌&&◌, ◌||◌, List, [], ◌∷◌, ltb, leb, ◌==◌,
  if◌then◌else◌, length, drop,
}
use suspend.Extents.{Extent, Extents, add_page}
use suspend.Extents.Cover.{in_page}

-- What an ioctl that allocates a page of swap answers; `unsupported` is the error ENOTTY.
pub data Reply : Type 0 where
  granted : ℕ → Reply
  unsupported refused : Reply

pub record SwapDevice : Type 1 where
  pub State : Type 0
  pub alloc_swap_page : State → Reply × State  -- SNAPSHOT_ALLOC_SWAP_PAGE
  pub old_get_swap_page : State → Reply × State  -- SNAPSHOT_GET_SWAP_PAGE

-- An answer, with what is in use before and after it: a page is granted only if it is free, and a
-- call that grants none changes nothing.
abbrev pub Accounts : ℕ → Reply → (ℕ → Bool) → (ℕ → Bool) → Type 0
Accounts page (granted offset) before after =
    (y : ℕ)
    → (after y ≡ (before y || in_page page offset y))
      × (in_page page offset y ≡ true → before y ≡ false)
Accounts page unsupported before after = (y : ℕ) → after y ≡ before y
Accounts page refused before after = (y : ℕ) → after y ≡ before y

-- The kernel keeps account of the bytes of swap in use.
pub record IsAllocator (k : SwapDevice) (page : ℕ) : Type 0 where
  pub used : k.State → ℕ → Bool
  pub alloc_law :
      (d : k.State) → Accounts page (k.alloc_swap_page d).0 (used d) (used (k.alloc_swap_page d).1)
  pub old_law :
      (d : k.State)
      → Accounts page (k.old_get_swap_page d).0 (used d) (used (k.old_get_swap_page d).1)

-- What `alloc_swap` leaves: whether it failed with -ENOSPC, the array, the bytes allocated.
pub record Allocation (D : Type 0) : Type 0 where
  pub failed : Bool
  pub exts : Extents
  pub size : ℕ
  pub dev : D

abbrev pub offset_of : Reply → ℕ
offset_of (granted offset) = offset
offset_of unsupported = 0
offset_of refused = 0

module _ (k : SwapDevice) where
  open k use {State, alloc_swap_page, old_get_swap_page}

  -- 0 stands for failure. The old ioctl is tried if the new one is not supported.
  pub after_first : Reply × State → ℕ × State
  after_first (granted offset, d) = (offset, d)
  after_first (refused, d) = (0, d)
  after_first (unsupported, d) = let (r, d') = old_get_swap_page d in (offset_of r, d')

  unfoldable pub get_swap_page : State → ℕ × State
  unfolding after_first
  get_swap_page d = after_first (alloc_swap_page d)

  module _ (page max total : ℕ) where
    -- The `while` loop of `alloc_swap`. Each round adds a page, so `total` rounds are enough.
    pub alloc_loop : ℕ → Extents → ℕ → State → Allocation State
    alloc_loop zero x size d = record { failed = false; exts = x; size = size; dev = d }
    alloc_loop (suc fuel) x size d =
        let offset = (get_swap_page d).0 in
        let d' = (get_swap_page d).1 in
        let rest = alloc_loop fuel (add_page page max x offset) (size + page) d' in
        if ltb size total && leb (length x.live) max
        then (if offset == 0
            then record { failed = true; exts = x; size = size; dev = d' }
            else rest)
        else record { failed = false; exts = x; size = size; dev = d }

    -- The first extent is put at the start of the array; an array in use is taken as it is.
    pub first_extent : Extents → ℕ → Extents
    first_extent x offset = record {
      live = record { start = offset; end = offset + page } ∷ [];
      rest = drop 1 x.rest;
    }

    unfoldable pub alloc_swap : Extents → State → Allocation State
    unfolding alloc_loop first_extent
    alloc_swap x d =
        let offset = (get_swap_page d).0 in
        let d' = (get_swap_page d).1 in
        let started = alloc_loop total (first_extent x offset) page d' in
        let continued = alloc_loop total x 0 d in
        if length x.live == 0
        then (if offset == 0
            then record { failed = true; exts = x; size = total; dev = d' }
            else started)
        else continued
