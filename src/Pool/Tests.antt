-- ===== src/Pool/Tests.antt =====
-- The functions of memalloc.c on a pool of three pages with two areas in use.
use suspend.Common.{
  ℕ, zero, suc, ◌+◌, ◌*◌, ◌≤◌, ◌<◌, ◌≡◌, ◌≢◌, ◌↔◌, refl, some, none, arith, [], ◌∷◌,
}
use suspend.Pool.{
  Pool, slot, blank, getmem, next_offset, align_size, freemem, init_memalloc, round_up_page_size,
  page_align,
}
use suspend.Pool.Bounds.{IsValid}
use suspend.Pool.Free.{IsLive, IsFreed, freemem-IsFreed, freemem_unknown, freemem-getmem}
use suspend.Pool.Startup.{init_memalloc-IsValid}

abbrev used : Pool
used = record {
  page_size = 4096;
  mem_pool = 8192;
  pool_size = 12288;
  slots =
      record { addr = 8192; size = 100 }
      ∷ record { addr = 12288; size = 4096 }
      ∷ blank
      ∷ blank
      ∷ [];
  nr_slots = 4;
  cur = 2;
}

abbrev more : Pool
more = record used {
  slots =
      record { addr = 8192; size = 100 }
      ∷ record { addr = 12288; size = 4096 }
      ∷ record { addr = 16384; size = 200 }
      ∷ blank
      ∷ [];
  cur = 3;
}

used-IsValid : IsValid used
used-IsValid = record {
  counted = refl;
  cur_le = omega arith;
  small = omega arith;
  shift = 9;
  page = refl;
  shift_lt = omega arith;
  start = refl;
  within = within;
  sorted = sorted;
  last = λ _. omega arith;
}
  where
    within :
        (i : ℕ)
        → i < 2
        → (8192 ≤ (slot used.slots i).addr)
          × ((slot used.slots i).addr + (slot used.slots i).size ≤ 8192 + 12288)
    within zero h = omega arith
    within (suc zero) h = omega arith
    within (suc (suc i)) h = absurd (omega arith)

    sorted :
        (i j : ℕ)
        → i < j
        → j < 2
        → ((slot used.slots i).addr < (slot used.slots j).addr)
          × ((slot used.slots i).addr + (slot used.slots i).size ≤ (slot used.slots j).addr)
    sorted i zero h g = absurd (omega arith)
    sorted zero (suc zero) h g = omega arith
    sorted (suc i) (suc zero) h g = absurd (omega arith)
    sorted i (suc (suc j)) h g = absurd (omega arith)

getmem_run : getmem used 200 ≡ (some 16384, more)
unfolding getmem next_offset align_size
getmem_run = refl

getmem_full : getmem used 4097 ≡ (none, used)
unfolding getmem next_offset align_size
getmem_full = refl

-- With the last area freed, an area that was freed before it goes as well.
freemem_both : (freemem (freemem used 8192) 12288).cur ≡ 0
unfolding freemem
freemem_both = refl

freemem-IsFreed_example : IsFreed used 0 (freemem used 8192)
freemem-IsFreed_example = freemem-IsFreed 0 used-IsValid (omega arith)

unknown : (i : ℕ) → i < 2 → (slot used.slots i).addr ≢ 8200
unknown zero h = omega arith
unknown (suc zero) h = omega arith
unknown (suc (suc i)) h = absurd (omega arith)

freemem_unknown_example : freemem used 8200 ≡ used
freemem_unknown_example = freemem_unknown used 8200 unknown

freemem-getmem_example :
    (IsLive (freemem more 16384) 1 ↔ IsLive used 1)
    × (IsLive used 1 → slot (freemem more 16384).slots 1 ≡ slot used.slots 1)
freemem-getmem_example = freemem-getmem 200 used-IsValid (omega arith) getmem_run 1

abbrev fresh : Pool
fresh = record {
  page_size = 16;
  mem_pool = 128;
  pool_size = 32;
  slots = blank ∷ blank ∷ [];
  nr_slots = 2;
  cur = 0;
}

init_run : init_memalloc 16 (λ n. some 84) blank 24 20 ≡ some fresh
unfolding init_memalloc round_up_page_size page_align
init_run = refl

init_memalloc-IsValid_example :
    IsValid fresh
    × (fresh.cur ≡ 0)
    × (20 ≤ 32)
    × (84 + 16 * 2 ≤ 128)
    × (128 + 32 ≤ 84 + (round_up_page_size 16 24 + round_up_page_size 16 20 + 16))
init_memalloc-IsValid_example =
    init_memalloc-IsValid 16 1 (λ n. some 84) blank 24 20 refl (omega arith) (omega arith) refl
      init_run
