-- ===== src/Pool/Startup.antt =====
-- `init_memalloc` of memalloc.c lays out the slots and the pool inside the block from malloc.
use native.Mathlib.Nat.{div-add-mod, mod-lt, mul_comm, mul-mod_left}
use suspend.Common.{
  length-replicate, ℕ, ◌+◌, ◌*◌, ◌/◌, ◌%◌, ◌^◌, ◌≤◌, ◌<◌, ◌≡◌, refl, inl, inr, Bool-cases, Option,
  some, arith, ltb, tests, Option-cases,
}
use suspend.Pool.{Pool, Slot, init_memalloc, round_up_page_size, page_align, pool_in}
use suspend.Pool.Align.{pow-pos}
use suspend.Pool.Bounds.{IsValid, round_up_bounds}

page_align_bounds :
    (page mem : ℕ)
    → 0 < page
    → (mem ≤ page_align page mem)
      × (page_align page mem ≤ mem + page)
      × (page_align page mem % page ≡ 0)
unfolding page_align
page_align_bounds page mem h =
    let d = div-add-mod mem page in
    let l = mod-lt mem {m = page} h in
    let c = mul_comm page (mem / page) in
    elim (Bool-cases (ltb (mem / page * page) mem)) [
      | inl t ↦
          let e : mem / page * page + page ≡ (mem / page + 1) * page = omega arith in
          rw t (omega tests, omega tests, rw e (mul-mod_left (mem / page + 1) page))
      | inr t ↦ rw t (omega arith, omega arith, omega tests)
    ]

round_up_page_size_bounds :
    (page size : ℕ)
    → 0 < page
    → (size ≤ round_up_page_size page size) × (round_up_page_size page size < size + page)
unfolding round_up_page_size
round_up_page_size_bounds page size h = round_up_bounds size page h

-- The pool that start-up sets up is valid and empty, holds the number of bytes asked for, and lies
-- inside the block from malloc, behind the array of slots.
pub init_memalloc-IsValid :
    (page j : ℕ) (malloc : ℕ → Option ℕ) (junk : Slot) (aux size : ℕ) {block : ℕ} {p : Pool}
    → page ≡ 8 * 2 ^ j
    → j < 29
    → size + 2 * page ≤ 2 ^ 32
    → malloc (round_up_page_size page aux + round_up_page_size page size + page) ≡ some block
    → init_memalloc page malloc junk aux size ≡ some p
    → IsValid p
      × (p.cur ≡ 0)
      × (size ≤ p.pool_size)
      × (block + 16 * p.nr_slots ≤ p.mem_pool)
      × (p.mem_pool + p.pool_size
          ≤ block + (round_up_page_size page aux + round_up_page_size page size + page))
unfolding init_memalloc pool_in
init_memalloc-IsValid page j malloc junk aux size {block} {p} e hj hs m h =
    let state : pool_in page junk slots_size pool_size block ≡ p = ground arith in
    rw (← state) (
      record {
        counted = length-replicate (slots_size / 16) junk;
        cur_le = omega arith;
        small = omega (arith, sizes);
        shift = j;
        page = e;
        shift_lt = hj;
        start = aligned.2;
        within = λ i lt. absurd (omega (arith, lt));
        sorted = λ i k _ lt. absurd (omega (arith, lt));
        last = λ lt. absurd (omega (arith, lt));
      },
      refl,
      omega (arith, sizes),
      omega (arith, aligned),
      omega (arith, aligned, sizes),
    )
  where
    slots_size : ℕ
    slots_size = round_up_page_size page aux

    pool_size : ℕ
    pool_size = round_up_page_size page size

    pos : 0 < page
    pos = omega (arith, pow-pos j)

    sizes : (size ≤ pool_size) × (pool_size < size + page)
    sizes = round_up_page_size_bounds page size pos

    aligned :
        (block + slots_size ≤ page_align page (block + slots_size))
        × (page_align page (block + slots_size) ≤ block + slots_size + page)
        × (page_align page (block + slots_size) % page ≡ 0)
    aligned = page_align_bounds page (block + slots_size) pos

-- The settings of the pool that start-up sets up.
pub init_memalloc_fields :
    (page : ℕ) (malloc : ℕ → Option ℕ) (junk : Slot) (aux size : ℕ) {p : Pool}
    → init_memalloc page malloc junk aux size ≡ some p
    → (p.page_size ≡ page) × (p.nr_slots ≡ round_up_page_size page aux / 16)
unfolding init_memalloc pool_in
init_memalloc_fields page malloc junk aux size {p} h = ground arith

-- It came from a block that malloc gave.
pub init_memalloc_block :
    (page : ℕ) (malloc : ℕ → Option ℕ) (junk : Slot) (aux size : ℕ) {p : Pool}
    → init_memalloc page malloc junk aux size ≡ some p
    → (block : ℕ) × (malloc (round_up_page_size page aux + round_up_page_size page size + page)
        ≡ some block)
unfolding init_memalloc pool_in
init_memalloc_block page malloc junk aux size {p} h =
    elim (Option-cases
      (malloc (round_up_page_size page aux + round_up_page_size page size + page))) [
        | inl e ↦ absurd (ground arith)
        | inr (block, e) ↦ (block, e)
      ]
