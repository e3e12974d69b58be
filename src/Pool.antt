-- ===== src/Pool.antt =====
-- memalloc.c: the preallocated pool from which the image buffers are taken.
-- `struct mem_slot` is `Slot`; the static variables of the file are the fields of `Pool`. A pointer
-- into `slots` is its index, an address is a number. A mask `~(a - 1)` stands for a power of two
-- `a`, so `x & ~(a - 1)` is `x / a * a`.
pub mod Bounds
pub mod Align
pub mod Search
pub mod Free
pub mod Startup
mod Tests
use suspend.Common.{
  ℕ, zero, suc, ◌+◌, ◌-◌, ◌*◌, ◌/◌, ◌%◌, ◌^◌, Bool, true, false, ◌||◌, Option, none, some, List,
  ltb, leb, ◌==◌, if◌then◌else◌, get_or, set, length, replicate,
}

pub record Slot : Type 0 where
  pub addr : ℕ
  pub size : ℕ

pub record Pool : Type 0 where
  pub page_size : ℕ
  pub mem_pool : ℕ
  pub pool_size : ℕ
  pub slots : List Slot
  pub nr_slots : ℕ
  pub cur : ℕ  -- cur_slot - slots

abbrev pub blank : Slot
blank = record { addr = 0; size = 0 }

abbrev pub slot : List Slot → ℕ → Slot
slot s i = get_or s i blank

abbrev pub buffer_pages : ℕ
buffer_pages = 32

abbrev pub align_qword : ℕ
align_qword = 8

unfoldable pub round_up_page_size : ℕ → ℕ → ℕ
round_up_page_size page size = (size + page - 1) / page * page

unfoldable pub round_down_page_size : ℕ → ℕ → ℕ
round_down_page_size page size = size / page * page

-- The address rounded down to a page, and moved up one page if that lies below it.
unfoldable pub page_align : ℕ → ℕ → ℕ
page_align page mem = if ltb (mem / page * page) mem then mem / page * page + page else mem

-- The empty pool in the block from malloc: the array of slots first, then the aligned pool.
-- `sizeof(struct mem_slot)` is 16, and the entries hold whatever the block held (`junk`).
pool_in : ℕ → Slot → ℕ → ℕ → ℕ → Pool
pool_in page junk slots_size size block = record {
  page_size = page;
  mem_pool = page_align page (block + slots_size);
  pool_size = size;
  slots = replicate (slots_size / 16) junk;
  nr_slots = slots_size / 16;
  cur = 0;
}

-- `malloc` gives the address of a fresh block, or none.
unfoldable pub init_memalloc : ℕ → (ℕ → Option ℕ) → Slot → ℕ → ℕ → Option Pool
unfolding pool_in
init_memalloc page malloc junk aux pool =
    let slots_size = round_up_page_size page aux in
    let size = round_up_page_size page pool in
    elim (malloc (slots_size + size + page)) [
      | none ↦ none
      | some block ↦ some (pool_in page junk slots_size size block)
    ]

-- `while (align_size < size) align_size <<= 1`, in an unsigned int.
grow : ℕ → ℕ → ℕ → ℕ
grow zero align size = align
grow (suc fuel) align size = elim (ltb align size) [
  | true ↦ grow fuel (align * 2 % 2 ^ 32) size
  | false ↦ align
]

-- The alignment that `getmem` chooses. 32 rounds are enough for every size below a page.
unfoldable pub align_size : ℕ → ℕ → ℕ
unfolding grow
align_size page size = if leb page size then page else grow 32 align_qword size

-- `align_mask` is an unsigned int, so the sum is cut to 32 bits before it is rounded.
align_offset : ℕ → ℕ → ℕ
align_offset align n = (n + align - 1) % 2 ^ 32 / align * align

-- Where the next area starts, counted from `mem_pool`.
unfoldable pub next_offset : Pool → ℕ → ℕ
unfolding align_offset
next_offset p size =
    if ltb 0 p.cur
    then align_offset (align_size p.page_size size) (last.addr - p.mem_pool + last.size)
    else 0
  where
    last : Slot
    last = slot p.slots (p.cur - 1)

unfoldable pub getmem : Pool → ℕ → Option ℕ × Pool
getmem p size =
    let used = next_offset p size in
    if leb p.nr_slots p.cur
    then (none, p)
    else if ltb p.pool_size used || ltb (p.pool_size - used) size
    then (none, p)
    else (
      some (p.mem_pool + used),
      record p {
        slots = set p.slots p.cur (record { addr = p.mem_pool + used; size = size });
        cur = p.cur + 1;
      },
    )

-- The loop of `free_slot` over the `n` entries below the freed one. At none left the source still
-- reads the size of the entry before the array; both outcomes of that read end the loop here.
pub retreat : List Slot → ℕ → ℕ
retreat s zero = zero
retreat s (suc n) = if (slot s n).size == 0 then retreat s n else suc n

unfoldable pub free_slot : Pool → ℕ → Pool
unfolding retreat
free_slot p k =
    if k + 1 == p.cur
    then record p { slots = cleared; cur = retreat cleared k }
    else record p { slots = cleared }
  where
    cleared : List Slot
    cleared = set p.slots k (record { addr = (slot p.slots k).addr; size = 0 })

-- The binary search of `freemem`, with the slot that it frees.
pub find : ℕ → List Slot → ℕ → ℕ → ℕ → Option ℕ
find zero s address i j = none
find (suc fuel) s address i j =
    let k = (i + j) / 2 in
    let right = find fuel s address k j in
    let left = find fuel s address i k in
    if (slot s k).addr == address
    then some k
    else if ltb (slot s k).addr address
    then (if i == k
        then (if (slot s j).addr == address then some j else none)
        else if ltb k j
        then right
        else none)
    else if ltb i k
    then left
    else none

unfoldable pub freemem : Pool → ℕ → Pool
unfolding find free_slot
freemem p address =
    let found = find p.cur p.slots address 0 (p.cur - 1) in
    if p.cur == 0 then p else elim found [ none ↦ p | some k ↦ free_slot p k ]
