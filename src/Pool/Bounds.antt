-- ===== src/Pool/Bounds.antt =====
-- The invariant of the pool of memalloc.c, and that `getmem` keeps it.
use native.Mathlib.Nat.{div-add-mod, mod-lt, mul_comm, mul_assoc}
use suspend.Common.{
  ℕ, zero, suc, ◌+◌, ◌-◌, ◌*◌, ◌/◌, ◌%◌, ◌^◌, ◌≤◌, ◌<◌, ◌≡◌, refl, inl, inr, Bool-cases, true, some,
  List, arith, ltb, length, length-set, set, get_or-set_self, get_or-set_ne, dec_lt, ◌∙◌, ap,
}
use suspend.Pool.{Pool, Slot, slot, blank, getmem, next_offset, align_size}
use suspend.Pool.Align.{align_size_lem, le-mul-pow, pow-pos}

-- The live slots are those below `cur`. They are sorted, lie in the pool and do not overlap; the
-- last of them is not empty. The pool is small enough for the 32-bit mask of `getmem`.
pub record IsValid (p : Pool) : Type 0 where
  pub counted : length p.slots ≡ p.nr_slots
  pub cur_le : p.cur ≤ p.nr_slots
  pub small : p.pool_size + p.page_size ≤ 2 ^ 32
  pub shift : ℕ
  pub page : p.page_size ≡ 8 * 2 ^ shift
  pub shift_lt : shift < 29
  pub start : p.mem_pool % p.page_size ≡ 0
  pub within :
      (i : ℕ)
      → i < p.cur
      → (p.mem_pool ≤ (slot p.slots i).addr)
        × ((slot p.slots i).addr + (slot p.slots i).size ≤ p.mem_pool + p.pool_size)
  pub sorted :
      (i j : ℕ)
      → i < j
      → j < p.cur
      → ((slot p.slots i).addr < (slot p.slots j).addr)
        × ((slot p.slots i).addr + (slot p.slots i).size ≤ (slot p.slots j).addr)
  pub last : 0 < p.cur → 0 < (slot p.slots (p.cur - 1)).size

-- Rounding up does not go below the number, and stops before the next multiple.
pub round_up_bounds : (n a : ℕ) → 0 < a → (n ≤ (n + a - 1) / a * a) × ((n + a - 1) / a * a < n + a)
round_up_bounds n a h =
    let e = div-add-mod (n + a - 1) a in
    let l = mod-lt (n + a - 1) {m = a} h in
    let c = mul_comm a ((n + a - 1) / a) in (omega arith, omega arith)

pub align_bounds :
    {p : Pool} (size : ℕ)
    → IsValid p
    → (0 < align_size p.page_size size) × (align_size p.page_size size ≤ p.page_size)
align_bounds {p} size v =
    let ((j, e), _) = align_size_lem p.page_size size v.shift v.page v.shift_lt in
    let l = le-mul-pow (align_size p.page_size size) j in
    let q = pow-pos v.shift in
    (pos (align_size p.page_size size) (2 ^ j) p.page_size e (omega (arith, v.page)), omega arith)
  where
    pos : (a b n : ℕ) → n ≡ a * b → 0 < n → 0 < a
    pos zero b n e h = absurd (omega (arith, e))
    pos (suc a) b n e h = omega arith

-- The offset of the next area is a multiple of its alignment.
pub next_offset_aligned :
    (p : Pool) (size : ℕ) → (q : ℕ) × (next_offset p size ≡ q * align_size p.page_size size)
unfolding next_offset
next_offset_aligned p size = elim (Bool-cases (ltb 0 p.cur)) [
  | inl t ↦ rw t (_, refl)
  | inr t ↦ rw t (0, omega arith)
]

next_offset_last :
    {p : Pool} (size : ℕ)
    → IsValid p
    → 0 < p.cur
    → (slot p.slots (p.cur - 1)).addr + (slot p.slots (p.cur - 1)).size
      ≤ p.mem_pool + next_offset p size
unfolding next_offset
next_offset_last {p} size v h =
    let (lo, hi) = v.within (p.cur - 1) (omega arith) in
    let (apos, ale) = align_bounds size v in
    let (up, _) =
      round_up_bounds
        ((slot p.slots (p.cur - 1)).addr - p.mem_pool + (slot p.slots (p.cur - 1)).size)
        (align_size p.page_size size) apos in
    let t : ltb 0 p.cur ≡ true = ground arith in
    let small = v.small in
    let cut : ((slot p.slots (p.cur - 1)).addr
            - p.mem_pool
            + (slot p.slots (p.cur - 1)).size
            + align_size p.page_size size
            - 1)
          % 2 ^ 32
        ≡ (slot p.slots (p.cur - 1)).addr
          - p.mem_pool
          + (slot p.slots (p.cur - 1)).size
          + align_size p.page_size size
          - 1 =
      omega arith in
    rw (t, cut) (omega arith)

-- The offset of the next area lies above the end of every live slot, and strictly above its start.
pub next_offset_above :
    {p : Pool} (size : ℕ)
    → IsValid p
    → (i : ℕ) → i < p.cur
    → ((slot p.slots i).addr + (slot p.slots i).size ≤ p.mem_pool + next_offset p size)
      × ((slot p.slots i).addr < p.mem_pool + next_offset p size)
next_offset_above {p} size v i h = elim (dec_lt i (p.cur - 1)) [
  | yes below ↦
      let (a, b) = v.sorted i (p.cur - 1) below (omega arith) in
      (
        omega (arith, next_offset_last size v (omega arith)),
        omega (arith, next_offset_last size v (omega arith)),
      )
  | no top ↦
      let e : i ≡ p.cur - 1 = omega arith in
      let l = next_offset_last size v (omega arith) in
      let s = v.last (omega arith) in rw e (l, omega arith)
]

-- What a successful `getmem` does to the pool.
record Got (p : Pool) (size a : ℕ) (q : Pool) : Type 0 where
  room : p.cur < p.nr_slots
  fits : next_offset p size + size ≤ p.pool_size
  result : a ≡ p.mem_pool + next_offset p size
  state : q ≡ record p {
    slots = set p.slots p.cur (record { addr = p.mem_pool + next_offset p size; size = size });
    cur = p.cur + 1;
  }

getmem-Got : (p : Pool) (size : ℕ) {a : ℕ} {q : Pool} → getmem p size ≡ (some a, q) → Got p size a q
unfolding getmem
getmem-Got p size h = ground arith

module _ (p : Pool) (v : IsValid p) (size : ℕ) (pos : 0 < size) where
  new : Slot
  new = record { addr = p.mem_pool + next_offset p size; size = size }

  grown : List Slot
  grown = set p.slots p.cur new

  kept : (i : ℕ) → i < p.cur → slot grown i ≡ slot p.slots i
  unfolding grown
  kept i h = get_or-set_ne p.slots {i = p.cur} {j = i} new blank (omega arith)

  fresh : p.cur < p.nr_slots → slot grown p.cur ≡ new
  unfolding grown
  fresh h = get_or-set_self p.slots p.cur new blank (rw v.counted h)

  module _ (room : p.cur < p.nr_slots) (fits : next_offset p size + size ≤ p.pool_size) where
    grown-within :
        (i : ℕ)
        → i < p.cur + 1
        → (p.mem_pool ≤ (slot grown i).addr)
          × ((slot grown i).addr + (slot grown i).size ≤ p.mem_pool + p.pool_size)
    unfolding new
    grown-within i h = elim (dec_lt i p.cur) [
      | yes old ↦ rw (kept i old) (v.within i old)
      | no top ↦ let e : i ≡ p.cur = omega arith in rw (e, fresh room) (omega arith, omega arith)
    ]

    grown-sorted :
        (i j : ℕ)
        → i < j
        → j < p.cur + 1
        → ((slot grown i).addr < (slot grown j).addr)
          × ((slot grown i).addr + (slot grown i).size ≤ (slot grown j).addr)
    unfolding new
    grown-sorted i j lt h = elim (dec_lt j p.cur) [
      | yes old ↦ rw (kept i (omega arith), kept j old) (v.sorted i j lt old)
      | no top ↦
          let e : j ≡ p.cur = omega arith in
          let (a, b) = next_offset_above size v i (omega arith) in
          rw (e, fresh room, kept i (omega arith)) (b, a)
    ]

    add_sub : p.cur + 1 - 1 ≡ p.cur
    add_sub = omega arith

    grown-IsValid : IsValid (record p { slots = grown; cur = p.cur + 1 })
    unfolding grown new
    grown-IsValid = record {
      counted = length-set p.slots p.cur new ∙ v.counted;
      cur_le = omega arith;
      small = v.small;
      shift = v.shift;
      page = v.page;
      shift_lt = v.shift_lt;
      start = v.start;
      within = grown-within;
      sorted = grown-sorted;
      last = λ _. rw (add_sub, fresh room) pos;
    }

-- What `getmem` promises of the area at `a` of `size` bytes, with `q` the pool after the call.
pub record IsAllocated (p : Pool) (size a : ℕ) (q : Pool) : Type 0 where
  pub valid : IsValid q
  pub inside : (p.mem_pool ≤ a) × (a + size ≤ p.mem_pool + p.pool_size)
  pub above : (i : ℕ) → i < p.cur → (slot p.slots i).addr + (slot p.slots i).size ≤ a
  pub aligned : (m : ℕ) × (a ≡ align_size p.page_size size * m)
  pub count : q.cur ≡ p.cur + 1
  pub entry : slot q.slots p.cur ≡ record { addr = a; size = size }
  pub others : (i : ℕ) → i < p.cur → slot q.slots i ≡ slot p.slots i

aligned_sum :
    (mem page al x j : ℕ) → mem % page ≡ 0 → page ≡ al * x → (m : ℕ) × (mem + j * al ≡ al * m)
aligned_sum mem page al x j e f = (
  x * (mem / page) + j,
  let d = div-add-mod mem page in
      let g = ap (λ (t : ℕ). t * (mem / page)) f in
      let h = mul_assoc al x (mem / page) in let k = mul_comm j al in omega arith,
)

pub getmem-IsAllocated :
    {p : Pool} (size : ℕ) {a : ℕ} {q : Pool}
    → IsValid p
    → 0 < size
    → getmem p size ≡ (some a, q)
    → IsAllocated p size a q
unfolding grown new
getmem-IsAllocated {p} size {a} {q} v pos h =
    let g = getmem-Got p size h in
    rw (g.state, g.result)
      (record {
        valid = grown-IsValid p v size pos g.room g.fits;
        inside = (omega arith, omega (arith, g.fits));
        above = λ i lt. (next_offset_above size v i lt).0;
        aligned =
            let ((j, e), _) = align_size_lem p.page_size size v.shift v.page v.shift_lt in
            let (k, f) = next_offset_aligned p size in
            rw f (
              aligned_sum p.mem_pool p.page_size (align_size p.page_size size) (2 ^ j) k v.start e);
        count = refl;
        entry = fresh p v size pos g.room;
        others = kept p v size pos;
      })
