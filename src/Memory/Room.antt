-- ===== src/Memory/Room.antt =====
-- When `getmem` of memalloc.c succeeds: with room for the size rounded up to pages, the next areas
-- find what is left.
use native.Mathlib.Nat.{mul-le-mul_right, lt_of_mul-lt-mul_right, mul_comm, mul_assoc}
use suspend.Common.{
  ℕ, suc, ◌+◌, ◌-◌, ◌*◌, ◌/◌, ◌%◌, ◌^◌, ◌≤◌, ◌<◌, ◌≡◌, refl, true, false, some, arith, ltb, leb,
  sym, ap, ap₂, ◌∙◌, subst, dec_lt, set,
}
use suspend.Pool.{Pool, Slot, slot, getmem, next_offset, align_size, round_up_page_size}
use suspend.Pool.Align.{align_size_lem, pow-pos}
use suspend.Pool.Bounds.{
  IsValid, IsAllocated, round_up_bounds, align_bounds, getmem-IsAllocated, next_offset_aligned,
}

-- The least multiple of the page size.
pub round_up_least : (a n m : ℕ) → 0 < a → n ≤ m * a → round_up_page_size a n ≤ m * a
unfolding round_up_page_size
round_up_least a n m h l =
    let (_, hi) = round_up_bounds n a h in
    let step : suc m * a ≡ m * a + a = omega arith in
    let less : (n + a - 1) / a < suc m = lt_of_mul-lt-mul_right a (omega (arith, hi, l, step)) in
    mul-le-mul_right a (omega (arith, less))

pub round_up-mul : (a m : ℕ) → 0 < a → round_up_page_size a (m * a) ≡ m * a
unfolding round_up_page_size
round_up-mul a m h =
    omega (arith, (round_up_bounds (m * a) a h).0, round_up_least a (m * a) m h (omega arith))

round_up_below :
    (a k s n : ℕ) → 0 < a → n ≤ k * a + s → round_up_page_size a n ≤ k * a + round_up_page_size a s
unfolding round_up_page_size
round_up_below a k s n h l =
    let q = (s + a - 1) / a in
    let sum : (k + q) * a ≡ k * a + q * a = omega arith in
    omega
      (arith, sum, round_up_least a n (k + q) h (omega (arith, sum, l, (round_up_bounds s a h).0)))

-- Where the last area ends.
top : Pool → ℕ
top p = (slot p.slots (p.cur - 1)).addr - p.mem_pool + (slot p.slots (p.cur - 1)).size

next_offset_up :
    {p : Pool} (size : ℕ)
    → IsValid p
    → 0 < p.cur
    → next_offset p size ≡ round_up_page_size (align_size p.page_size size) (top p)
unfolding next_offset round_up_page_size top
next_offset_up {p} size v h =
    let (lo, hi) = v.within (p.cur - 1) (omega arith) in
    let (_, le) = align_bounds size v in
    let t : ltb 0 p.cur ≡ true = ground arith in
    let small = v.small in
    let cut : (top p + align_size p.page_size size - 1) % 2 ^ 32
        ≡ top p + align_size p.page_size size - 1 =
      omega arith in
    rw (t, cut) refl

align_size_page : (page : ℕ) → align_size page page ≡ page
unfolding align_size
align_size_page page = let t : leb page page ≡ true = ground arith in rw t refl

-- A divisor of the page size rounds up no further than the page size.
round_up_divisor :
    (a x n : ℕ) → 0 < a → 0 < a * x → round_up_page_size a n ≤ round_up_page_size (a * x) n
unfolding round_up_page_size
round_up_divisor a x n h g =
    let q = (n + a * x - 1) / (a * x) in
    let e : q * (a * x) ≡ q * x * a = ap (λ y. q * y) (mul_comm a x) ∙ sym (mul_assoc q x a) in
    omega
      (arith, e, round_up_least a n (q * x) h (omega (arith, e, (round_up_bounds n (a * x) g).0)))

pub next_offset_first : (p : Pool) (size : ℕ) → ltb 0 p.cur ≡ false → next_offset p size ≡ 0
unfolding next_offset
next_offset_first p size t = rw t refl

-- No size starts later than a page does.
next_offset_le : {p : Pool} (size : ℕ) → IsValid p → next_offset p size ≤ next_offset p p.page_size
next_offset_le {p} size v = elim (dec_lt 0 p.cur) [
  | yes h ↦
      let ((j, e), _) = align_size_lem p.page_size size v.shift v.page v.shift_lt in
      let a = align_size p.page_size size in
      let (apos, _) = align_bounds size v in
      let page_pos : 0 < a * 2 ^ j = omega (arith, e, v.page, pow-pos v.shift) in
      let up : round_up_page_size a (top p) ≤ round_up_page_size p.page_size (top p) =
        subst (λ y. round_up_page_size a (top p) ≤ round_up_page_size y (top p)) (sym e)
          (round_up_divisor a (2 ^ j) (top p) apos page_pos) in
      rw (next_offset_up size v h, next_offset_up p.page_size v h, align_size_page p.page_size) up
  | no h ↦
      let t : ltb 0 p.cur ≡ false = ground (arith, h) in
      rw (next_offset_first p size t, next_offset_first p p.page_size t) (omega arith)
]

-- Room for `n` more bytes, counted in whole pages, and for `k` more areas.
pub record HasRoom (page : ℕ) (p : Pool) (n k : ℕ) : Type 0 where
  pub valid : IsValid p
  pub same_page : p.page_size ≡ page
  pub slots_left : p.cur + k ≤ p.nr_slots
  pub bytes_left : next_offset p page + n ≤ p.pool_size

-- The call succeeds, and what it leaves has room for the rest.
pub record IsServed (page : ℕ) (p : Pool) (size : ℕ) (n k : ℕ) : Type 0 where
  pub address : ℕ
  pub after : Pool
  pub result : getmem p size ≡ (some address, after)
  pub allocated : IsAllocated p size address after
  pub room : HasRoom page after n k

module _ (page : ℕ) (p : Pool) (size n k : ℕ)
    (r : HasRoom page p (round_up_page_size page size + n) (suc k)) where
  given : Pool
  given = record p {
    slots = set p.slots p.cur (record { addr = p.mem_pool + next_offset p size; size = size });
    cur = p.cur + 1;
  }

  page_pos : 0 < page
  page_pos = omega (arith, r.same_page, r.valid.page, pow-pos r.valid.shift)

  size_le : size ≤ round_up_page_size page size
  unfolding round_up_page_size
  size_le = (round_up_bounds size page page_pos).0

  starts : next_offset p size ≤ next_offset p page
  starts =
      subst (λ y. next_offset p size ≤ next_offset p y) r.same_page (next_offset_le size r.valid)

  getmem_given : getmem p size ≡ (some (p.mem_pool + next_offset p size), given)
  unfolding getmem given
  getmem_given =
      let a : leb p.nr_slots p.cur ≡ false = ground (arith, r.slots_left) in
      let b : ltb p.pool_size (next_offset p size) ≡ false = ground (arith, starts, r.bytes_left) in
      let c : ltb (p.pool_size - next_offset p size) size ≡ false =
        ground (arith, starts, r.bytes_left, size_le) in
      rw (a, b, c) refl

  -- The last area ends at most `size` bytes behind where a page would have started.
  top_given :
      IsAllocated p size (p.mem_pool + next_offset p size) given
      → top given ≡ next_offset p size + size
  unfolding given top
  top_given g =
      let back : p.cur + 1 - 1 ≡ p.cur = omega arith in
      ap (λ i. (slot given.slots i).addr - p.mem_pool + (slot given.slots i).size) back
      ∙ ap (λ (x : Slot). x.addr - p.mem_pool + x.size) g.entry
      ∙ omega arith

  next_page :
      IsAllocated p size (p.mem_pool + next_offset p size) given
      → next_offset given page ≤ next_offset p page + round_up_page_size page size
  unfolding given
  next_page g =
      let (q, e) = next_offset_aligned p page in
      let al : align_size p.page_size page ≡ page =
        subst (λ y. align_size y page ≡ page) (sym r.same_page) (align_size_page page) in
      let start : next_offset p page ≡ q * page = e ∙ ap (λ y. q * y) al in
      let here : next_offset given page ≡ round_up_page_size page (next_offset p size + size) =
        next_offset_up page g.valid (omega arith) ∙ ap₂ round_up_page_size al (top_given g) in
      omega (
        arith,
        here,
        start,
        round_up_below page q size (next_offset p size + size) page_pos
            (omega (arith, start, starts)),
      )

  given-HasRoom :
      IsAllocated p size (p.mem_pool + next_offset p size) given → HasRoom page given n k
  unfolding given
  given-HasRoom g = record {
    valid = g.valid;
    same_page = r.same_page;
    slots_left = omega (arith, r.slots_left);
    bytes_left = omega (arith, next_page g, r.bytes_left);
  }

  pub getmem-IsServed : 0 < size → IsServed page p size n k
  getmem-IsServed pos =
      let g = getmem-IsAllocated size r.valid pos getmem_given in
      record {
        address = p.mem_pool + next_offset p size;
        after = given;
        result = getmem_given;
        allocated = g;
        room = given-HasRoom g;
      }
