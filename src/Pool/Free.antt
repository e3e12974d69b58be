-- ===== src/Pool/Free.antt =====
-- `freemem` and `free_slot` of memalloc.c free exactly one area.
use suspend.Common.{
  ℕ, zero, suc, ◌+◌, ◌-◌, ◌≤◌, ◌<◌, ◌≡◌, ◌≢◌, ◌↔◌, inl, inr, Bool-cases, false, List, some, arith,
  tests, ◌==◌, ==→eq, ==_false→ne, dec_lt, ℕ_discrete, ap, set, length-set, get_or-set_self,
  get_or-set_ne, ◌∙◌, Option-cases,
}
use suspend.Pool.{Pool, Slot, slot, blank, find, retreat, free_slot, getmem, freemem}
use suspend.Pool.Bounds.{IsValid, getmem-IsAllocated}
use suspend.Pool.Search.{find_sound, find_complete}

-- A slot that holds an area in use.
abbrev pub IsLive : Pool → ℕ → Type 0
IsLive p i = (i < p.cur) × (0 < (slot p.slots i).size)

retreat-le : (s : List Slot) (n : ℕ) → retreat s n ≤ n
unfolding retreat
retreat-le s zero = omega arith
retreat-le s (suc n) = ground (arith, retreat-le s n)

retreat_empty : (s : List Slot) (n i : ℕ) → retreat s n ≤ i → i < n → (slot s i).size ≡ 0
unfolding retreat
retreat_empty s zero i h lt = absurd (omega arith)
retreat_empty s (suc n) i h lt = elim (ℕ_discrete i n) [
  | yes e ↦ rw e (ground arith)
  | no ne ↦ ground (arith, retreat_empty s n i)
]

retreat_last : (s : List Slot) (n : ℕ) → 0 < retreat s n → 0 < (slot s (retreat s n - 1)).size
unfolding retreat
retreat_last s zero h = absurd (omega arith)
retreat_last s (suc n) h = elim (Bool-cases ((slot s n).size == 0)) [
  | inl t ↦ rw (t, retreat) (retreat_last s n (rw (t, retreat) at h))
  | inr t ↦ let e : suc n - 1 ≡ n = omega arith in rw (t, retreat) (rw e (ground arith))
]

-- What freeing slot `k` does, with `q` the pool after it.
pub record IsFreed (p : Pool) (k : ℕ) (q : Pool) : Type 0 where
  pub valid : IsValid q
  pub live : (i : ℕ) → IsLive q i ↔ (IsLive p i × (i ≢ k))
  pub others : (i : ℕ) → i ≢ k → slot q.slots i ≡ slot p.slots i

module _ (p : Pool) (v : IsValid p) (k : ℕ) (lt : k < p.cur) where
  empty : Slot
  empty = record { addr = (slot p.slots k).addr; size = 0 }

  cleared : List Slot
  cleared = set p.slots k empty

  at_freed : slot cleared k ≡ empty
  unfolding cleared
  at_freed = get_or-set_self p.slots k empty blank (omega (arith, v.counted, v.cur_le))

  at_other : (i : ℕ) → i ≢ k → slot cleared i ≡ slot p.slots i
  unfolding cleared
  at_other i ne = get_or-set_ne p.slots {i = k} {j = i} empty blank (λ e. ne (omega arith))

  addr_same : (i : ℕ) → (slot cleared i).addr ≡ (slot p.slots i).addr
  unfolding empty
  addr_same i = elim (ℕ_discrete i k) [ yes e ↦ rw (e, at_freed) | no ne ↦ rw (at_other i ne) ]

  size-le : (i : ℕ) → (slot cleared i).size ≤ (slot p.slots i).size
  unfolding empty
  size-le i = elim (ℕ_discrete i k) [
    | yes e ↦ rw (e, at_freed) (omega arith)
    | no ne ↦ rw (at_other i ne) (omega arith)
  ]

  -- With fewer slots in use, the last of them not empty, the pool stays valid.
  cleared-IsValid :
      (n : ℕ)
      → n ≤ p.cur
      → (0 < n → 0 < (slot cleared (n - 1)).size)
      → IsValid (record p { slots = cleared; cur = n })
  unfolding cleared
  cleared-IsValid n le last = record {
    counted = length-set p.slots k empty ∙ v.counted;
    cur_le = omega (arith, v.cur_le);
    small = v.small;
    shift = v.shift;
    page = v.page;
    shift_lt = v.shift_lt;
    start = v.start;
    within = λ i h.
        let (a, b) = v.within i (omega arith) in
        (omega (arith, addr_same i), omega (arith, addr_same i, size-le i));
    sorted = λ i j h g.
        let (a, b) = v.sorted i j h (omega arith) in
        (
          omega (arith, addr_same i, addr_same j),
          omega (arith, addr_same i, addr_same j, size-le i),
        );
    last = last;
  }

  live_kept : (i : ℕ) → i ≢ k → 0 < (slot p.slots i).size → 0 < (slot cleared i).size
  live_kept i ne h = rw (at_other i ne) h

  live_back : (i : ℕ) → 0 < (slot cleared i).size → (i ≢ k) × (0 < (slot p.slots i).size)
  unfolding empty
  live_back i h = elim (ℕ_discrete i k) [
    | yes e ↦
        absurd (omega (arith, ap Slot.size at_freed, e, ap (λ (t : ℕ). (slot cleared t).size) e))
    | no ne ↦ (ne, rw (at_other i ne) at h)
  ]

  pub free_slot-IsFreed : IsFreed p k (free_slot p k)
  unfolding free_slot cleared empty
  free_slot-IsFreed = elim (Bool-cases (k + 1 == p.cur)) [
    | inl t ↦ rw t (record {
      valid =
          cleared-IsValid (retreat cleared k) (omega (arith, retreat-le cleared k))
            (retreat_last cleared k);
      live = λ i. (
        λ h. let (ne, s) = live_back i h.1 in ((omega (arith, h.0, retreat-le cleared k), s), ne),
        λ h. (
          elim (dec_lt i (retreat cleared k)) [
            | yes a ↦ a
            | no b ↦
                let below : i < k = omega (tests, h.0.0, h.1, ==→eq (k + 1) p.cur t) in
                absurd (
                  omega
                    (arith, live_kept i h.1 h.0.1, retreat_empty cleared k i (omega arith) below))
          ],
          live_kept i h.1 h.0.1,
        ),
      );
      others = at_other;
    })
    | inr t ↦ rw t (record {
      valid = cleared-IsValid p.cur (omega arith) (λ h.
          live_kept (p.cur - 1) (λ e. absurd (omega (tests, ==_false→ne (k + 1) p.cur t, e)))
            (v.last h));
      live = λ i. (
        λ h. let (ne, s) = live_back i h.1 in ((h.0, s), ne),
        λ h. (h.0.0, live_kept i h.1 h.0.1),
      );
      others = at_other;
    })
  ]

-- Freeing the address of a slot in use frees that slot and no other: the search finds it, the pool
-- stays valid, and every other slot keeps its address, its size and its place.
pub freemem-IsFreed :
    {p : Pool} (k : ℕ) → IsValid p → k < p.cur → IsFreed p k (freemem p (slot p.slots k).addr)
unfolding freemem
freemem-IsFreed {p} k v lt =
    let t : (p.cur == 0) ≡ false = ground arith in
    let inc =
      λ (a b : ℕ) (_ : 0 ≤ a) (h : a < b) (g : b ≤ p.cur - 1). (v.sorted a b h (omega arith)).0 in
    rw
      (t, find_complete p.cur p.slots 0 (p.cur - 1) k inc (omega arith) (omega arith) (omega arith))
      (free_slot-IsFreed p v k lt)

-- An address at which no slot in use starts is ignored.
pub freemem_unknown :
    (p : Pool) (address : ℕ)
    → ((i : ℕ) → i < p.cur → (slot p.slots i).addr ≢ address)
    → freemem p address ≡ p
unfolding freemem
freemem_unknown p address h = elim (Bool-cases (p.cur == 0)) [
  | inl t ↦ rw t
  | inr t ↦ elim (Option-cases (find p.cur p.slots address 0 (p.cur - 1))) [
    | inl e ↦ rw (t, e)
    | inr (k, e) ↦
        let (a, _, c) = find_sound p.cur p.slots address 0 (p.cur - 1) (omega arith) e in
        absurd (h k (omega (tests, ==_false→ne p.cur 0 t)) a)
  ]
]

-- Taking an area and freeing it again leaves the same areas in use, at the same places.
pub freemem-getmem :
    {p : Pool} (size : ℕ) {a : ℕ} {q : Pool}
    → IsValid p
    → 0 < size
    → getmem p size ≡ (some a, q)
    → (i : ℕ)
    → (IsLive (freemem q a) i ↔ IsLive p i)
      × (IsLive p i → slot (freemem q a).slots i ≡ slot p.slots i)
freemem-getmem {p} size {a} {q} v pos h i =
    let g = getmem-IsAllocated size v pos h in
    let f : IsFreed q p.cur (freemem q a) =
      rw (ap Slot.addr g.entry) at (freemem-IsFreed p.cur g.valid (omega (arith, g.count))) in
    (
      (
        λ l.
            let ((lt, s), ne) = (f.live i).0 l in
            let below : i < p.cur = omega (arith, g.count, ne) in
            (below, rw (g.others i below) at s),
        λ l. (f.live i).1 (
          (omega (arith, g.count, l.0), rw (g.others i l.0) l.1),
          λ e. absurd (omega (arith, e, l.0)),
        ),
      ),
      λ l. f.others i (λ e. absurd (omega (arith, e, l.0))) ∙ g.others i l.0,
    )
