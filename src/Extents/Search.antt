-- ===== src/Extents/Search.antt =====
-- The binary search in `alloc_swap` (suspend.c) ends at the extent next to the page if there is one,
-- and otherwise at the entry beside which the page belongs.
use suspend.Common.{
  ℕ, zero, suc, ◌+◌, ◌/◌, ◌≤◌, ◌<◌, ◌≡◌, refl, ◌⊎◌, inl, inr, Bool, true, false, if◌then◌else◌,
  Bool-cases, List, arith, tests, ltb, ◌==◌, ==→eq, ==_false→ne, ltb→lt, ltb_false→le, length,
  dec_lt,
}
use suspend.Extents.{Extent, extent, Hit, below, above, miss, compare_at, search}
use suspend.Extents.Order.{IsSorted, end-lt-start, start-lt-end}

module _ (page : ℕ) (es : List Extent) (offset : ℕ) where
  -- The page does not overlap an extent.
  abbrev pub IsFresh : Type 0
  IsFresh =
      (m : ℕ) → m < length es → ((extent es m).end ≤ offset) ⊎ (offset + page ≤ (extent es m).start)

  -- What the end of the search says of the page.
  abbrev pub IsPlaced : Hit → Type 0
  IsPlaced (below k) = (k < length es) × (offset + page ≡ (extent es k).start)
  IsPlaced (above k) = (k < length es) × (offset ≡ (extent es k).end)
  IsPlaced (miss i) =
      (i < length es)
      × (((extent es i).end < offset) ⊎ (offset + page < (extent es i).start))
      × ((m : ℕ) → m < i → (extent es m).end < offset)
      × ((m : ℕ) → i < m → m < length es → offset + page < (extent es m).start)

  compare_at-IsPlaced :
      (k : ℕ) (right left : Hit)
      → k < length es
      → IsFresh
      → ((extent es k).end < offset → IsPlaced right)
      → (offset + page < (extent es k).start → IsPlaced left)
      → IsPlaced (compare_at page es offset k right left)
  compare_at-IsPlaced k right left lt fresh r l =
      elim (Bool-cases (offset + page == (extent es k).start)) [
        | inl t ↦ rw t (lt, ==→eq _ _ t)
        | inr t ↦ elim (Bool-cases (offset == (extent es k).end)) [
          | inl u ↦ rw (t, u) (lt, ==→eq _ _ u)
          | inr u ↦ elim (Bool-cases (ltb (extent es k).end offset)) [
            | inl w ↦ rw (t, u, w) (r (ltb→lt _ _ w))
            | inr w ↦
                let f = fresh k lt in
                rw (t, u, w)
                  (l (
                    grind (
                      tests,
                      ==_false→ne (offset + page) (extent es k).start t,
                      ==_false→ne offset (extent es k).end u,
                      ltb_false→le (extent es k).end offset w,
                    )))
          ]
        ]
      ]

  if-IsPlaced :
      (b : Bool) (x y : Hit)
      → (b ≡ true → IsPlaced x)
      → (b ≡ false → IsPlaced y)
      → IsPlaced (if b then x else y)
  if-IsPlaced true x y f g = f refl
  if-IsPlaced false x y f g = g refl

  module _ (s : IsSorted es) (fresh : IsFresh) where
    lower :
        (k : ℕ)
        → k < length es
        → (extent es k).end < offset
        → (m : ℕ) → m < k
        → (extent es m).end < offset
    lower k lt e m h = omega (arith, end-lt-start es m k s h lt, start-lt-end es k s lt)

    upper :
        (k : ℕ)
        → k < length es
        → offset + page < (extent es k).start
        → (m : ℕ) → k < m
        → m < length es
        → offset + page < (extent es m).start
    upper k lt e m h g = omega (arith, end-lt-start es k m s h g, start-lt-end es k s lt)

    miss_behind :
        (k : ℕ)
        → k < length es
        → (extent es k).end < offset
        → ((m : ℕ) → k < m → m < length es → offset + page < (extent es m).start)
        → IsPlaced (miss k)
    miss_behind k lt e hi = (lt, inl e, lower k lt e, hi)

    miss_before :
        (k : ℕ)
        → k < length es
        → offset + page < (extent es k).start
        → ((m : ℕ) → m < k → (extent es m).end < offset)
        → IsPlaced (miss k)
    miss_before k lt e lo = (lt, inr e, lo, upper k lt e)

    -- Up to and with entry `k`.
    lower_to :
        (k j : ℕ)
        → k < length es
        → (extent es k).end < offset
        → j ≤ k + 1
        → (m : ℕ) → m < j
        → (extent es m).end < offset
    lower_to k j lt e h m g = elim (dec_lt m k) [
      | yes a ↦ lower k lt e m a
      | no b ↦ let q : m ≡ k = omega arith in rw q e
    ]

    pub search-IsPlaced :
        (f i j : ℕ)
        → i ≤ j
        → j < length es
        → j < i + f
        → ((m : ℕ) → m < i → (extent es m).end < offset)
        → ((m : ℕ) → j < m → m < length es → offset + page < (extent es m).start)
        → IsPlaced (search page f es offset i j)
    unfolding search
    search-IsPlaced zero i j le lt fuel lo hi = absurd (omega arith)
    search-IsPlaced (suc f) i j le lt fuel lo hi =
        compare_at-IsPlaced k _ _ (omega arith) fresh
          (λ e.
            if-IsPlaced (i == k) _ _
              (λ t.
                if-IsPlaced (ltb i j) _ _
                  (λ u.
                    compare_at-IsPlaced j (miss j) (miss j) lt fresh (λ b. miss_behind j lt b hi)
                      (λ b.
                        miss_before j lt b
                          (lower_to k j (omega arith) e (omega (tests, ==→eq i k t)))))
                  (λ u.
                    let q : i ≡ j = omega (tests, ltb_false→le i j u) in
                    rw q (miss_behind j lt (rw (← q, ==→eq i k t) e) hi)))
              (λ t.
                if-IsPlaced (ltb k j) _ _
                  (λ u.
                    search-IsPlaced f k j (omega arith) lt (omega (arith, ==_false→ne i k t))
                      (lower k (omega arith) e) hi)
                  (λ u. absurd (omega (arith, ==_false→ne i k t, ltb_false→le k j u)))))
          (λ e.
            if-IsPlaced (ltb i k) _ _
              (λ u.
                search-IsPlaced f i k (omega arith) (omega arith) (omega (arith, ltb→lt i k u)) lo
                  (upper k (omega arith) e))
              (λ u.
                let q : i ≡ k = omega (arith, ltb_false→le i k u) in
                miss_before i (omega arith) (rw q e) lo))
      where
        k : ℕ
        k = (i + j) / 2
