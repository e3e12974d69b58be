-- ===== src/Extents/Merge.antt =====
-- Extending and merging extents in `alloc_swap` of suspend.c: one round adds exactly the bytes of
-- the new page, and keeps the extents in order.
use native.Mathlib.Numerals.{add-one}
use suspend.Common.{
  ℕ, zero, suc, ◌+◌, ◌-◌, ◌≤◌, ◌<◌, ◌≡◌, ◌≢◌, sym, inl, inr, true, false, ◌&&◌, ◌||◌, Bool-cases,
  List, arith, ltb, ◌==◌, length, length-set, set, ℕ_discrete,
}
use suspend.Extents.{Extent, Extents, extent, remove, extend_below, extend_above}
use suspend.Extents.Order.{IsSorted, IsSorted-set, IsSorted-remove, end-lt-start, start-lt-end}
use suspend.Extents.Search.{IsFresh}
use suspend.Extents.Cover.{
  in_extent, in_page, covers, covers-remove, covers-set, get-remove_lt, get-remove_ge,
  length-remove, remove-set, remove-set_self,
}

module _ (page : ℕ) (pos : 0 < page) (offset : ℕ) where
  -- What one round promises of the new list.
  pub record IsAdded (es fs : List Extent) : Type 0 where
    pub sorted : IsSorted fs
    pub cover : (y : ℕ) → covers fs y ≡ (covers es y || in_page page offset y)
    pub count : (0 < length fs) × (length fs ≤ length es + 1)

  module _ (es : List Extent) (s : IsSorted es) (fresh : IsFresh page es offset) where
    abbrev joined : ℕ → Extent
    joined j = record { start = (extent es j).start; end = (extent es (suc j)).end }

    -- Two neighbours with just the page between them become one extent.
    merged-IsAdded :
        (j : ℕ)
        → suc j < length es
        → (extent es j).end ≡ offset
        → offset + page ≡ (extent es (suc j)).start
        → IsAdded es (set (remove es (suc j)) j (joined j))
    merged-IsAdded j lt e f = record {
      sorted =
          IsSorted-set (remove es (suc j)) j _ (IsSorted-remove es (suc j) s)
            (omega (arith, start-lt-end es j s (omega arith), start-lt-end es (suc j) s lt))
            (λ m h g.
              rw (get-remove_lt es (suc j) m (omega arith)) (end-lt-start es m j s h (omega arith)))
            (λ m h g. rw (get-remove_ge es (suc j) m h) (
              end-lt-start es (suc j) (suc m) s (omega arith)
                (omega (arith, g, length-remove es (suc j) lt))));
      cover = λ y. ground (
        arith,
        covers-set (remove es (suc j)) j y (joined j),
        covers-remove es (suc j) y lt,
        covers-remove (remove es (suc j)) j y,
        get-remove_lt es (suc j) j,
        length-remove es (suc j) lt,
        start-lt-end es j s,
        start-lt-end es (suc j) s lt,
      );
      count =
          omega (arith, length-set (remove es (suc j)) j (joined j), length-remove es (suc j) lt);
    }

    -- One extent grows by the page, and keeps clear of its neighbours.
    grown-IsAdded :
        (k : ℕ) (v : Extent)
        → k < length es
        → v.start < v.end
        → ((m : ℕ) → m < k → m < length es → (extent es m).end < v.start)
        → ((m : ℕ) → k < m → m < length es → v.end < (extent es m).start)
        → ((y : ℕ) → in_extent v y ≡ (in_extent (extent es k) y || in_page page offset y))
        → IsAdded es (set es k v)
    grown-IsAdded k v lt p lo hi c = record {
      sorted = IsSorted-set es k v s p lo hi;
      cover = λ y. ground (arith, c y, covers-set es k y v, covers-remove es k y lt);
      count = omega (arith, length-set es k v);
    }

    -- The page ends where extent `k` starts: what lies before ends at the page or before it.
    room_below :
        (k : ℕ)
        → k < length es
        → offset + page ≡ (extent es k).start
        → (m : ℕ) → m < k
        → (extent es m).end ≤ offset
    room_below k lt e m h = grind (
      arith,
      fresh m (omega arith),
      start-lt-end es m s (omega arith),
      end-lt-start es m k s h lt,
    )

    room_above :
        (k : ℕ)
        → k < length es
        → offset ≡ (extent es k).end
        → (m : ℕ) → k < m
        → m < length es
        → offset + page ≤ (extent es m).start
    room_above k lt e m h g =
        grind (arith, fresh m g, start-lt-end es m s g, end-lt-start es k m s h g)

  module _ (x : Extents) (s : IsSorted x.live) (fresh : IsFresh page x.live offset) where
    below_merged :
        (k : ℕ)
        → k < length x.live
        → offset + page ≡ (extent x.live k).start
        → (ltb 0 k && (extent x.live (k - 1)).end == offset) ≡ true
        → IsAdded x.live (
            remove
              (set
                (set x.live k (record (extent x.live k) { start = offset }))
                (k - 1)
                (record (extent x.live (k - 1)) { end = (extent x.live k).end }))
              k)
    below_merged zero lt e t = ground arith
    below_merged (suc j) lt e t =
        let q : suc j - 1 ≡ j = omega arith in
        let f : (extent x.live j).end ≡ offset = rw q at (both (suc j) t).1 in
        rw q (rw (remove-set, remove-set_self) (merged-IsAdded x.live s fresh j lt f e))
      where
        both :
            (k : ℕ)
            → (ltb 0 k && (extent x.live (k - 1)).end == offset) ≡ true
            → (0 < k) × ((extent x.live (k - 1)).end ≡ offset)
        both k t = ground arith

    clear_below :
        (k : ℕ)
        → k < length x.live
        → offset + page ≡ (extent x.live k).start
        → (ltb 0 k && (extent x.live (k - 1)).end == offset) ≡ false
        → (m : ℕ) → m < k
        → (extent x.live m).end < offset
    clear_below k lt e t m h =
        let apart : (extent x.live (k - 1)).end ≢ offset = ground arith in
        let near = room_below x.live s fresh k lt e (k - 1) (omega arith) in
        elim (ℕ_discrete m (k - 1)) [
          | yes q ↦ rw q (omega arith)
          | no q ↦ omega (
            arith,
            end-lt-start x.live m (k - 1) s (omega arith) (omega arith),
            start-lt-end x.live (k - 1) s (omega arith),
          )
        ]

    above_merged :
        (k : ℕ)
        → k < length x.live
        → offset ≡ (extent x.live k).end
        → (ltb (k + 1) (length x.live)
            && (extent x.live k).end + page == (extent x.live (k + 1)).start)
          ≡ true
        → IsAdded x.live (
            remove
              (set x.live k (record (extent x.live k) { end = (extent x.live (k + 1)).end }))
              (k + 1))
    above_merged k lt e t =
        let within : k + 1 < length x.live = ground arith in
        let meets : (extent x.live k).end + page ≡ (extent x.live (k + 1)).start = ground arith in
        rw add-one (
          rw remove-set (
            merged-IsAdded x.live s fresh k (rw add-one at within) (sym e)
              (rw (e, ← add-one) meets)))

    clear_above :
        (k : ℕ)
        → k < length x.live
        → offset ≡ (extent x.live k).end
        → (ltb (k + 1) (length x.live)
            && (extent x.live k).end + page == (extent x.live (k + 1)).start)
          ≡ false
        → (m : ℕ) → k < m
        → m < length x.live
        → (extent x.live k).end + page < (extent x.live m).start
    clear_above k lt e t m h g =
        let apart : (extent x.live k).end + page ≢ (extent x.live (k + 1)).start = ground arith in
        let near = room_above x.live s fresh k lt e (k + 1) (omega arith) (omega arith) in
        elim (ℕ_discrete m (k + 1)) [
          | yes q ↦ rw q (omega arith)
          | no q ↦ omega (
            arith,
            end-lt-start x.live (k + 1) m s (omega arith) g,
            start-lt-end x.live (k + 1) s (omega arith),
          )
        ]

    pub extend_below-IsAdded :
        (k : ℕ)
        → k < length x.live
        → offset + page ≡ (extent x.live k).start
        → IsAdded x.live (extend_below page x offset k).live
    unfolding extend_below
    extend_below-IsAdded k lt e =
        elim (Bool-cases (ltb 0 k && (extent x.live (k - 1)).end == offset)) [
          | inl t ↦ rw t (below_merged k lt e t)
          | inr t ↦ rw t (
              grown-IsAdded x.live s fresh k (record (extent x.live k) { start = offset }) lt
                (omega (arith, start-lt-end x.live k s lt)) (λ m h g. clear_below k lt e t m h)
                (λ m h g. end-lt-start x.live k m s h g)
                (λ y. ground (arith, start-lt-end x.live k s lt)))
        ]

    pub extend_above-IsAdded :
        (k : ℕ)
        → k < length x.live
        → offset ≡ (extent x.live k).end
        → IsAdded x.live (extend_above page x offset k).live
    unfolding extend_above
    extend_above-IsAdded k lt e =
        elim (Bool-cases (
          ltb (k + 1) (length x.live)
          && (extent x.live k).end + page == (extent x.live (k + 1)).start)) [
            | inl t ↦ rw t (above_merged k lt e t)
            | inr t ↦ rw t (
                grown-IsAdded x.live s fresh k
                  (record (extent x.live k) { end = (extent x.live k).end + page }) lt
                  (omega (arith, start-lt-end x.live k s lt))
                  (λ m h g. end-lt-start x.live m k s h lt) (λ m h g. clear_above k lt e t m h g)
                  (λ y. ground (arith, start-lt-end x.live k s lt)))
          ]
