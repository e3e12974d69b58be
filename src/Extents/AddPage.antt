-- ===== src/Extents/AddPage.antt =====
-- One round of the loop in `alloc_swap` of suspend.c, from the search to the change of the array.
use suspend.Common.{
  ℕ, ◌+◌, ◌-◌, ◌≤◌, ◌<◌, ◌≡◌, refl, ◌⊎◌, inl, inr, true, Bool-cases, [], ◌∷◌, ◌++◌, arith, ltb,
  ltb→lt, ltb_false→le, length, ℕ_discrete, if◌then◌else◌,
}
use suspend.Extents.{
  Extent, Extents, extent, Hit, below, above, miss, new_extent, apply_hit, add_page,
}
use suspend.Extents.Order.{IsSorted, IsSorted-insert}
use suspend.Extents.Search.{IsFresh, IsPlaced, search-IsPlaced}
use suspend.Extents.Cover.{covers-insert, length-insert}
use suspend.Extents.Merge.{IsAdded, extend_below-IsAdded, extend_above-IsAdded}

module _ (page : ℕ) (pos : 0 < page) (offset : ℕ) where
  abbrev pub one_page : Extent
  one_page = record { start = offset; end = offset + page }

  module _ (max : ℕ) (x : Extents) (s : IsSorted x.live) (fresh : IsFresh page x.live offset) where
    -- With room the new extent goes between its neighbours.
    new_extent-IsAdded :
        (i : ℕ)
        → IsPlaced page x.live offset (miss i)
        → length x.live < max
        → IsAdded page pos offset x.live (new_extent page max x offset i).live
    unfolding new_extent
    new_extent-IsAdded i p h =
        let room : ltb (length x.live) max ≡ true = ground arith in
        rw room (record {
          sorted =
              IsSorted-insert x.live at one_page s (omega arith)
                (λ m h g. elim (ℕ_discrete m i) [
                  | yes q ↦ rw q (ground arith)
                  | no q ↦ p.2 m (ground arith)
                ])
                (λ m h g. elim (ℕ_discrete m i) [
                  | yes q ↦ let either = p.1 in rw q (ground arith)
                  | no q ↦ p.3 m (ground arith) g
                ]);
          cover = λ y. ground (arith, covers-insert x.live at y one_page);
          count = omega (arith, length-insert x.live at one_page);
        })
      where
        at : ℕ
        at = if ltb (extent x.live i).end offset then i + 1 else i

    placed_full :
        (h : Hit)
        → IsPlaced page x.live offset h
        → IsAdded page pos offset x.live (apply_hit page max x offset h).live
          ⊎ ((max ≤ length x.live)
              × ((apply_hit page max x offset h).live ≡ x.live ++ (one_page ∷ [])))
    unfolding apply_hit
    placed_full (below k) p = inl (extend_below-IsAdded page pos offset x s fresh k p.0 p.1)
    placed_full (above k) p = inl (extend_above-IsAdded page pos offset x s fresh k p.0 p.1)
    placed_full (miss i) p = elim (Bool-cases (ltb (length x.live) max)) [
      | inl t ↦ inl (new_extent-IsAdded i p (ltb→lt _ _ t))
      | inr t ↦ inr (ltb_false→le _ _ t, rw t refl)
    ]

-- The page goes into the ordered extents, or, when the array is full and the page touches none of
-- them, becomes an extent of its own at the end.
pub add_page_lem :
    (page max : ℕ) (x : Extents) (offset : ℕ) (pos : 0 < page)
    → IsSorted x.live
    → 0 < length x.live
    → IsFresh page x.live offset
    → IsAdded page pos offset x.live (add_page page max x offset).live
      ⊎ ((max ≤ length x.live)
          × ((add_page page max x offset).live ≡ x.live ++ (one_page page pos offset ∷ [])))
unfolding add_page
add_page_lem page max x offset pos s ne fresh = placed_full page pos offset max x s fresh _ (
    search-IsPlaced page x.live offset s fresh (length x.live) 0 (length x.live - 1) (omega arith)
      (omega arith) (omega arith) (λ m h. absurd (omega (arith, h)))
      (λ m h g. absurd (omega (arith, h, g))))
