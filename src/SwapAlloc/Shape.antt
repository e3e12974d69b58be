-- ===== src/SwapAlloc/Shape.antt =====
-- What `alloc_swap` of suspend.c leaves of the array, whatever the kernel answers.
use suspend.Common.{
  ℕ, zero, suc, ◌+◌, ◌<◌, ◌≡◌, inl, inr, true, false, ◌&&◌, Bool-cases, List, [], ◌∷◌, arith, ltb,
  leb, ◌==◌, length,
}
use suspend.Extents.{Extent, Extents, add_page}
use suspend.Extents.Shape.{IsArray, add_page-IsArray, length-drop_one}
use suspend.SwapAlloc.{SwapDevice, Allocation, get_swap_page, alloc_loop, alloc_swap}

module _ (k : SwapDevice) (page : ℕ) (pos : 0 < page) (max total : ℕ) where
  open k use {State}

  -- A result that did not fail has an extent in use, and none of them is empty.
  abbrev pub IsUsable : Allocation State → Type 0
  IsUsable a = IsArray max a.exts × (0 < length a.exts.live)

  alloc_loop-IsUsable :
      (f : ℕ) (x : Extents) (size : ℕ) (d : State)
      → IsArray max x
      → 0 < length x.live
      → (alloc_loop k page max total f x size d).failed ≡ false
      → IsUsable (alloc_loop k page max total f x size d)
  unfolding alloc_loop
  alloc_loop-IsUsable zero x size d a ne ok = (a, ne)
  alloc_loop-IsUsable (suc f) x size d a ne ok =
      elim (Bool-cases (ltb size total && leb (length x.live) max)) [
        | inr t ↦ rw t (a, ne)
        | inl t ↦ elim (Bool-cases ((get_swap_page k d).0 == 0)) [
          | inl u ↦ let q : true ≡ false = rw (t, u, alloc_loop) at ok in cc
          | inr u ↦
              let (b, ne') =
                add_page-IsArray page pos (get_swap_page k d).0 max x a ne (ground arith) in
              rw (t, u)
                (alloc_loop-IsUsable f (add_page page max x (get_swap_page k d).0) (size + page)
                  (get_swap_page k d).1 b ne' (rw (t, u, alloc_loop) at ok))
        ]
      ]

  alloc_swap_on :
      (live rest : List Extent) (d : State)
      → IsArray max (record { live = live; rest = rest })
      → (alloc_swap k page max total (record { live = live; rest = rest }) d).failed ≡ false
      → IsUsable (alloc_swap k page max total (record { live = live; rest = rest }) d)
  unfolding alloc_swap
  alloc_swap_on [] rest d a ok = elim (Bool-cases ((get_swap_page k d).0 == 0)) [
    | inl u ↦ let q : true ≡ false = rw u at ok in cc
    | inr u ↦ rw u (
        alloc_loop-IsUsable total _ page (get_swap_page k d).1
          (record {
            full = omega (arith, a.full, length-drop_one rest (omega (arith, a.full)));
            hold = (omega arith, tt);
          })
          (omega arith) (rw u at ok))
  ]
  alloc_swap_on (e ∷ es) rest d a ok =
      let t : (suc (length es) == 0) ≡ false = ground arith in
      rw t (alloc_loop-IsUsable total _ 0 d a (omega arith) (rw t at ok))

  -- A call that succeeds leaves at least one extent in use, none of them empty, and an array of the
  -- same size.
  pub alloc_swap-IsUsable :
      (x : Extents) (d : State)
      → IsArray max x
      → (alloc_swap k page max total x d).failed ≡ false
      → IsUsable (alloc_swap k page max total x d)
  alloc_swap-IsUsable x d a ok = alloc_swap_on x.live x.rest d a ok
