-- ===== src/SwapAlloc/Loop.antt =====
-- The loop of `alloc_swap` in suspend.c, and the function as a whole.
use suspend.Common.{
  ℕ, zero, suc, ◌+◌, ◌*◌, ◌≤◌, ◌<◌, ◌≡◌, ◌≢◌, ◌⊎◌, inl, inr, refl, true, false, ◌&&◌, Bool-cases,
  List, [], ◌∷◌, sym, subst, arith, ltb, leb, ◌==◌, ==_false→ne, length,
}
use suspend.Extents.{Extent, Extents, add_page}
use suspend.Extents.Order.{IsSorted}
use suspend.Extents.Cover.{covers}
use suspend.SwapAlloc.{
  SwapDevice, IsAllocator, Allocation, get_swap_page, alloc_loop, first_extent, alloc_swap,
}
use suspend.SwapAlloc.Total.{IsAccount, round-IsAccount, get_swap_page_law}

module _ (k : SwapDevice) where
  open k use {State}

  -- Calls of `get_swap_page`, each of which gives a page, lead from one state to the other.
  unfoldable pub Grants : ℕ → State → State → Type 0
  Grants zero d d' = d ≡ d'
  Grants (suc n) d d' = ((get_swap_page k d).0 ≢ 0) × Grants n (get_swap_page k d).1 d'

  Grants-suc :
      (n : ℕ) (d d' : State)
      → Grants n d d'
      → (get_swap_page k d').0 ≢ 0
      → Grants (suc n) d (get_swap_page k d').1
  unfolding Grants
  Grants-suc zero d d' g ne =
      subst (λ x. ((get_swap_page k x).0 ≢ 0) × ((get_swap_page k x).1 ≡ (get_swap_page k d').1))
        (sym g) (ne, refl)
  Grants-suc (suc n) d d' (a, g) ne = (a, Grants-suc n (get_swap_page k d).1 d' g ne)

module _ (k : SwapDevice) (page : ℕ) (law : IsAllocator k page) where
  open k use {State}
  open law use {used}

  module _ (pos : 0 < page) (max total : ℕ) (max_pos : 0 < max) (es : List Extent)
      (d₀ : State) where
    -- The account holds of what is left, and the pages that the kernel gave, each counted in full, are
    -- enough or fill the array.
    pub record IsFull (a : Allocation State) : Type 0 where
      pub account : IsAccount k page law max es d₀ a.exts a.dev
      pub pages : ℕ
      pub grants : Grants k pages d₀ a.dev
      pub bytes : a.size ≡ pages * page
      pub enough : (total ≤ pages * page) ⊎ (max < length a.exts.live)

    alloc_loop-IsFull :
        (f : ℕ) (x : Extents) (size n : ℕ) (d : State)
        → total ≤ size + f
        → size ≡ n * page
        → Grants k n d₀ d
        → IsAccount k page law max es d₀ x d
        → (alloc_loop k page max total f x size d).failed ≡ false
        → IsFull (alloc_loop k page max total f x size d)
    unfolding alloc_loop
    alloc_loop-IsFull zero x size n d h b g a ok = record {
      account = a;
      pages = n;
      grants = g;
      bytes = b;
      enough = inl (omega arith);
    }
    alloc_loop-IsFull (suc f) x size n d h b g a ok =
        elim (Bool-cases (ltb size total && leb (length x.live) max)) [
          | inr t ↦
              rw t (record { account = a; pages = n; grants = g; bytes = b; enough = ground arith })
          | inl t ↦ elim (Bool-cases ((get_swap_page k d).0 == 0)) [
            | inl u ↦ let q : true ≡ false = rw (t, u, alloc_loop) at ok in cc
            | inr u ↦
                rw (t, u)
                  (alloc_loop-IsFull f (add_page page max x (get_swap_page k d).0) (size + page)
                    (suc n) (get_swap_page k d).1 (omega arith) (omega arith)
                    (Grants-suc k n d₀ d g (==_false→ne _ _ u))
                    (round-IsAccount k page law pos max total max_pos es d₀ x d a (ground arith)
                      (==_false→ne _ _ u))
                    (rw (t, u, alloc_loop) at ok))
          ]
        ]

    -- The first page of an empty array.
    first-IsAccount :
        (rest : List Extent)
        → (get_swap_page k d₀).0 ≢ 0
        → IsAccount k page law max [] d₀
            (first_extent k page max total
              (record { live = []; rest = rest })
              (get_swap_page k d₀).0)
            (get_swap_page k d₀).1
    unfolding first_extent
    first-IsAccount rest ne =
        let g = get_swap_page_law k page law d₀ ne in
        record {
          shaped = inl (omega arith, tt, tt);
          some = omega arith;
          few = omega arith;
          cover = λ y. let (a, b) = g y in ground arith;
          inside = λ y h. let (a, b) = g y in ground arith;
          keeps = λ y h. let (a, b) = g y in ground arith;
        }

module _ (k : SwapDevice) (page : ℕ) (law : IsAllocator k page) (pos : 0 < page) (max total : ℕ)
    (max_pos : 0 < max) where
  alloc_swap_on :
      (live rest : List Extent) (d : k.State)
      → IsSorted live
      → length live ≤ max
      → ((y : ℕ) → covers live y ≡ true → law.used d y ≡ true)
      → (alloc_swap k page max total (record { live = live; rest = rest }) d).failed ≡ false
      → IsFull k page law pos max total max_pos live d
          (alloc_swap k page max total (record { live = live; rest = rest }) d)
  unfolding alloc_swap Grants
  alloc_swap_on [] rest d s room inside ok = elim (Bool-cases ((get_swap_page k d).0 == 0)) [
    | inl u ↦ let q : true ≡ false = rw u at ok in cc
    | inr u ↦ rw u (
        alloc_loop-IsFull k page law pos max total max_pos [] d total _ page 1 (get_swap_page k d).1
          (omega arith) (omega arith) (Grants-suc k 0 d d refl (==_false→ne _ _ u))
          (first-IsAccount k page law pos max total max_pos [] d rest (==_false→ne _ _ u))
          (rw u at ok))
  ]
  alloc_swap_on (e ∷ es) rest d s room inside ok =
      let t : (suc (length es) == 0) ≡ false = ground arith in
      rw t (
        alloc_loop-IsFull k page law pos max total max_pos (e ∷ es) d total _ 0 0 d (omega arith)
          (omega arith) refl
          (record {
            shaped = inl s;
            some = omega arith;
            few = omega arith;
            cover = λ y. ground arith;
            inside = inside;
            keeps = λ y h. h;
          })
          (rw t at ok))

-- A call of `alloc_swap` that succeeds, on an array in order whose extents are in use, goes on until
-- the pages that the kernel granted during the call have at least the bytes asked for or the array is
-- full: it calls `get_swap_page` a number of times, is given a page each time, and counts just those
-- pages. Its extents then cover exactly the bytes covered before and those that the kernel
-- granted during the call, all in use; they are in order, but for a last single page when the array is
-- full.
pub alloc_swap-IsFull :
    (k : SwapDevice) (page : ℕ) (law : IsAllocator k page) (pos : 0 < page) (max total : ℕ)
    (max_pos : 0 < max) (x : Extents) (d : k.State)
    → IsSorted x.live
    → length x.live ≤ max
    → ((y : ℕ) → covers x.live y ≡ true → law.used d y ≡ true)
    → (alloc_swap k page max total x d).failed ≡ false
    → IsFull k page law pos max total max_pos x.live d (alloc_swap k page max total x d)
alloc_swap-IsFull k page law pos max total max_pos x d s room inside ok =
    alloc_swap_on k page law pos max total max_pos x.live x.rest d s room inside ok
