-- ===== src/Swap/Ready.antt =====
-- The swap writer of suspend.c between two pages: the array of extents has its full size, the
-- extents in use are not empty, and the writer stands in one of them.
use suspend.Common.{
  ℕ, suc, ◌+◌, ◌≤◌, ◌<◌, ◌≡◌, ◌≢◌, refl, inl, inr, Bool, true, false, Bool-cases, List, [], ◌∷◌,
  arith, ltb, length, length-append, length-take-drop, length-take-le, get_or-append_lt,
  get_or-take, take, ◌∙◌,
}
use suspend.Extents.{Extent, Extents, extent, nothing}
use suspend.Extents.Shape.{IsArray, AllHold, AllHold-get}
use suspend.SwapAlloc.{SwapDevice, Allocation, alloc_swap}
use suspend.SwapAlloc.Shape.{alloc_swap-IsUsable}
use suspend.Swap.{Format}
use suspend.Swap.Writer.{Writer, split_at, preallocate_swap, take_allocation, wanted}

AllHold-of_get :
    (es : List Extent)
    → ((i : ℕ) → i < length es → (extent es i).start < (extent es i).end)
    → AllHold es
AllHold-of_get [] f = tt
AllHold-of_get (e ∷ es) f =
    (f 0 (omega arith), AllHold-of_get es (λ i h. f (suc i) (omega (arith, h))))

-- The first `n` entries are not empty.
abbrev pub Hold : List Extent → ℕ → Type 0
Hold es n = (i : ℕ) → i < n → (extent es i).start < (extent es i).end

split-IsArray :
    (max n : ℕ) (es : List Extent) → length es ≡ max + 1 → Hold es n → IsArray max (split_at n es)
split-IsArray max n es full hold = record {
  full = length-take-drop n es ∙ full;
  hold = AllHold-of_get (take n es) (λ i h.
      let lt : i < n = omega (arith, h, length-take-le n es) in
      rw (get_or-take es n i nothing lt) (hold i lt));
}

module _ (k : SwapDevice) (format : Format) (write_ok : ℕ → Bool) (page max : ℕ)
    (do_compress : Bool) where
  open k use {State}
  open format use {Page}

  pub record IsReady (w : Writer State Page) : Type 0 where
    pub full : length w.extents ≡ max + 1
    pub nr_le : w.nr_extents ≤ max
    pub idx_lt : w.cur_extent_idx < w.nr_extents
    pub hold : Hold w.extents w.nr_extents

  -- What a preallocation that gives the page `o` leaves.
  pub record IsPreallocated (w : Writer State Page) (o : ℕ) (w' : Writer State Page) : Type 0 where
    pub ready : IsReady w'
    pub idx : w'.cur_extent_idx ≡ 0
    pub offset : w'.cur_offset ≡ o
    pub first : (extent w'.extents 0).start ≡ o
    pub spc : w'.extents_spc ≡ w.extents_spc
    pub disk : w'.disk ≡ w.disk

  take_allocation-IsPreallocated :
      (w : Writer State Page) (a : Allocation State)
      → 0 < max
      → a.failed ≡ false
      → IsArray max a.exts
      → 0 < length a.exts.live
      → IsPreallocated w
          (take_allocation k format write_ok page max do_compress w a).0
          (take_allocation k format write_ok page max do_compress w a).1
  unfolding take_allocation
  take_allocation-IsPreallocated w a pos t b ne = rw t (record {
    ready = record {
      full = length-append a.exts.live a.exts.rest ∙ b.full;
      nr_le = ground arith;
      idx_lt = ground arith;
      hold = λ i h.
          let lt : i < length a.exts.live = ground arith in
          rw (get_or-append_lt a.exts.live a.exts.rest i nothing lt)
            (AllHold-get a.exts.live i b.hold lt);
    };
    idx = refl;
    offset = refl;
    first = refl;
    spc = refl;
    disk = refl;
  })

  failed_zero :
      (w : Writer State Page) (a : Allocation State)
      → a.failed ≡ true
      → (take_allocation k format write_ok page max do_compress w a).0 ≡ 0
  unfolding take_allocation
  failed_zero w a t = rw t refl

  pub preallocate_swap-IsPreallocated :
      (w : Writer State Page)
      → 0 < page
      → 0 < max
      → length w.extents ≡ max + 1
      → Hold w.extents w.nr_extents
      → (preallocate_swap k format write_ok page max do_compress w).0 ≢ 0
      → IsPreallocated w
          (preallocate_swap k format write_ok page max do_compress w).0
          (preallocate_swap k format write_ok page max do_compress w).1
  unfolding preallocate_swap
  preallocate_swap-IsPreallocated w ppos pos full hold ne =
      elim (Bool-cases (ltb w.swap_needed page)) [
        | inl t ↦ absurd (ne (rw t refl))
        | inr t ↦ elim (Bool-cases a.failed) [
          | inl u ↦ absurd (ne (rw t (failed_zero w a u)))
          | inr u ↦
              let (b, some) = alloc_swap-IsUsable k page ppos max size x w.dev arr u in
              rw t (take_allocation-IsPreallocated w a pos u b some)
        ]
      ]
    where
      size : ℕ
      size = wanted k format write_ok page max do_compress w

      x : Extents
      x = split_at w.nr_extents w.extents

      a : Allocation State
      a = alloc_swap k page max size x w.dev

      arr : IsArray max x
      arr = split-IsArray max w.nr_extents w.extents full hold
