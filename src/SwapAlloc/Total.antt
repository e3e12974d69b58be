-- ===== src/SwapAlloc/Total.antt =====
-- `alloc_swap` of suspend.c ends with extents that describe exactly the swap it was given.
use suspend.Common.{
  ℕ, zero, suc, ◌+◌, ◌≤◌, ◌<◌, ◌≡◌, ◌≢◌, refl, ◌⊎◌, inl, inr, Bool, true, false, not, ◌&&◌, ◌||◌,
  List, [], ◌∷◌, ◌++◌, arith, ap, length, length-append, dec_lt,
}
use suspend.Extents.{Extent, Extents, extent, add_page}
use suspend.Extents.Order.{IsSorted, start-lt-end}
use suspend.Extents.Cover.{in_page, in_extent, covers, covers-append}
use suspend.Extents.Search.{IsFresh}
use suspend.Extents.AddPage.{add_page_lem}
use suspend.SwapAlloc.{
  Reply, granted, unsupported, refused, SwapDevice, Accounts, IsAllocator, get_swap_page, offset_of,
  after_first,
}

covers-get :
    (es : List Extent) (m y : ℕ)
    → m < length es
    → in_extent (extent es m) y ≡ true
    → covers es y ≡ true
covers-get [] m y h i = absurd (omega arith)
covers-get (e ∷ es) zero y h i = ground arith
covers-get (e ∷ es) (suc m) y h i = ground (arith, covers-get es m y)

-- An extent that the list covers only with bytes in use does not overlap a free page.
fresh_of_used :
    (page : ℕ) (es : List Extent) (offset : ℕ) (used : ℕ → Bool)
    → 0 < page
    → IsSorted es
    → ((y : ℕ) → covers es y ≡ true → used y ≡ true)
    → ((y : ℕ) → in_page page offset y ≡ true → used y ≡ false)
    → IsFresh page es offset
fresh_of_used page es offset used pos s c f m lt = elim (dec_lt offset (extent es m).end) [
  | no a ↦ inl (omega arith)
  | yes a ↦ elim (dec_lt (extent es m).start (offset + page)) [
    | no b ↦ inr (omega arith)
    | yes b ↦ elim (dec_lt offset (extent es m).start) [
      | yes g ↦
          absurd (clash (extent es m).start (ground (arith, start-lt-end es m s lt)) (ground arith))
      | no g ↦ absurd (clash offset (ground arith) (ground arith))
    ]
  ]
]
  where
    clash : (y : ℕ) → in_extent (extent es m) y ≡ true → in_page page offset y ≡ true → ⊥
    clash y i j = let u = c y (covers-get es m y lt i) in let w = f y j in cc

cover_bool :
    (c c₀ u u₀ p : Bool) {c' u' : Bool}
    → c' ≡ (c || p)
    → c ≡ (c₀ || (u && not u₀))
    → u' ≡ (u || p)
    → (p ≡ true → u ≡ false)
    → (u₀ ≡ true → u ≡ true)
    → c' ≡ (c₀ || (u' && not u₀))
cover_bool c c₀ u u₀ p e f g free old = ground arith

inside_bool :
    (c u p : Bool) {c' u' : Bool}
    → c' ≡ (c || p)
    → c' ≡ true
    → (c ≡ true → u ≡ true)
    → u' ≡ (u || p)
    → u' ≡ true
inside_bool c u p e h f g = ground arith

keeps_bool : (u p : Bool) {u' : Bool} → u ≡ true → u' ≡ (u || p) → u' ≡ true
keeps_bool u p h e = ground arith

module _ (k : SwapDevice) (page : ℕ) (law : IsAllocator k page) where
  open k use {State}
  open law use {used, alloc_law, old_law}

  after_first_law :
      (before : ℕ → Bool) (r : Reply) (d : State)
      → Accounts page r before (used d)
      → (after_first k (r, d)).0 ≢ 0
      → Accounts page (granted (after_first k (r, d)).0) before (used (after_first k (r, d)).1)
  unfolding after_first
  after_first_law before (granted offset) d a ne = a
  after_first_law before refused d a ne = absurd (ne refl)
  after_first_law before unsupported d a ne = second (k.old_get_swap_page d).0 (old_law d) ne
    where
      d' : State
      d' = (k.old_get_swap_page d).1

      second :
          (r : Reply)
          → Accounts page r (used d) (used d')
          → offset_of r ≢ 0
          → Accounts page (granted (offset_of r)) before (used d')
      second (granted offset) b ne y =
          (ground (arith, a y, (b y).0), λ h. ground (arith, a y, (b y).1 h))
      second unsupported b ne y = absurd (ne refl)
      second refused b ne y = absurd (ne refl)

  -- A page from `get_swap_page` was free before and is in use after it.
  pub get_swap_page_law :
      (d : State)
      → (get_swap_page k d).0 ≢ 0
      → Accounts page (granted (get_swap_page k d).0) (used d) (used (get_swap_page k d).1)
  unfolding get_swap_page
  get_swap_page_law d ne =
      after_first_law (used d) (k.alloc_swap_page d).0 (k.alloc_swap_page d).1 (alloc_law d) ne

  -- In order; or the array is full, and the last extent is one page that stands out of order.
  abbrev pub IsShaped : ℕ → List Extent → Type 0
  IsShaped max es =
      IsSorted es
      ⊎ ((fs : List Extent) × (offset : ℕ) × IsSorted fs
          × (length fs ≡ max)
          × (es ≡ fs ++ (record { start = offset; end = offset + page } ∷ [])))

  -- What the array says of the swap allocated since the state `d₀`, in which it was `es`.
  pub record IsAccount (max : ℕ) (es : List Extent) (d₀ : State) (x : Extents) (d : State)
      : Type 0 where
    pub shaped : IsShaped max x.live
    pub some : 0 < length x.live
    pub few : length x.live ≤ max + 1
    pub cover : (y : ℕ) → covers x.live y ≡ (covers es y || (used d y && not (used d₀ y)))
    pub inside : (y : ℕ) → covers x.live y ≡ true → used d y ≡ true
    pub keeps : (y : ℕ) → used d₀ y ≡ true → used d y ≡ true

  module _ (pos : 0 < page) (max total : ℕ) (max_pos : 0 < max) (es : List Extent)
      (d₀ : State) where
    IsSorted-of_room : (fs : List Extent) → IsShaped max fs → length fs ≤ max → IsSorted fs
    IsSorted-of_room fs (inl s) h = s
    IsSorted-of_room fs (inr (gs, o, s, l, e)) h = absurd (
        omega
          (arith, ap (length {0}) e, length-append gs (record { start = o; end = o + page } ∷ [])))

    pub added-IsAccount :
        (x z : Extents) (d d' : State) (offset : ℕ)
        → IsAccount max es d₀ x d
        → Accounts page (granted offset) (used d) (used d')
        → IsShaped max z.live
        → 0 < length z.live
        → length z.live ≤ max + 1
        → ((y : ℕ) → covers z.live y ≡ (covers x.live y || in_page page offset y))
        → IsAccount max es d₀ z d'
    added-IsAccount x z d d' offset a g shaped some few c = record {
      shaped = shaped;
      some = some;
      few = few;
      cover = λ y.
          cover_bool (covers x.live y) (covers es y) (used d y) (used d₀ y) (in_page page offset y)
            (c y) (a.cover y) (g y).0 (g y).1 (a.keeps y);
      inside = λ y h.
          inside_bool (covers x.live y) (used d y) (in_page page offset y) (c y) h (a.inside y)
            (g y).0;
      keeps = λ y h. keeps_bool (used d y) (in_page page offset y) (a.keeps y h) (g y).0;
    }

    -- One round of the loop keeps the account.
    pub round-IsAccount :
        (x : Extents) (d : State)
        → IsAccount max es d₀ x d
        → length x.live ≤ max
        → (get_swap_page k d).0 ≢ 0
        → IsAccount max es d₀ (add_page page max x (get_swap_page k d).0) (get_swap_page k d).1
    round-IsAccount x d a room ne = elim (add_page_lem page max x offset pos s a.some fresh) [
      | inl added ↦
          added-IsAccount x z d d' offset a g (inl added.sorted) added.count.0
            (omega (arith, added.count)) added.cover
      | inr (full, e) ↦
          let len = length-append x.live (new ∷ []) in
          added-IsAccount x z d d' offset a g (inr (x.live, offset, s, omega arith, e))
            (omega (arith, len, ap (length {0}) e)) (omega (arith, len, ap (length {0}) e))
            (λ y. rw e (rw covers-append (ground arith)))
    ]
      where
        offset : ℕ
        offset = (get_swap_page k d).0

        d' : State
        d' = (get_swap_page k d).1

        z : Extents
        z = add_page page max x offset

        new : Extent
        new = record { start = offset; end = offset + page }

        g : Accounts page (granted offset) (used d) (used d')
        g = get_swap_page_law d ne

        s : IsSorted x.live
        s = IsSorted-of_room x.live a.shaped room

        fresh : IsFresh page x.live offset
        fresh = fresh_of_used page x.live offset (used d) pos s a.inside (λ y. (g y).1)
