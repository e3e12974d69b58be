-- ===== src/Extents/Shape.antt =====
-- What holds of the array of `alloc_swap` (suspend.c) whatever pages the kernel hands out: no extent
-- in use is empty, and no entry is read or written outside the array.
use suspend.Common.{
  ℕ, zero, suc, ◌+◌, ◌-◌, ◌/◌, ◌≤◌, ◌<◌, ◌≡◌, refl, inl, inr, Bool, true, false, ◌&&◌, Bool-cases,
  List, [], ◌∷◌, ◌++◌, arith, ltb, ◌==◌, ==→eq, length, length-append, length-set, set, drop,
  if◌then◌else◌,
}
use suspend.Extents.{
  Extent, Extents, extent, remove, insert, Hit, below, above, miss, compare_at, search, pull,
  extend_below, extend_above, new_extent, apply_hit, add_page,
}
use suspend.Extents.Cover.{length-remove, length-insert}

abbrev pub AllHold : List Extent → Type 0
AllHold [] = Unit
AllHold (e ∷ es) = (e.start < e.end) × AllHold es

pub AllHold-get :
    (es : List Extent) (k : ℕ)
    → AllHold es
    → k < length es
    → (extent es k).start < (extent es k).end
AllHold-get [] k a h = absurd (omega arith)
AllHold-get (e ∷ es) zero a h = a.0
AllHold-get (e ∷ es) (suc k) a h = AllHold-get es k a.1 (omega arith)

AllHold-set :
    (es : List Extent) (k : ℕ) (v : Extent) → AllHold es → v.start < v.end → AllHold (set es k v)
AllHold-set [] k v a h = tt
AllHold-set (e ∷ es) zero v a h = (h, a.1)
AllHold-set (e ∷ es) (suc k) v a h = (a.0, AllHold-set es k v a.1 h)

AllHold-remove : (es : List Extent) (k : ℕ) → AllHold es → AllHold (remove es k)
AllHold-remove [] k a = tt
AllHold-remove (e ∷ es) zero a = a.1
AllHold-remove (e ∷ es) (suc k) a = (a.0, AllHold-remove es k a.1)

AllHold-insert :
    (es : List Extent) (k : ℕ) (v : Extent) → AllHold es → v.start < v.end → AllHold (insert es k v)
AllHold-insert es zero v a h = (h, a)
AllHold-insert [] (suc k) v a h = (h, tt)
AllHold-insert (e ∷ es) (suc k) v a h = (a.0, AllHold-insert es k v a.1 h)

AllHold-append : (es fs : List Extent) → AllHold es → AllHold fs → AllHold (es ++ fs)
AllHold-append [] fs a b = b
AllHold-append (e ∷ es) fs a b = (a.0, AllHold-append es fs a.1 b)

pub length-drop_one : (es : List Extent) → 0 < length es → suc (length (drop 1 es)) ≡ length es
length-drop_one [] h = absurd (omega arith)
length-drop_one (e ∷ es) h = refl

-- The array of `max` + 1 entries, with the entries in use not empty.
pub record IsArray (max : ℕ) (x : Extents) : Type 0 where
  pub full : length x.live + length x.rest ≡ max + 1
  pub hold : AllHold x.live

module _ (page : ℕ) (pos : 0 < page) (offset : ℕ) where
  -- A hit is an entry in use next to the page.
  abbrev IsHit : List Extent → Hit → Type 0
  IsHit es (below k) = (k < length es) × (offset + page ≡ (extent es k).start)
  IsHit es (above k) = (k < length es) × (offset ≡ (extent es k).end)
  IsHit es (miss i) = Unit

  compare_at-IsHit :
      (es : List Extent) (k : ℕ) (right left : Hit)
      → k < length es
      → IsHit es right
      → IsHit es left
      → IsHit es (compare_at page es offset k right left)
  compare_at-IsHit es k right left lt r l =
      elim (Bool-cases (offset + page == (extent es k).start)) [
        | inl t ↦ rw t (lt, ==→eq _ _ t)
        | inr t ↦ elim (Bool-cases (offset == (extent es k).end)) [
          | inl u ↦ rw (t, u) (lt, ==→eq _ _ u)
          | inr u ↦ rw (t, u) (if-IsHit (ltb (extent es k).end offset))
        ]
      ]
    where
      if-IsHit : (b : Bool) → IsHit es (if b then right else left)
      if-IsHit true = r
      if-IsHit false = l

  search-IsHit :
      (es : List Extent) (f i j : ℕ)
      → i ≤ j
      → j < length es
      → IsHit es (search page f es offset i j)
  unfolding search
  search-IsHit es zero i j le lt = tt
  search-IsHit es (suc f) i j le lt =
      compare_at-IsHit es ((i + j) / 2) _ _ (omega arith)
        (pick (i == (i + j) / 2) _ _
          (λ _.
            pick (ltb i j) _ _ (λ _. compare_at-IsHit es j (miss j) (miss j) lt tt tt) (λ _. tt))
          (λ _.
            pick (ltb ((i + j) / 2) j) _ _ (λ _. search-IsHit es f ((i + j) / 2) j (omega arith) lt)
              (λ _. tt)))
        (pick (ltb i ((i + j) / 2)) _ _
          (λ _. search-IsHit es f i ((i + j) / 2) (omega arith) (omega arith)) (λ _. tt))
    where
      pick :
          (b : Bool) (x y : Hit)
          → (b ≡ true → IsHit es x)
          → (b ≡ false → IsHit es y)
          → IsHit es (if b then x else y)
      pick true x y f g = f refl
      pick false x y f g = g refl

  set-IsArray :
      (max : ℕ) (x : Extents) (k : ℕ) (v : Extent)
      → IsArray max x
      → v.start < v.end
      → IsArray max (record x { live = set x.live k v })
  set-IsArray max x k v a h = record {
    full = omega (arith, length-set x.live k v, a.full);
    hold = AllHold-set x.live k v a.hold h;
  }

  pull-IsArray :
      (max : ℕ) (x : Extents) (k : ℕ)
      → IsArray max x
      → k < length x.live
      → 1 < length x.live
      → IsArray max (pull page x k) × (0 < length (pull page x k).live)
  pull-IsArray max x k a h two = (
    record {
      full = omega (arith, length-remove x.live k h, a.full);
      hold = AllHold-remove x.live k a.hold;
    },
    omega (arith, length-remove x.live k h),
  )

  extend_below-IsArray :
      (max : ℕ) (x : Extents) (k : ℕ)
      → IsArray max x
      → k < length x.live
      → offset + page ≡ (extent x.live k).start
      → IsArray max (extend_below page x offset k)
        × (0 < length (extend_below page x offset k).live)
  unfolding extend_below
  extend_below-IsArray max x k a lt e =
      elim (Bool-cases (ltb 0 k && (extent x.live (k - 1)).end == offset)) [
        | inl t ↦
            let behind = AllHold-get x.live (k - 1) a.hold (omega arith) in
            let meets : (0 < k) × ((extent x.live (k - 1)).end ≡ offset) = ground arith in
            rw t (
              pull-IsArray max _ k (set-IsArray max grown (k - 1) prev b (omega (arith, hold)))
                (omega (arith, same, len)) (omega (arith, same, len)))
        | inr t ↦ rw t (b, omega (arith, len))
      ]
    where
      ext : Extent
      ext = record { start = offset; end = (extent x.live k).end }

      prev : Extent
      prev = record { start = (extent x.live (k - 1)).start; end = (extent x.live k).end }

      grown : Extents
      grown = record x { live = set x.live k ext }

      hold : (extent x.live k).start < (extent x.live k).end
      hold = AllHold-get x.live k a.hold lt

      b : IsArray max grown
      b = set-IsArray max x k ext a (omega (arith, hold))

      len : length (set x.live k ext) ≡ length x.live
      len = length-set x.live k ext

      same : length (set grown.live (k - 1) prev) ≡ length grown.live
      same = length-set grown.live (k - 1) prev

  extend_above-IsArray :
      (max : ℕ) (x : Extents) (k : ℕ)
      → IsArray max x
      → k < length x.live
      → IsArray max (extend_above page x offset k)
        × (0 < length (extend_above page x offset k).live)
  unfolding extend_above
  extend_above-IsArray max x k a lt =
      elim (Bool-cases (
        ltb (k + 1) (length x.live)
        && (extent x.live k).end + page == (extent x.live (k + 1)).start)) [
          | inl t ↦
              let within : k + 1 < length x.live = ground arith in
              let meets : (extent x.live k).end + page ≡ (extent x.live (k + 1)).start =
                ground arith in
              let next = AllHold-get x.live (k + 1) a.hold within in
              let ext : Extent = record (extent x.live k) { end = (extent x.live (k + 1)).end } in
              let len = length-set x.live k ext in
              rw t (
                pull-IsArray max _ (k + 1) (set-IsArray max x k ext a (omega (arith, hold)))
                  (omega (arith, len)) (omega (arith, len)))
          | inr t ↦
              let ext : Extent = record (extent x.live k) { end = (extent x.live k).end + page } in
              rw t (
                set-IsArray max x k ext a (omega (arith, hold)),
                omega (arith, length-set x.live k ext),
              )
        ]
    where
      hold : (extent x.live k).start < (extent x.live k).end
      hold = AllHold-get x.live k a.hold lt

  new_extent-IsArray :
      (max : ℕ) (x : Extents) (i : ℕ)
      → IsArray max x
      → length x.live ≤ max
      → IsArray max (new_extent page max x offset i)
        × (0 < length (new_extent page max x offset i).live)
  unfolding new_extent
  new_extent-IsArray max x i a room =
      let r = length-drop_one x.rest (omega (arith, a.full)) in
      elim (Bool-cases (ltb (length x.live) max)) [
        | inl t ↦
            let at : ℕ = if ltb (extent x.live i).end offset then i + 1 else i in
            rw t (
              record {
                full = omega (arith, length-insert x.live at new, a.full);
                hold = AllHold-insert x.live at new a.hold (omega arith);
              },
              omega (arith, length-insert x.live at new),
            )
        | inr t ↦ rw t (
          record {
            full = omega (arith, length-append x.live (new ∷ []), a.full);
            hold = AllHold-append x.live (new ∷ []) a.hold (omega arith, tt);
          },
          omega (arith, length-append x.live (new ∷ [])),
        )
      ]
    where
      new : Extent
      new = record { start = offset; end = offset + page }

  apply_hit-IsArray :
      (max : ℕ) (x : Extents) (h : Hit)
      → IsArray max x
      → length x.live ≤ max
      → IsHit x.live h
      → IsArray max (apply_hit page max x offset h)
        × (0 < length (apply_hit page max x offset h).live)
  unfolding apply_hit
  apply_hit-IsArray max x (below k) a room h = extend_below-IsArray max x k a h.0 h.1
  apply_hit-IsArray max x (above k) a room h = extend_above-IsArray max x k a h.0
  apply_hit-IsArray max x (miss i) a room h = new_extent-IsArray max x i a room

  -- A round of `alloc_swap` on an array with a free entry stays inside it.
  pub add_page-IsArray :
      (max : ℕ) (x : Extents)
      → IsArray max x
      → 0 < length x.live
      → length x.live ≤ max
      → IsArray max (add_page page max x offset) × (0 < length (add_page page max x offset).live)
  unfolding add_page
  add_page-IsArray max x a ne room =
      apply_hit-IsArray max x _ a room
        (search-IsHit x.live (length x.live) 0 (length x.live - 1) (omega arith) (omega arith))
