-- ===== src/Extents.antt =====
-- The array of extents of suspend.c (`struct extent` of swsusp.h) and one round of the loop in
-- `alloc_swap`: the binary search for the extent next to a new swap page, and what is done there.
-- The array has a fixed number of entries. `live` are its first `nr_extents` entries and `rest`
-- those behind them, whose stale contents later code reads.
pub mod Order
pub mod Search
pub mod Cover
pub mod Merge
pub mod AddPage
pub mod Shape
use suspend.Common.{
  ℕ, zero, suc, ◌+◌, ◌-◌, ◌/◌, Bool, true, false, ◌&&◌, ◌||◌, List, [], ◌∷◌, ◌++◌, ltb, leb, ◌==◌,
  if◌then◌else◌, get_or, set, length, drop,
}

pub record Extent : Type 0 where
  pub start : ℕ
  pub end : ℕ

pub record Extents : Type 0 where
  pub live : List Extent
  pub rest : List Extent

abbrev pub nothing : Extent
nothing = record { start = 0; end = 0 }

abbrev pub extent : List Extent → ℕ → Extent
extent es k = get_or es k nothing

-- `memmove` to the front over entry `k`, and to the back from entry `k` on.
abbrev pub remove : List Extent → ℕ → List Extent
remove [] k = []
remove (e ∷ es) zero = es
remove (e ∷ es) (suc k) = e ∷ remove es k

abbrev pub insert : List Extent → ℕ → Extent → List Extent
insert es zero new = new ∷ es
insert [] (suc k) new = new ∷ []
insert (e ∷ es) (suc k) new = e ∷ insert es k new

-- Where the search ends: at an extent that starts behind the page, at one that ends before it, or
-- at entry `i` with no match.
pub data Hit : Type 0 where
  below above miss : ℕ → Hit

module _ (page : ℕ) where
  -- The body of the search at entry `k`, which the label `Repeat` also reaches: `right` and `left`
  -- are what follows where the page lies behind or before that extent.
  abbrev pub compare_at : List Extent → ℕ → ℕ → Hit → Hit → Hit
  compare_at es offset k right left =
      if offset + page == (extent es k).start
      then below k
      else if offset == (extent es k).end
      then above k
      else if ltb (extent es k).end offset
      then right
      else left

  pub search : ℕ → List Extent → ℕ → ℕ → ℕ → Hit
  search zero es offset i j = miss i
  search (suc fuel) es offset i j =
      let k = (i + j) / 2 in
      let right = search fuel es offset k j in
      let left = search fuel es offset i k in
      let repeat = compare_at es offset j (miss j) (miss j) in
      compare_at es offset k
        (if i == k then (if ltb i j then repeat else miss i) else if ltb k j then right else miss k)
        (if ltb i k then left else miss i)

  -- The last entry in use moves one place to the front and stays behind as it was.
  abbrev pub pull : Extents → ℕ → Extents
  pull x k = record { live = remove x.live k; rest = extent x.live (length x.live - 1) ∷ x.rest }

  pub extend_below : Extents → ℕ → ℕ → Extents
  extend_below x offset k =
      let ext = record (extent x.live k) { start = offset } in
      let prev = extent x.live (k - 1) in
      let grown : Extents = record x { live = set x.live k ext } in
      if ltb 0 k && (prev.end == offset)
      then pull (record x { live = set grown.live (k - 1) (record prev { end = ext.end }) }) k
      else grown

  pub extend_above : Extents → ℕ → ℕ → Extents
  extend_above x offset k =
      let ext = record (extent x.live k) { end = (extent x.live k).end + page } in
      let next = extent x.live (k + 1) in
      let grown : Extents = record x { live = set x.live k ext } in
      if ltb (k + 1) (length x.live) && (ext.end == next.start)
      then pull (record x { live = set x.live k (record ext { end = next.end }) }) (k + 1)
      else grown

  -- No match. With room the array is kept sorted, and without it the new extent goes to the end.
  pub new_extent : ℕ → Extents → ℕ → ℕ → Extents
  new_extent max x offset i =
      let new : Extent = record { start = offset; end = offset + page } in
      let at = if ltb (extent x.live i).end offset then i + 1 else i in
      record {
        live = if ltb (length x.live) max then insert x.live at new else x.live ++ (new ∷ []);
        rest = drop 1 x.rest;
      }

  pub apply_hit : ℕ → Extents → ℕ → Hit → Extents
  unfolding extend_below extend_above new_extent
  apply_hit max x offset (below k) = extend_below x offset k
  apply_hit max x offset (above k) = extend_above x offset k
  apply_hit max x offset (miss i) = new_extent max x offset i

  unfoldable pub add_page : ℕ → Extents → ℕ → Extents
  unfolding search apply_hit
  add_page max x offset =
      let n = length x.live in apply_hit max x offset (search n x.live offset 0 (n - 1))
