-- ===== src/Swap/Writer.antt =====
-- `struct swap_writer` of suspend.c and the functions that turn a stream of pages into pages of
-- swap: `preallocate_swap`, `save_extents`, `next_swap_page`, `save_page`.
-- `extents` is the whole array, `max` + 1 entries. `cur_extent` is the entry `cur_extent_idx`; the
-- two move together. `swap_needed` is signed in C and may end below 0, where it is only compared
-- with the page size: subtraction that stops at 0 gives the same answers.
use suspend.Common.{
  ℕ, ◌+◌, ◌-◌, ◌/◌, Bool, false, ◌&&◌, List, ◌∷◌, ◌++◌, ltb, ◌==◌, if◌then◌else◌, set, length, take,
  drop, replicate,
}
use suspend.Extents.{Extent, Extents, extent, nothing}
use suspend.SwapAlloc.{SwapDevice, Allocation, get_swap_page, alloc_swap}
use suspend.Swap.{Status, ok, enospc, Format, Disk, write_page}

pub record Writer (D Page : Type 0) : Type 0 where
  pub extents : List Extent
  pub nr_extents : ℕ
  pub cur_extent_idx : ℕ
  pub cur_offset : ℕ
  pub swap_needed : ℕ
  pub written_data : ℕ
  pub extents_spc : ℕ
  pub dev : D
  pub disk : Disk Page

abbrev pub split_at : ℕ → List Extent → Extents
split_at n es = record { live = take n es; rest = drop n es }

abbrev pub joined : Extents → List Extent
joined x = x.live ++ x.rest

module _ (k : SwapDevice) (format : Format) (write_ok : ℕ → Bool) (page max : ℕ)
    (do_compress : Bool) where
  open k use {State}
  open format use {Page, of_table}

  abbrev pub SwapWriter : Type 0
  SwapWriter = Writer State Page

  -- The answer of `alloc_swap` goes into the handle: at most `max` entries count as in use.
  unfoldable pub take_allocation : SwapWriter → Allocation State → ℕ × SwapWriter
  take_allocation w a =
      let es = joined a.exts in
      let n = length a.exts.live in
      if a.failed then (0, record w { extents = es; dev = a.dev }) else (
        (extent es 0).start,
        record w {
          extents = es;
          nr_extents = if ltb n max then n else max;
          cur_extent_idx = 0;
          cur_offset = (extent es 0).start;
          dev = a.dev;
        },
      )

  -- With compression half of the swap needed is tried first.
  abbrev pub wanted : SwapWriter → ℕ
  wanted w = if do_compress && ltb page w.swap_needed then w.swap_needed / 2 else w.swap_needed

  unfoldable pub preallocate_swap : SwapWriter → ℕ × SwapWriter
  preallocate_swap w =
      let a = alloc_swap k page max (wanted w) (split_at w.nr_extents w.extents) w.dev in
      if ltb w.swap_needed page then (0, w) else take_allocation w a

  -- The table goes to the page kept for it; the page for the next table is noted in its last entry.
  unfoldable pub save_table : SwapWriter → ℕ → Status × SwapWriter
  save_table w offset =
      let (s, d) = write_page write_ok w.disk (of_table w.extents) w.extents_spc in
      (s, record w { disk = d; extents_spc = offset })

  unfoldable pub save_extents : SwapWriter → Bool → Status × SwapWriter
  save_extents w finish =
      let offset = (get_swap_page k w.dev).0 in
      let d = (get_swap_page k w.dev).1 in
      let last = record (extent w.extents max) { start = offset } in
      if finish
      then save_table w 0
      else if offset == 0
      then (enospc, record w { dev = d })
      else save_table (record w { extents = set w.extents max last; dev = d }) offset

  -- The extent behind the last one in use, if there is one, is kept for the next table.
  unfoldable pub carried : SwapWriter → ℕ → Extent
  carried w i =
      if ltb (extent w.extents i).start (extent w.extents i).end
      then extent w.extents i
      else nothing

  -- A new table is begun with the extent carried over, if the last one was saved.
  unfoldable pub begin_table : Status × SwapWriter → Extent → ℕ × SwapWriter
  begin_table (ok, w) ext = preallocate_swap (record w { extents = ext ∷ replicate max nothing })
  begin_table (e, w) ext = (0, w)

  -- The handle before the table is saved: what is carried over is cleared in it.
  abbrev pub cleared : SwapWriter → ℕ → SwapWriter
  cleared w i =
      let left = ltb (extent w.extents i).start (extent w.extents i).end in
      record w {
        extents = if left then set w.extents i nothing else w.extents;
        nr_extents = if left then 1 else 0;
        cur_extent_idx = i;
      }

  unfoldable pub next_table : SwapWriter → ℕ → ℕ × SwapWriter
  next_table w i = begin_table (save_extents (cleared w i) false) (carried w i)

  unfoldable pub next_swap_page : SwapWriter → ℕ × SwapWriter
  next_swap_page w =
      let offset = w.cur_offset + page in
      let i = w.cur_extent_idx + 1 in
      if ltb offset (extent w.extents w.cur_extent_idx).end
      then (offset, record w { cur_offset = offset })
      else if ltb i w.nr_extents
      then (
        (extent w.extents i).start,
        record w { cur_extent_idx = i; cur_offset = (extent w.extents i).start },
      )
      else next_table (record w { cur_offset = offset }) i

  -- A page is counted if its write succeeds.
  abbrev pub stored : SwapWriter → Status × Disk Page → Status × SwapWriter
  stored w (ok, d) = (
    ok,
    record w { disk = d; swap_needed = w.swap_needed - page; written_data = w.written_data + page },
  )
  stored w (e, d) = (e, record w { disk = d })

  unfoldable pub store_page : SwapWriter → Page → ℕ → Status × SwapWriter
  store_page w src offset = stored w (write_page write_ok w.disk src offset)

  unfoldable pub save_page : SwapWriter → Page → Status × SwapWriter
  save_page w src =
      let offset = (next_swap_page w).0 in
      let w' = (next_swap_page w).1 in
      if offset == 0 then (enospc, w') else store_page w' src offset
