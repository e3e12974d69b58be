-- ===== src/Swap/Reader.antt =====
-- `struct swap_reader` of load.c and the functions that find the image pages again:
-- `load_extents_page`, `find_next_image_page`, and the load of one page.
use suspend.Common.{ℕ, ◌+◌, Bool, List, ltb, if◌then◌else◌, set}
use suspend.Extents.{Extent, extent, nothing}
use suspend.Swap.{Status, ok, Format, Disk, read_page}

-- `total_size` is what is left to read, signed in C and here cut at 0: it is only compared with 0.
pub record Reader : Type 0 where
  pub extents : List Extent
  pub cur_extent_idx : ℕ
  pub cur_offset : ℕ
  pub next_extents : ℕ
  pub total_size : ℕ

module _ (format : Format) (read_ok : ℕ → Bool) (page max : ℕ) (disk : Disk format.Page) where
  open format use {Page, of_table, to_table}

  -- The table in memory, with its last entry taken out and cleared.
  unfoldable pub take_table : Reader → List Extent → Reader
  take_table r es = record r {
    next_extents = (extent es max).start;
    extents = set es max nothing;
    cur_extent_idx = 0;
    cur_offset = (extent (set es max nothing) 0).start;
  }

  abbrev pub loaded : Reader → Status × Page → Status × Reader
  loaded r (ok, p) = (ok, take_table r (to_table p))
  loaded r (e, p) = (e, r)

  unfoldable pub load_extents_page : Reader → Status × Reader
  load_extents_page r = loaded r (read_page read_ok disk (of_table r.extents) r.next_extents)

  -- A table that cannot be read leaves offset 0, at which the next load fails.
  abbrev pub or_zero : Status × Reader → Reader
  or_zero (ok, r) = r
  or_zero (e, r) = record r { cur_offset = 0 }

  unfoldable pub find_next_image_page : Reader → Reader
  find_next_image_page r =
      let offset = r.cur_offset + page in
      let i = r.cur_extent_idx + 1 in
      let start = (extent r.extents i).start in
      if ltb offset (extent r.extents r.cur_extent_idx).end
      then record r { cur_offset = offset }
      else if ltb start (extent r.extents i).end
      then record r { cur_extent_idx = i; cur_offset = start }
      else or_zero (load_extents_page (record r { cur_offset = offset; cur_extent_idx = i }))
