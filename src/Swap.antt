-- ===== src/Swap.antt =====
-- The resume device as suspend.c and load.c see it: pages at offsets, read and written whole.
-- `lseek`, `read` and `write` are the system's: whether a page can be read or written at an offset is
-- a parameter. So is the layout in memory by which a page holds a table of extents.
pub mod Writer
pub mod Reader
pub mod Ready
pub mod Log
pub mod Advance
pub mod Follow
pub mod Run
pub mod Save
pub mod RoundTrip
pub mod Image
pub mod Buffered
pub mod Flush
pub mod Flushed
pub mod Whole
pub mod Complete
pub mod Tests
mod BufferTests
use suspend.Common.{ℕ, zero, suc, ◌+◌, ◌≡◌, Bool, true, false, List, [], ◌∷◌, ◌==◌, if◌then◌else◌}
use suspend.Extents.{Extent}

-- Error codes that the tools return; `gcry` is any code of libgcrypt.
pub data Status : Type 0 where
  ok einval eio enospc efault eintr enodata enodev enomem : Status
  gcry : ℕ → Status

pub record Format : Type 1 where
  pub Page : Type 0
  pub of_table : List Extent → Page
  pub to_table : Page → List Extent
  pub to_table-of_table : (t : List Extent) → to_table (of_table t) ≡ t

-- The writes so far, the latest first, over what the device held before.
pub record Disk (Page : Type 0) : Type 0 where
  pub writes : List (ℕ × Page)
  pub old : ℕ → Page

abbrev pub find_write {ℓ} : {Page : Type ℓ} → List (ℕ × Page) → Page → ℕ → Page
find_write [] old offset = old
find_write ((o, p) ∷ ws) old offset = if o == offset then p else find_write ws old offset

abbrev pub at_offset : {Page : Type 0} → Disk Page → ℕ → Page
at_offset d offset = find_write d.writes (d.old offset) offset

-- A failed write leaves the page as it was here; the tools give up the image after it.
unfoldable pub write_page : {Page : Type 0} → (ℕ → Bool) → Disk Page → Page → ℕ → Status × Disk Page
write_page write_ok d p offset =
    if offset == 0
    then (einval, d)
    else if write_ok offset
    then (ok, record d { writes = (offset, p) ∷ d.writes })
    else (eio, d)

-- Nothing is read at offset 0: the buffer stays as it was.
unfoldable pub read_page : {Page : Type 0} → (ℕ → Bool) → Disk Page → Page → ℕ → Status × Page
read_page read_ok d buf offset =
    if offset == 0
    then (ok, buf)
    else if read_ok offset
    then (ok, at_offset d offset)
    else (eio, buf)
