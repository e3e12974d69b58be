-- ===== src/Swap/Whole.antt =====
-- An image written by `save_image` of suspend.c and read by `load_image` of load.c, both with their
-- buffers, the tables of extents and the cipher in between.
use suspend.Common.{ℕ, ◌≡◌, Bool, false, List, ◌∷◌, ◌++◌, map}
use suspend.SwapAlloc.{SwapDevice}
use suspend.Swap.{Status, Format, Disk}
use suspend.Swap.Writer.{Writer}
use suspend.Swap.Reader.{Reader, load_extents_page}
use suspend.Swap.Run.{Cipher, Saver}
use suspend.Swap.Flush.{Read, page_read, end_read, Key, press_keys, write_pages}

module _ (k : SwapDevice) (format : Format) (cipher : Cipher format.Page)
    (write_ok read_ok : ℕ → Bool) (page max buf_size : ℕ) (do_encrypt : Bool) where
  open format use {Page}

  module _ (lzo1x_compress : List Page → List Page) (buffer_pages nr_pages : ℕ)
      (abort_possible : Bool) (keys : ℕ → List Key)
      (quiet : (i : ℕ) (r : Bool) → (press_keys abort_possible (keys i) r).0 ≡ false) where
    abbrev written :
        List Page
        → List Page
        → List (Read Page)
        → Saver k format cipher
        → Status × Saver k format cipher
    written bs ps rs s =
        write_pages k format cipher write_ok page max buf_size false do_encrypt lzo1x_compress
          buffer_pages abort_possible keys nr_pages (map page_read ps ++ (end_read ∷ rs)) bs s

  module _ (disk : Disk Page) where
    abbrev pub read_table : Reader → Status × Reader
    read_table r = load_extents_page format read_ok page max disk r
