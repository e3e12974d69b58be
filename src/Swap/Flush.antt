-- ===== src/Swap/Flush.antt =====
-- `flush_buffer` without threads and `save_image` of suspend.c: pages are read into a buffer, which is
-- compressed and saved whenever it is full. LZO, what the reads give and the keys pressed are parameters.
use suspend.Common.{
  ℕ, zero, suc, ◌+◌, ◌-◌, Option, none, some, ltb, ◌/◌, ◌%◌, Bool, true, false, List, [], ◌∷◌, ◌++◌,
  ◌==◌, leb, length, if◌then◌else◌,
}
use suspend.SwapAlloc.{SwapDevice}
use suspend.Swap.{Status, ok, eio, efault, eintr, enospc, Format}
use suspend.Swap.Writer.{Writer, preallocate_swap}
use suspend.Swap.Run.{Cipher, Saver, save_pages, shifted, after_pages}

-- A page, the end of the image, an error, or less than a page.
pub data Read (Page : Type 0) : Type 0 where
  page_read : Page → Read Page
  end_read error_read short_read : Read Page

-- The part of `write_image` that finds the number of pages to read, which the header of the image notes
-- as `pages`, and what is in the buffer by then; none where it fails. A kernel that does not tell
-- the size of the image gives a first page, and `info_pages` reads the number of pages from it.
unfoldable pub count_pages :
    {Page : Type 0} → ℕ → (Page → ℕ) → ℕ → Read Page → Option (ℕ × List Page)
count_pages page info_pages image_size first =
    if ltb 0 image_size then some ((image_size + page - 1) / page, []) else elim first [
      | page_read p ↦ (if info_pages p == 0 then none else some (info_pages p - 1, p ∷ []))
      | end_read ↦ none
      | error_read ↦ none
      | short_read ↦ none
    ]

pub data Key : Type 0 where
  abort_key reboot_key other_key : Key

-- The loop over the keys pressed: whether the image is aborted, and whether the machine is to reboot.
abbrev pub press_keys : Bool → List Key → Bool → Bool × Bool
press_keys abort_possible [] reboot = (false, reboot)
press_keys abort_possible (abort_key ∷ ks) reboot =
    let rest = press_keys abort_possible ks reboot in
    if abort_possible then (true, reboot) else rest
press_keys abort_possible (reboot_key ∷ ks) reboot = press_keys abort_possible ks true
press_keys abort_possible (other_key ∷ ks) reboot = press_keys abort_possible ks reboot

-- The pages from one progress message to the next.
abbrev pub message_pages : ℕ → ℕ
message_pages nr_pages = if nr_pages / 100 == 0 then 1 else nr_pages / 100

module _ (k : SwapDevice) (format : Format) (cipher : Cipher format.Page) (write_ok : ℕ → Bool)
    (page max buf_size : ℕ) (do_compress do_encrypt : Bool)
    (lzo1x_compress : List format.Page → List format.Page) where
  open format use {Page}

  -- `buffer` is what lies before `page_ptr`; `reboot` that the method of the shutdown was changed.
  pub record Sending : Type 0 where
    pub saver : Saver k format cipher
    pub buffer : List Page
    pub reboot : Bool

  abbrev pub compressed : List Page → List Page
  compressed ps = if do_compress then lzo1x_compress ps else ps

  abbrev pub flush : Saver k format cipher → List Page → Status × Saver k format cipher
  flush s [] = (ok, s)
  flush s (p ∷ ps) =
      save_pages k format cipher write_ok page max buf_size do_compress do_encrypt s
        (compressed (p ∷ ps))

  unfoldable pub flush_buffer : Sending → Status × Saver k format cipher
  flush_buffer s = flush s.saver s.buffer

  -- An error of the flush ends the loop.
  abbrev pub after_flush :
      Status × Saver k format cipher → Sending → Status × Sending → Status × Sending
  after_flush (ok, v) s rest = rest
  after_flush (e, v) s rest = (e, record s { saver = v })

  module _ (buffer_pages m : ℕ) (abort_possible : Bool) (keys : ℕ → List Key) where
    abbrev pub pressed : ℕ → Bool → Bool × Bool
    pressed nr reboot =
        if nr % m == 0 then press_keys abort_possible (keys nr) reboot else (false, reboot)

    unfoldable pub image_loop : List (Read Page) → ℕ → Sending → Status × Sending
    image_loop [] nr s = (ok, s)
    image_loop (end_read ∷ rs) nr s = (ok, s)
    image_loop (error_read ∷ rs) nr s = (eio, s)
    image_loop (short_read ∷ rs) nr s = (efault, s)
    image_loop (page_read p ∷ rs) nr s =
        let keyed = pressed nr s.reboot in
        let s' = record s { buffer = s.buffer ++ (p ∷ []); reboot = keyed.1 } in
        let flushed = flush_buffer s' in
        let after = image_loop rs (nr + 1) (record s' { saver = flushed.1; buffer = [] }) in
        let on = image_loop rs (nr + 1) s' in
        if keyed.0
        then (eintr, s')
        else if leb buffer_pages (length s'.buffer)
        then after_flush flushed s' after
        else on

  -- After the loop: what is left in the buffer, and the last table of extents.
  abbrev pub finish_image : Status × Sending → Status × Saver k format cipher
  finish_image (ok, s) =
      after_pages k format cipher write_ok page max buf_size do_compress do_encrypt (flush_buffer s)
  finish_image (e, s) = (e, s.saver)

  unfoldable pub save_image :
      ℕ → Bool → (ℕ → List Key) → ℕ → List (Read Page) → Sending → Status × Saver k format cipher
  save_image buffer_pages abort_possible keys nr_pages reads s =
      finish_image (image_loop buffer_pages (message_pages nr_pages) abort_possible keys reads 0 s)

  -- The part of `write_image` that allocates swap and calls `save_image`, with the number of pages and
  -- what is in the buffer as `count_pages` gives them.
  abbrev pub from_allocated :
      ℕ
      → Bool
      → (ℕ → List Key)
      → ℕ
      → List (Read Page)
      → List Page
      → Saver k format cipher
      → ℕ × Writer k.State Page
      → Status × Saver k format cipher
  from_allocated buffer_pages abort_possible keys nr_pages reads bs s (zero, w) =
      (enospc, record s { writer = w })
  from_allocated buffer_pages abort_possible keys nr_pages reads bs s (suc o, w) =
      save_image buffer_pages abort_possible keys nr_pages reads (record {
        saver = record s {
          writer = shifted k format cipher write_ok page max buf_size do_compress do_encrypt w;
        };
        buffer = bs;
        reboot = false;
      })

  unfoldable pub write_pages :
      ℕ
      → Bool
      → (ℕ → List Key)
      → ℕ
      → List (Read Page)
      → List Page
      → Saver k format cipher
      → Status × Saver k format cipher
  write_pages buffer_pages abort_possible keys nr_pages reads bs s =
      from_allocated buffer_pages abort_possible keys nr_pages reads bs s
        (preallocate_swap k format write_ok page max do_compress s.writer)
