-- ===== src/Swap/Run.antt =====
-- Pages on their way through the cipher: `encrypt_and_save_page` of suspend.c,
-- `load_and_decrypt_page` of load.c, and the loops of `flush_buffer` and `load_buffer` that call
-- them for one page after another. libgcrypt is a parameter.
use suspend.Common.{
  ℕ, zero, suc, ◌+◌, ◌-◌, ◌≡◌, Bool, true, List, [], ◌∷◌, leb, ◌==◌, if◌then◌else◌,
}
use suspend.SwapAlloc.{SwapDevice}
use suspend.Swap.{Status, ok, einval, enospc, Format, Disk, read_page}
use suspend.Swap.Writer.{Writer, save_page, save_extents, preallocate_swap}
use suspend.Swap.Reader.{Reader, find_next_image_page, load_extents_page}

-- What comes out of the cipher is what went in, page by page from the same state.
pub record Cipher (Page : Type 0) : Type 1 where
  pub State : Type 0
  pub encrypt : State → Page → Status × Page × State
  pub decrypt : State → Page → Status × Page × State
  pub decrypt-encrypt :
      (c : State) (p q : Page) (c' : State) → encrypt c p ≡ (ok, q, c') → decrypt c q ≡ (ok, p, c')

module _ (k : SwapDevice) (format : Format) (cipher : Cipher format.Page) where
  open format use {Page}

  -- The writer with the cipher and the place in the buffer for encrypted pages.
  pub record Saver : Type 0 where
    pub writer : Writer k.State Page
    pub state : cipher.State
    pub encrypt_ptr : ℕ

  pub record Loader : Type 0 where
    pub reader : Reader
    pub state : cipher.State

  module _ (write_ok : ℕ → Bool) (page max encrypt_buf_size : ℕ)
      (do_compress do_encrypt : Bool) where
    abbrev pub keep : Saver → Status × Writer k.State Page → Status × Saver
    keep s (e, w) = (e, record s { writer = w })

    abbrev pub save_encrypted : Saver → Status × Page × cipher.State → Status × Saver
    save_encrypted s (ok, q, c) =
        let ptr = s.encrypt_ptr + page in
        keep (record s { state = c; encrypt_ptr = if leb encrypt_buf_size ptr then 0 else ptr })
          (save_page k format write_ok page max do_compress s.writer q)
    save_encrypted s (e, q, c) = (e, record s { state = c })

    unfoldable pub encrypt_and_save_page : Saver → Page → Status × Saver
    encrypt_and_save_page s src =
        if do_encrypt
        then save_encrypted s (cipher.encrypt s.state src)
        else keep s (save_page k format write_ok page max do_compress s.writer src)

    -- The rest is done only after a page that went well.
    abbrev pub after_page : Status × Saver → Status × Saver → Status × Saver
    after_page (ok, s) rest = rest
    after_page (e, s) rest = (e, s)

    -- The loop at the end of `flush_buffer`.
    unfoldable pub save_pages : Saver → List Page → Status × Saver
    save_pages s [] = (ok, s)
    save_pages s (p ∷ ps) =
        after_page (encrypt_and_save_page s p) (save_pages (encrypt_and_save_page s p).1 ps)

    -- `write_image` moves back a page before the first page: `next_swap_page` comes to it first.
    abbrev pub shifted : Writer k.State Page → Writer k.State Page
    shifted w = record (w) { cur_offset = w.cur_offset - page }

    abbrev pub after_pages : Status × Saver → Status × Saver
    after_pages (ok, s) = keep s (save_extents k format write_ok page max do_compress s.writer true)
    after_pages (e, s) = (e, s)

    abbrev pub from_first : Saver → List Page → ℕ × Writer k.State Page → Status × Saver
    from_first s ps (zero, w) = (enospc, record s { writer = w })
    from_first s ps (suc o, w) = after_pages (save_pages (record s { writer = shifted w }) ps)

    -- The part of `write_image` and `save_image` that allocates swap and fills it with the pages.
    unfoldable pub save_all : Saver → List Page → Status × Saver
    save_all s ps =
        from_first s ps (preallocate_swap k format write_ok page max do_compress s.writer)

  module _ (read_ok : ℕ → Bool) (page max : ℕ) (do_decrypt : Bool) (disk : Disk Page) where
    abbrev pub decrypted : cipher.State → Status × Page → Status × Page × cipher.State
    decrypted c (ok, q) = if do_decrypt then cipher.decrypt c q else (ok, q, c)
    decrypted c (e, q) = (e, q, c)

    abbrev pub advance : Loader → Status × Page × cipher.State → Status × Page × Loader
    advance l (ok, p, c) =
        let r = record (l.reader) { total_size = l.reader.total_size - page } in
        (ok, p, record { reader = find_next_image_page format read_ok page max disk r; state = c })
    advance l (e, p, c) = (e, p, record l { state = c })

    -- `dst` is the memory that the page is loaded into.
    unfoldable pub load_and_decrypt_page : Loader → Page → Status × Page × Loader
    load_and_decrypt_page l dst =
        if l.reader.cur_offset == 0
        then (einval, dst, l)
        else advance l (decrypted l.state (read_page read_ok disk dst l.reader.cur_offset))

    abbrev pub with_page :
        Status × Page × Loader → Status × List Page × Loader → Status × List Page × Loader
    with_page (ok, p, l) (e, ps, l') = (e, p ∷ ps, l')
    with_page (e, p, l) rest = (e, [], l)

    -- `n` pages in turn, as `load_buffer` loads them.
    unfoldable pub load_pages : ℕ → Loader → Page → Status × List Page × Loader
    load_pages zero l dst = (ok, [], l)
    load_pages (suc n) l dst =
        with_page (load_and_decrypt_page l dst) (load_pages n (load_and_decrypt_page l dst).2 dst)

    abbrev pub from_table : ℕ → cipher.State → Page → Status × Reader → Status × List Page × Loader
    from_table n c dst (ok, r) = load_pages n (record { reader = r; state = c }) dst
    from_table n c dst (e, r) = (e, [], record { reader = r; state = c })

    -- `init_swap_reader` loads the first table, and the pages follow.
    unfoldable pub load_all : ℕ → Loader → Page → Status × List Page × Loader
    load_all n l dst =
        from_table n l.state dst (load_extents_page format read_ok page max disk l.reader)
