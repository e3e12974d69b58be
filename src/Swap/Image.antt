-- ===== src/Swap/Image.antt =====
-- `load_buffer` and `load_image` of load.c: pages are loaded into a buffer and handed on one by one.
-- LZO and the size that a compressed block notes in its first page are parameters.
use suspend.Common.{
  ℕ, zero, suc, ◌+◌, ◌-◌, ◌/◌, Bool, ◌||◌, List, [], ◌∷◌, ltb, ◌==◌, if◌then◌else◌, Option, none,
  some,
}
use suspend.SwapAlloc.{SwapDevice}
use suspend.Swap.{Status, ok, eio, Format, Disk}
use suspend.Swap.Run.{Cipher, Loader, load_and_decrypt_page, with_page, load_pages}

module _ (k : SwapDevice) (format : Format) (cipher : Cipher format.Page) (read_ok : ℕ → Bool)
    (page max : ℕ) (do_decrypt : Bool) (disk : Disk format.Page) where
  open format use {Page}

  abbrev Loads : Type 0
  Loads = Status × List Page × Loader k format cipher

  -- The loop over a buffer of `n` pages, which also ends when the image does.
  unfoldable pub fill : ℕ → Loader k format cipher → Page → Loads
  fill zero l dst = (ok, [], l)
  fill (suc n) l dst =
      let one = load_and_decrypt_page k format cipher read_ok page max do_decrypt disk l dst in
      let rest =
        with_page k format cipher read_ok page max do_decrypt disk one (fill n one.2 dst) in
      if ltb 0 l.reader.total_size then rest else (ok, [], l)

  -- A size of 0 tells of an error.
  abbrev pub filled : Loads → List Page × Loader k format cipher
  filled (ok, ps, l) = (ps, l)
  filled (e, ps, l) = ([], l)

  module _ (buffer_pages : ℕ) (do_decompress : Bool) (block_size : Page → ℕ)
      (lzo1x_decompress : List Page → Option (List Page)) (dst : Page) where
    -- The pages of a block behind its first, which starts with the size in 8 bytes.
    abbrev pub more_pages : Page → ℕ
    more_pages p = (block_size p + 8 - page + (page - 1)) / page

    abbrev pub unpacked : Page → Loads → List Page × Loader k format cipher
    unpacked p (ok, ps, l) = elim (lzo1x_decompress (p ∷ ps)) [ none ↦ ([], l) | some qs ↦ (qs, l) ]
    unpacked p (e, ps, l) = ([], l)

    abbrev pub load_block :
        Status × Page × Loader k format cipher → List Page × Loader k format cipher
    load_block (ok, p, l) =
        unpacked p
          (load_pages k format cipher read_ok page max do_decrypt disk (more_pages p) l dst)
    load_block (e, p, l) = ([], l)

    unfoldable pub load_buffer : Loader k format cipher → List Page × Loader k format cipher
    load_buffer l =
        if do_decompress
        then load_block
            (load_and_decrypt_page k format cipher read_ok page max do_decrypt disk l dst)
        else filled (fill buffer_pages l dst)

    module _ (verify_only : Bool) (dev_ok : Page → Bool) where
      abbrev pub refilled : List Page → Loader k format cipher → List Page × Loader k format cipher
      refilled [] l = load_buffer l
      refilled (p ∷ ps) l = (p ∷ ps, l)

      abbrev pub with_written : Page → Status × List Page → Status × List Page
      with_written p (e, ps) = (e, p ∷ ps)

      abbrev pub put_next :
          (List Page → Loader k format cipher → Status × List Page)
          → List Page × Loader k format cipher
          → Status × List Page
      put_next again ([], l) = (eio, [])
      put_next again (p ∷ ps, l) =
          if verify_only || dev_ok p then with_written p (again ps l) else (eio, [])

      -- `n` pages are left to hand on, the first of them from the buffer.
      unfoldable pub load_rounds : ℕ → List Page → Loader k format cipher → Status × List Page
      load_rounds zero buf l = (ok, [])
      load_rounds (suc n) buf l = put_next (load_rounds n) (refilled buf l)

      -- At least one page is handed on.
      unfoldable pub load_image : ℕ → Loader k format cipher → Status × List Page
      load_image nr_pages l = load_rounds (if nr_pages == 0 then 1 else nr_pages) [] l
