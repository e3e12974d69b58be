-- ===== src/Swap/Buffered.antt =====
-- The buffer of load.c hands on the same pages as loads one after another.
use suspend.Common.{
  ℕ, zero, suc, ◌+◌, ◌-◌, ◌*◌, ◌<◌, ◌≡◌, refl, Bool, true, false, Bool-cases, inl, inr, ◌||◌, List,
  [], ◌∷◌, ◌++◌, ltb, ◌==◌, length, arith, Option, sym, ◌∙◌, ap,
}
use suspend.Extents.{extent}
use suspend.SwapAlloc.{SwapDevice}
use suspend.Swap.{Status, ok, einval, Format, Disk}
use suspend.Swap.Reader.{
  Reader, loaded, load_extents_page, take_table, or_zero, find_next_image_page,
}
use suspend.Swap.Run.{Cipher, Loader, advance, load_and_decrypt_page, with_page, load_pages}
use suspend.Swap.Image.{fill, load_buffer, put_next, load_rounds, load_image}

module _ (k : SwapDevice) (format : Format) (cipher : Cipher format.Page) (read_ok : ℕ → Bool)
    (page max : ℕ) (do_decrypt : Bool) (disk : Disk format.Page) where
  open format use {Page}

  loaded_total :
      (r : Reader) (x : Status × Page)
      → (or_zero format read_ok page max disk (loaded format read_ok page max disk r x)).total_size
        ≡ r.total_size
  unfolding take_table
  loaded_total r (ok, p) = refl
  loaded_total r (_, p) = refl

  find_next_total :
      (r : Reader) → (find_next_image_page format read_ok page max disk r).total_size ≡ r.total_size
  unfolding find_next_image_page load_extents_page
  find_next_total r =
      elim (Bool-cases (ltb (r.cur_offset + page) (extent r.extents r.cur_extent_idx).end)) [
        | inl t ↦ rw t refl
        | inr t ↦
            elim (Bool-cases (
              ltb (extent r.extents (r.cur_extent_idx + 1)).start
                (extent r.extents (r.cur_extent_idx + 1)).end)) [
                  | inl u ↦ rw (t, u) refl
                  | inr u ↦ rw (t, u) (loaded_total _ _)
                ]
      ]

  advance_total :
      (l : Loader k format cipher) (x : Status × Page × cipher.State)
      → (advance k format cipher read_ok page max do_decrypt disk l x).0 ≡ ok
      → (advance k format cipher read_ok page max do_decrypt disk l x).2.reader.total_size
        ≡ l.reader.total_size - page
  advance_total l (ok, p, c) h = find_next_total _
  advance_total l (_, p, c) h = absurd (cc)

  load_total :
      (l : Loader k format cipher) (dst : Page)
      → (load_and_decrypt_page k format cipher read_ok page max do_decrypt disk l dst).0 ≡ ok
      → (load_and_decrypt_page k format cipher read_ok page max do_decrypt disk l
          dst).2.reader.total_size
        ≡ l.reader.total_size - page
  unfolding load_and_decrypt_page
  load_total l dst h = elim (Bool-cases (l.reader.cur_offset == 0)) [
    | inl t ↦ let q : einval ≡ ok = rw t at h in absurd (cc)
    | inr t ↦ rw t (advance_total l _ (rw t at h))
  ]

  with_page_ok :
      (x : Status × Page × Loader k format cipher)
      (rest : Status × List Page × Loader k format cipher)
      → (with_page k format cipher read_ok page max do_decrypt disk x rest).0 ≡ ok
      → (x.0 ≡ ok)
        × (with_page k format cipher read_ok page max do_decrypt disk x rest
            ≡ (rest.0, x.1 ∷ rest.1, rest.2))
  with_page_ok (ok, p, l) (e, ps, l') h = (refl, refl)
  with_page_ok (_, p, l) (e, ps, l') h = absurd (cc)

  with_page_of :
      (x : Status × Page × Loader k format cipher)
      (rest : Status × List Page × Loader k format cipher)
      → x.0 ≡ ok
      → with_page k format cipher read_ok page max do_decrypt disk x rest
        ≡ (rest.0, x.1 ∷ rest.1, rest.2)
  with_page_of (ok, p, l) (e, ps, l') h = refl
  with_page_of (_, p, l) (e, ps, l') h = absurd (cc)

  -- `qs` are the first of `n` pages, and the loader `l'` goes on behind them.
  record IsFilled (b n : ℕ) (l : Loader k format cipher) (dst : Page) (qs : List Page)
      (l' : Loader k format cipher) : Type 0 where
    left : ℕ
    count : length qs + left ≡ n
    some : 0 < b → 0 < n → 0 < length qs
    total : l'.reader.total_size ≡ left * page
    more : (load_pages k format cipher read_ok page max do_decrypt disk left l' dst).0 ≡ ok
    pages :
        (load_pages k format cipher read_ok page max do_decrypt disk n l dst).1
        ≡ qs ++ (load_pages k format cipher read_ok page max do_decrypt disk left l' dst).1

  fill-IsFilled :
      (b n : ℕ) (l : Loader k format cipher) (dst : Page)
      → 0 < page
      → l.reader.total_size ≡ n * page
      → (load_pages k format cipher read_ok page max do_decrypt disk n l dst).0 ≡ ok
      → ((fill k format cipher read_ok page max do_decrypt disk b l dst).0 ≡ ok)
        × IsFilled b n l dst
            (fill k format cipher read_ok page max do_decrypt disk b l dst).1
            (fill k format cipher read_ok page max do_decrypt disk b l dst).2
  unfolding fill load_pages
  fill-IsFilled zero n l dst pos total h = (
    refl,
    record {
      left = n;
      count = omega arith;
      some = λ f g. absurd (omega (arith, f));
      total = total;
      more = h;
      pages = refl;
    },
  )
  fill-IsFilled (suc b) zero l dst pos total h =
      let t : ltb 0 l.reader.total_size ≡ false = ground (arith, total) in
      rw t (
        refl,
        record {
          left = 0;
          count = omega arith;
          some = λ f g. absurd (omega (arith, g));
          total = total;
          more = refl;
          pages = refl;
        },
      )
  fill-IsFilled (suc b) (suc n) l dst pos total h =
      let one = load_and_decrypt_page k format cipher read_ok page max do_decrypt disk l dst in
      let big : suc n * page ≡ n * page + page = omega arith in
      let t : ltb 0 l.reader.total_size ≡ true = ground (arith, total, big, pos) in
      let (o, e) =
        with_page_ok one (load_pages k format cipher read_ok page max do_decrypt disk n one.2 dst)
          h in
      let h' = sym (ap (λ x. x.0) e) ∙ h in
      let rest = load_total l dst o in
      let (f, g) = fill-IsFilled b n one.2 dst pos (omega (arith, rest, total, big)) h' in
      rw (t, with_page_of one (fill k format cipher read_ok page max do_decrypt disk b one.2 dst) o)
        (
          f,
          record {
            left = g.left;
            count = omega (arith, g.count);
            some = λ x y. omega arith;
            total = g.total;
            more = g.more;
            pages = ap (λ x. x.1) e ∙ ap (◌∷◌ one.1) g.pages;
          },
        )

  module _ (buffer_pages : ℕ) (block_size : Page → ℕ)
      (lzo1x_decompress : List Page → Option (List Page)) (dst : Page) (verify_only : Bool)
      (dev_ok : Page → Bool) (taken : (p : Page) → (verify_only || dev_ok p) ≡ true)
      (pos : 0 < page) (room : 0 < buffer_pages) where
    -- What the rest of `load_image` does with the pages of the buffer and those behind them.
    abbrev Continues : ℕ → Type 0
    Continues m =
        (qs : List Page) (l : Loader k format cipher) (j : ℕ)
        → length qs + j ≡ m
        → l.reader.total_size ≡ j * page
        → (load_pages k format cipher read_ok page max do_decrypt disk j l dst).0 ≡ ok
        → load_rounds k format cipher read_ok page max do_decrypt disk buffer_pages false block_size
            lzo1x_decompress dst verify_only dev_ok m qs l
          ≡ (ok, qs ++ (load_pages k format cipher read_ok page max do_decrypt disk j l dst).1)

    put_next_ok :
        (m : ℕ) (qs : List Page) (l : Loader k format cipher) (j : ℕ)
        → Continues m
        → 0 < length qs
        → length qs + j ≡ suc m
        → l.reader.total_size ≡ j * page
        → (load_pages k format cipher read_ok page max do_decrypt disk j l dst).0 ≡ ok
        → put_next k format cipher read_ok page max do_decrypt disk buffer_pages false block_size
            lzo1x_decompress dst verify_only dev_ok
            (load_rounds k format cipher read_ok page max do_decrypt disk buffer_pages false
              block_size lzo1x_decompress dst verify_only dev_ok m)
            (qs, l)
          ≡ (ok, qs ++ (load_pages k format cipher read_ok page max do_decrypt disk j l dst).1)
    put_next_ok m [] l j c held count total h = absurd (omega (arith, held))
    put_next_ok m (p ∷ ps) l j c held count total h =
        rw (taken p, c ps l j (omega (arith, count)) total h) refl

    load_rounds_ok : (m : ℕ) → Continues m
    unfolding load_rounds load_buffer load_pages
    load_rounds_ok zero [] l zero count total h = refl
    load_rounds_ok zero [] l (suc j) count total h = absurd (omega (arith, count))
    load_rounds_ok zero (q ∷ qs) l j count total h = absurd (omega (arith, count))
    load_rounds_ok (suc m) (q ∷ qs) l j count total h =
        put_next_ok m (q ∷ qs) l j (load_rounds_ok m) (omega arith) count total h
    load_rounds_ok (suc m) [] l j count total h =
        let (f, g) = fill-IsFilled buffer_pages j l dst pos total h in
        let r = fill k format cipher read_ok page max do_decrypt disk buffer_pages l dst in
        let e : r ≡ (ok, r.1, r.2) = (λ i. (f i, r.1, r.2)) in
        rw (e, g.pages)
          (put_next_ok m r.1 r.2 g.left (load_rounds_ok m) (g.some room (omega (arith, count)))
            (omega (arith, g.count, count)) g.total g.more)

    -- Without compression, where the loads of `n` pages in turn succeed and `total_size` is that of `n`
    -- pages, at least one, `load_image` succeeds and hands on the same pages in the same order,
    -- whatever the size of the buffer, if the snapshot device takes every page.
    pub load_image-load_pages :
        (n : ℕ) (l : Loader k format cipher)
        → 0 < n
        → l.reader.total_size ≡ n * page
        → (load_pages k format cipher read_ok page max do_decrypt disk n l dst).0 ≡ ok
        → load_image k format cipher read_ok page max do_decrypt disk buffer_pages false block_size
            lzo1x_decompress dst verify_only dev_ok n l
          ≡ (ok, (load_pages k format cipher read_ok page max do_decrypt disk n l dst).1)
    unfolding load_image
    load_image-load_pages n l held total h =
        let t : (n == 0) ≡ false = ground arith in
        rw t (load_rounds_ok n [] l n (omega arith) total h)
