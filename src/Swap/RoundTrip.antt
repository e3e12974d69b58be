-- ===== src/Swap/RoundTrip.antt =====
-- A saved image is loaded again page by page: `save_page` and `save_extents` of suspend.c against
-- `load_extents_page` and `find_next_image_page` of load.c, with the cipher on both ways.
use suspend.Common.{
  ℕ, zero, suc, ◌+◌, ◌-◌, ◌≤◌, ◌<◌, ◌≡◌, ◌≢◌, refl, inl, inr, Bool, true, false, List, [], ◌∷◌,
  arith, ◌==◌, length, get_or-set_ne, set, ltb, ap, ◌∙◌, sym, subst,
}
use suspend.Extents.{Extent, extent, nothing}
use suspend.SwapAlloc.{SwapDevice}
use suspend.Swap.{Status, ok, enospc, Format, Disk, at_offset}
use suspend.Swap.Writer.{Writer, save_extents, save_table, preallocate_swap}
use suspend.Swap.Reader.{Reader, find_next_image_page, take_table}
use suspend.Swap.Ready.{IsReady, preallocate_swap-IsPreallocated}
use suspend.Swap.Log.{Wrote, IsDistinct, find_write_lem}
use suspend.Swap.Advance.{write_page_ok, IsMoved, IsTurned, next_swap_page-advances}
use suspend.Swap.Follow.{read_page_ok, Agrees, IsAt, moved-IsAt, turned-IsAt, load_extents_page_ok}
use suspend.Swap.Run.{
  Cipher, Saver, after_page, keep, save_pages, encrypt_and_save_page, decrypted,
  load_and_decrypt_page, load_pages, shifted, after_pages, from_first, save_all, load_all,
}
use suspend.Swap.Save.{IsStored, encrypt_and_save_page-IsPageSaved}

module _ (k : SwapDevice) (format : Format) (cipher : Cipher format.Page)
    (write_ok read_ok : ℕ → Bool) (page max buf_size : ℕ) (do_compress do_encrypt : Bool)
    (disk : Disk format.Page) (distinct : IsDistinct disk.writes)
    (good : (o : ℕ) → read_ok o ≡ true) (ppos : 0 < page) (pos : 0 < max) where
  open k use {State}
  open format use {Page, of_table}

  -- The pages come out of `load_pages` from the place of the reader on.
  abbrev Loads : Reader → cipher.State → List Page → Type 0
  Loads r c ps =
      (dst : Page)
      → ((load_pages k format cipher read_ok page max do_encrypt disk (length ps)
            (record { reader = r; state = c }) dst).0
          ≡ ok)
        × ((load_pages k format cipher read_ok page max do_encrypt disk (length ps)
              (record { reader = r; state = c }) dst).1
            ≡ ps)

  -- What the rest of the device's writes keep for a writer that has written a part of them.
  record IsFollowed (w : Writer State Page) (c : cipher.State) (ps : List Page) : Type 0 where
    table : List Extent
    spc : w.extents_spc ≢ 0
    agrees : Agrees k format write_ok read_ok page max do_compress disk w table
    written : Wrote disk.writes w.extents_spc (of_table table)
    grows : (o : ℕ) (p : Page) → Wrote w.disk.writes o p → Wrote disk.writes o p
    loads :
        (r : Reader)
        → IsAt k format write_ok read_ok page max do_compress disk w table r
        → Loads (find_next_image_page format read_ok page max disk r) c ps

  -- The last table ends the image.
  finish-IsFollowed :
      (w : Writer State Page) (c : cipher.State)
      → IsReady k format write_ok page max do_compress w
      → (save_extents k format write_ok page max do_compress w true).0 ≡ ok
      → (save_extents k format write_ok page max do_compress w true).1.disk ≡ disk
      → IsFollowed w c []
  unfolding save_extents save_table load_pages
  finish-IsFollowed w c v h e =
      let (ne, d) = write_page_ok write_ok w.disk (of_table w.extents) w.extents_spc h in
      let ws : (w.extents_spc, of_table w.extents) ∷ w.disk.writes ≡ disk.writes =
        ap Disk.writes (sym d ∙ e) in
      record {
        table = w.extents;
        spc = ne;
        agrees = (v.full, λ i lt. refl);
        written = subst (λ x. Wrote x w.extents_spc (of_table w.extents)) ws (inl (refl, refl));
        grows = λ o p m. subst (λ x. Wrote x o p) ws (inr m);
        loads = λ r a dst. (refl, refl);
      }

  load_one :
      (r : Reader) (c : cipher.State) (o : ℕ) (q p dst : Page) (c' : cipher.State)
      → r.cur_offset ≡ o
      → o ≢ 0
      → Wrote disk.writes o q
      → decrypted k format cipher read_ok page max do_encrypt disk c (ok, q) ≡ (ok, p, c')
      → load_and_decrypt_page k format cipher read_ok page max do_encrypt disk
          (record { reader = r; state = c })
          dst
        ≡ (
          ok,
          p,
          record {
            reader =
                find_next_image_page format read_ok page max disk
                  (record (r) { total_size = r.total_size - page });
            state = c';
          },
        )
  unfolding load_and_decrypt_page
  load_one r c o q p dst c' at ne w d =
      let u : at_offset disk r.cur_offset ≡ q =
        rw at (find_write_lem disk.writes (disk.old o) o q distinct w) in
      let z : r.cur_offset ≢ 0 = λ e. ne (sym at ∙ e) in
      let t : (r.cur_offset == 0) ≡ false = ground arith in
      rw (t, read_page_ok read_ok disk dst r.cur_offset z (good r.cur_offset), u, d) refl

  -- A page on the next offset of the writer and what follows it are loaded.
  Loads-cons :
      (s s' : Saver k format cipher) (w : Writer State Page) (o : ℕ) (p : Page) (ps : List Page)
      (r : Reader)
      → (x : IsFollowed s'.writer s'.state ps) → (q : Page)
      → IsStored k format write_ok page max do_compress w o q s'.writer
      → decrypted k format cipher read_ok page max do_encrypt disk s.state (ok, q)
        ≡ (ok, p, s'.state)
      → w.cur_offset ≡ o
      → IsAt k format write_ok read_ok page max do_compress disk w x.table r
      → Loads r s.state (p ∷ ps)
  unfolding load_pages
  Loads-cons s s' w o p ps r x q st d at a dst =
      let wrote : Wrote disk.writes o q = x.grows o q (rw st.disk (inl (refl, refl))) in
      let next : Reader = record {
        extents = r.extents;
        cur_extent_idx = r.cur_extent_idx;
        cur_offset = r.cur_offset;
        next_extents = r.next_extents;
        total_size = r.total_size - page;
      } in
      let there : IsAt k format write_ok read_ok page max do_compress disk s'.writer x.table next =
        record {
          extents = a.extents;
          next = a.next;
          idx = a.idx ∙ sym st.idx;
          offset = a.offset ∙ sym st.offset;
        } in
      let (e, l) = x.loads next there dst in
      rw (load_one r s.state o q p dst s'.state (a.offset ∙ at) st.nonzero wrote d, e)
        (refl, ap (◌∷◌ p) l)

  stored-IsReady :
      (w : Writer State Page) (o : ℕ) (q : Page) (w' : Writer State Page)
      → IsReady k format write_ok page max do_compress w
      → IsStored k format write_ok page max do_compress w o q w'
      → IsReady k format write_ok page max do_compress w'
  stored-IsReady w o q w' v st = record {
    full = ap length st.extents ∙ v.full;
    nr_le = omega (arith, v.nr_le, st.count);
    idx_lt = omega (arith, v.idx_lt, st.count, st.idx);
    hold = λ i h. rw st.extents (v.hold i (omega (arith, h, st.count)));
  }

  stored-Agrees :
      (w : Writer State Page) (o : ℕ) (q : Page) (w' : Writer State Page) (t : List Extent)
      → IsStored k format write_ok page max do_compress w o q w'
      → Agrees k format write_ok read_ok page max do_compress disk w' t
      → Agrees k format write_ok read_ok page max do_compress disk w t
  stored-Agrees w o q w' t st (full, g) =
      (full, λ i h. g i (omega (arith, h, st.count)) ∙ ap (λ x. extent x i) st.extents)

  moved-IsFollowed :
      (s s' : Saver k format cipher) (w : Writer State Page) (o : ℕ) (p : Page) (ps : List Page)
      (q : Page)
      → IsReady k format write_ok page max do_compress s.writer
      → IsMoved k format write_ok page max do_compress s.writer o w
      → IsStored k format write_ok page max do_compress w o q s'.writer
      → decrypted k format cipher read_ok page max do_encrypt disk s.state (ok, q)
        ≡ (ok, p, s'.state)
      → IsFollowed s'.writer s'.state ps
      → IsFollowed s.writer s.state (p ∷ ps)
  moved-IsFollowed s s' w o p ps q v m st d x =
      let spc : s'.writer.extents_spc ≡ s.writer.extents_spc = st.spc ∙ m.spc in
      let g = stored-Agrees w o q s'.writer x.table st x.agrees in
      let g' : Agrees k format write_ok read_ok page max do_compress disk s.writer x.table =
        (g.0, λ i h. g.1 i (omega (arith, h, m.count)) ∙ ap (λ y. extent y i) m.extents) in
      record {
        table = x.table;
        spc = λ e. x.spc (spc ∙ e);
        agrees = g';
        written = subst (λ y. Wrote disk.writes y (of_table x.table)) spc x.written;
        grows = λ a b h. x.grows a b (rw st.disk (inr (rw m.disk h)));
        loads = λ r a.
            Loads-cons s s' w o p ps (find_next_image_page format read_ok page max disk r) x q st d
              m.offset
              (moved-IsAt k format write_ok read_ok page max do_compress disk s.writer o w x.table r
                v g' a m);
      }

  turned-IsFollowed :
      (s s' : Saver k format cipher) (w : Writer State Page) (o : ℕ) (t : List Extent) (p : Page)
      (ps : List Page) (q : Page)
      → IsReady k format write_ok page max do_compress s.writer
      → IsTurned k format write_ok page max do_compress s.writer o w t
      → IsStored k format write_ok page max do_compress w o q s'.writer
      → decrypted k format cipher read_ok page max do_encrypt disk s.state (ok, q)
        ≡ (ok, p, s'.state)
      → IsFollowed s'.writer s'.state ps
      → IsFollowed s.writer s.state (p ∷ ps)
  turned-IsFollowed s s' w o t p ps q v m st d x =
      let g' : Agrees k format write_ok read_ok page max do_compress disk s.writer t =
        (m.linked.0, m.agrees) in
      let wrote : Wrote disk.writes w.extents_spc (of_table x.table) =
        subst (λ y. Wrote disk.writes y (of_table x.table)) st.spc x.written in
      record {
        table = t;
        spc = m.written;
        agrees = g';
        written =
            x.grows s.writer.extents_spc (of_table t)
              (rw st.disk (inr (rw m.disk (inl (refl, refl)))));
        grows = λ a b h. x.grows a b (rw st.disk (inr (rw m.disk (inr h))));
        loads = λ r a.
            Loads-cons s s' w o p ps (find_next_image_page format read_ok page max disk r) x q st d
              m.offset
              (turned-IsAt k format write_ok read_ok page max do_compress disk s.writer o w t
                x.table r v pos g' a m (stored-Agrees w o q s'.writer x.table st x.agrees)
                (good w.extents_spc)
                (find_write_lem disk.writes (disk.old w.extents_spc) w.extents_spc
                  (of_table x.table) distinct wrote));
      }

  after_page_status :
      (x rest : Status × Saver k format cipher)
      → (after_page k format cipher write_ok page max buf_size do_compress do_encrypt x rest).0 ≡ ok
      → x.0 ≡ ok
  after_page_status (ok, s) rest h = refl
  after_page_status (_, s) rest h = h

  after_page_ok :
      (x rest : Status × Saver k format cipher)
      → (after_page k format cipher write_ok page max buf_size do_compress do_encrypt x rest).0 ≡ ok
      → (x.0 ≡ ok)
        × (after_page k format cipher write_ok page max buf_size do_compress do_encrypt x rest
            ≡ rest)
  after_page_ok x rest h =
      let b = after_page_status x rest h in
      (
        b,
        ap
            (λ y.
              after_page k format cipher write_ok page max buf_size do_compress do_encrypt y rest)
            (λ i. (b i, x.1)),
      )

  saved-IsFollowed :
      (ps : List Page) (s : Saver k format cipher)
      → IsReady k format write_ok page max do_compress s.writer
      → (save_pages k format cipher write_ok page max buf_size do_compress do_encrypt s ps).0 ≡ ok
      → (save_extents k format write_ok page max do_compress
          (save_pages k format cipher write_ok page max buf_size do_compress do_encrypt s
            ps).1.writer
          true).0
        ≡ ok
      → (save_extents k format write_ok page max do_compress
          (save_pages k format cipher write_ok page max buf_size do_compress do_encrypt s
            ps).1.writer
          true).1.disk
        ≡ disk
      → IsFollowed s.writer s.state ps
  unfolding save_pages
  saved-IsFollowed [] s v h f e = finish-IsFollowed s.writer s.state v f e
  saved-IsFollowed (p ∷ ps) s v h f e =
      let one =
        encrypt_and_save_page k format cipher write_ok page max buf_size do_compress do_encrypt s
          p in
      let (b, eq) =
        after_page_ok one
          (save_pages k format cipher write_ok page max buf_size do_compress do_encrypt one.1 ps)
          h in
      let i =
        encrypt_and_save_page-IsPageSaved k format write_ok page max do_compress cipher buf_size
          do_encrypt s p b in
      elim (next_swap_page-advances k format write_ok page max do_compress s.writer v ppos pos
        i.found) [
          | inl m ↦
              moved-IsFollowed s one.1 _ _ p ps i.page_out v m i.store (i.decrypt disk read_ok) (
                saved-IsFollowed ps one.1 (stored-IsReady _ _ _ _ m.ready i.store) (rw eq at h)
                  (rw eq at f) (rw eq at e))
          | inr (t, m) ↦
              turned-IsFollowed s one.1 _ _ t p ps i.page_out v m i.store (i.decrypt disk read_ok) (
                saved-IsFollowed ps one.1 (stored-IsReady _ _ _ _ m.ready i.store) (rw eq at h)
                  (rw eq at f) (rw eq at e))
        ]

  after_pages_status :
      (x : Status × Saver k format cipher)
      → (after_pages k format cipher write_ok page max buf_size do_compress do_encrypt x).0 ≡ ok
      → x.0 ≡ ok
  after_pages_status (ok, s) h = refl
  after_pages_status (_, s) h = h

  -- The reader of the first table stands where the writer's first page is, a page further than the
  -- writer that has been shifted back.
  first_reader :
      (w : Writer State Page) (t : List Extent) (r : Reader)
      → IsReady k format write_ok page max do_compress w
      → Agrees k format write_ok read_ok page max do_compress disk w t
      → w.cur_extent_idx ≡ 0
      → w.cur_offset + page ≡ (extent w.extents 0).start
      → (b : Reader) × IsAt k format write_ok read_ok page max do_compress disk w t b
        × (find_next_image_page format read_ok page max disk b
            ≡ take_table format read_ok page max disk r t)
  unfolding find_next_image_page take_table
  first_reader w t r v g i0 at =
      let first : extent (set t max nothing) 0 ≡ extent w.extents 0 =
        get_or-set_ne t {i = max} {j = 0} nothing nothing (λ q. absurd (omega (arith, q, pos)))
        ∙ g.1 0 (omega (arith, v.idx_lt)) in
      let some : (extent w.extents 0).start < (extent w.extents 0).end =
        v.hold 0 (omega (arith, v.idx_lt)) in
      let u : ltb (w.cur_offset + page) (extent (set t max nothing) 0).end ≡ true =
        ground (arith, ap Extent.end first, at) in
      let there : w.cur_offset + page ≡ (extent (set t max nothing) 0).start =
        at ∙ sym (ap Extent.start first) in
      let b : Reader = record {
        extents = set t max nothing;
        cur_extent_idx = 0;
        cur_offset = w.cur_offset;
        next_extents = (extent t max).start;
        total_size = r.total_size;
      } in
      (
        b,
        record { extents = refl; next = refl; idx = sym i0; offset = refl },
        rw u (λ i. record {
          extents = set t max nothing;
          cur_extent_idx = 0;
          cur_offset = there i;
          next_extents = (extent t max).start;
          total_size = r.total_size;
        }),
      )

  after_pages_ok :
      (x : Status × Saver k format cipher)
      → (after_pages k format cipher write_ok page max buf_size do_compress do_encrypt x).0 ≡ ok
      → after_pages k format cipher write_ok page max buf_size do_compress do_encrypt x
        ≡ keep k format cipher write_ok page max buf_size do_compress do_encrypt x.1
            (save_extents k format write_ok page max do_compress x.1.writer true)
  after_pages_ok x h =
      let b = after_pages_status x h in
      ap (after_pages k format cipher write_ok page max buf_size do_compress do_encrypt)
        (λ i. (b i, x.1))

  from_first_ok :
      (s : Saver k format cipher) (ps : List Page) (x : ℕ × Writer State Page)
      → (from_first k format cipher write_ok page max buf_size do_compress do_encrypt s ps x).0 ≡ ok
      → (x.0 ≢ 0)
        × (from_first k format cipher write_ok page max buf_size do_compress do_encrypt s ps x
            ≡ after_pages k format cipher write_ok page max buf_size do_compress do_encrypt (
                save_pages k format cipher write_ok page max buf_size do_compress do_encrypt
                  (record (s) {
                    writer =
                        shifted k format cipher write_ok page max buf_size do_compress do_encrypt
                          x.1;
                  })
                  ps))
  from_first_ok s ps (zero, w) h = let e : enospc ≡ ok = h in absurd (cc)
  from_first_ok s ps (suc o, w) h = (λ q. absurd (omega (arith, q)), refl)

  -- The loads from the first table on, when a writer that has been shifted back has filled it.
  loads_all :
      (w : Writer State Page) (c : cipher.State) (ps : List Page) (r : Reader) (dst : Page)
      → IsReady k format write_ok page max do_compress w
      → w.cur_extent_idx ≡ 0
      → w.cur_offset + page ≡ (extent w.extents 0).start
      → r.next_extents ≡ w.extents_spc
      → IsFollowed w c ps
      → ((load_all k format cipher read_ok page max do_encrypt disk
            (length ps)
            (record { reader = r; state = c })
            dst).0
          ≡ ok)
        × ((load_all k format cipher read_ok page max do_encrypt disk
              (length ps)
              (record { reader = r; state = c })
              dst).1
            ≡ ps)
  unfolding load_all
  loads_all w c ps r dst v i0 at start x =
      let found : at_offset disk r.next_extents ≡ of_table x.table = rw start (
        find_write_lem disk.writes (disk.old w.extents_spc) w.extents_spc (of_table x.table)
          distinct x.written) in
      let (b, there, e) = first_reader w x.table r v x.agrees i0 at in
      rw
        (
          load_extents_page_ok k format write_ok read_ok page max do_compress disk r x.table
              (λ q. x.spc (sym start ∙ q)) (good r.next_extents) found,
          sym e,
        )
        (x.loads b there dst)

  -- A device on which the image is saved with success, no offset being written twice and every read
  -- succeeding, gives the pages back: from the offset of the first table, `load_extents_page` and the
  -- loads of as many pages succeed, and the pages come out as they went in. The writer starts with an
  -- array of full size and no extent in use, its first page lies at least a page into the device, and
  -- the cipher starts from the same state.
  pub load_all-save_all :
      (s : Saver k format cipher) (ps : List Page) (r : Reader) (dst : Page)
      → length s.writer.extents ≡ max + 1
      → s.writer.nr_extents ≡ 0
      → r.next_extents ≡ s.writer.extents_spc
      → page ≤ (preallocate_swap k format write_ok page max do_compress s.writer).0
      → (save_all k format cipher write_ok page max buf_size do_compress do_encrypt s ps).0 ≡ ok
      → (save_all k format cipher write_ok page max buf_size do_compress do_encrypt s
          ps).1.writer.disk
        ≡ disk
      → ((load_all k format cipher read_ok page max do_encrypt disk
            (length ps)
            (record { reader = r; state = s.state })
            dst).0
          ≡ ok)
        × ((load_all k format cipher read_ok page max do_encrypt disk
              (length ps)
              (record { reader = r; state = s.state })
              dst).1
            ≡ ps)
  unfolding save_all load_all
  load_all-save_all s ps r dst full none start le h e =
      let one = preallocate_swap k format write_ok page max do_compress s.writer in
      let (ne, e1) = from_first_ok s ps one h in
      let w = shifted k format cipher write_ok page max buf_size do_compress do_encrypt one.1 in
      let p =
        preallocate_swap-IsPreallocated k format write_ok page max do_compress s.writer ppos pos
          full (λ i lt. absurd (omega (arith, lt, none))) ne in
      let v : IsReady k format write_ok page max do_compress w = record {
        full = p.ready.full;
        nr_le = p.ready.nr_le;
        idx_lt = p.ready.idx_lt;
        hold = p.ready.hold;
      } in
      let sent =
        save_pages k format cipher write_ok page max buf_size do_compress do_encrypt
          (record (s) { writer = w }) ps in
      let h1 = sym (ap (λ y. y.0) e1) ∙ h in
      let e2 = e1 ∙ after_pages_ok sent h1 in
      let x =
        saved-IsFollowed ps (record (s) { writer = w }) v (after_pages_status sent h1)
          (sym (ap (λ y. y.0) e2) ∙ h) (sym (ap (λ y. y.1.writer.disk) e2) ∙ e) in
      loads_all w s.state ps r dst v p.idx (omega (arith, p.offset, p.first, le))
        (start ∙ sym p.spc) x
