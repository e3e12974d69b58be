-- ===== src/Swap/Follow.antt =====
-- The swap reader of load.c walks through the tables as the swap writer of suspend.c filled them.
use suspend.Common.{
  ℕ, ◌+◌, ◌<◌, ◌≡◌, ◌≢◌, refl, inl, inr, Bool, true, false, List, arith, ltb, le→ltb_false, ◌==◌,
  length, get_or-set_self, get_or-set_ne, set, ap, ◌∙◌, sym, ℕ_discrete,
}
use suspend.Extents.{Extent, extent, nothing}
use suspend.SwapAlloc.{SwapDevice}
use suspend.Swap.{ok, Format, Disk, at_offset, read_page}
use suspend.Swap.Writer.{Writer}
use suspend.Swap.Reader.{Reader, find_next_image_page, load_extents_page, take_table}
use suspend.Swap.Ready.{IsReady}
use suspend.Swap.Advance.{IsMoved, IsTurned}

pub read_page_ok :
    {Page : Type 0} (read_ok : ℕ → Bool) (d : Disk Page) (buf : Page) (offset : ℕ)
    → offset ≢ 0
    → read_ok offset ≡ true
    → read_page read_ok d buf offset ≡ (ok, at_offset d offset)
unfolding read_page
read_page_ok read_ok d buf offset ne good =
    let u : (offset == 0) ≡ false = ground arith in rw (u, good) refl

module _ (k : SwapDevice) (format : Format) (write_ok read_ok : ℕ → Bool) (page max : ℕ)
    (do_compress : Bool) (disk : Disk format.Page) where
  open k use {State}
  open format use {Page, of_table}

  -- A table agrees with the writer's array on the extents in use.
  abbrev pub Agrees : Writer State Page → List Extent → Type 0
  Agrees w t = (length t ≡ max + 1) × ((i : ℕ) → i < w.nr_extents → extent t i ≡ extent w.extents i)

  -- The reader holds the table and stands where the writer stands.
  pub record IsAt (w : Writer State Page) (t : List Extent) (r : Reader) : Type 0 where
    pub extents : r.extents ≡ set t max nothing
    pub next : r.next_extents ≡ (extent t max).start
    pub idx : r.cur_extent_idx ≡ w.cur_extent_idx
    pub offset : r.cur_offset ≡ w.cur_offset

  -- An entry of the reader's array, which is the table with its last entry cleared.
  entry_at :
      {w : Writer State Page} {t : List Extent} {r : Reader}
      → IsReady k format write_ok page max do_compress w
      → Agrees w t
      → IsAt w t r
      → (i : ℕ) → i < w.nr_extents
      → extent r.extents i ≡ extent w.extents i
  entry_at {t} v g a i h =
      rw
        (
          a.extents,
          get_or-set_ne t {i = max} {j = i} nothing nothing
              (λ q. absurd (omega (arith, q, h, v.nr_le))),
        )
        (g.1 i h)

  pub moved-IsAt :
      (w : Writer State Page) (o : ℕ) (w' : Writer State Page) (t : List Extent) (r : Reader)
      → IsReady k format write_ok page max do_compress w
      → Agrees w t
      → IsAt w t r
      → IsMoved k format write_ok page max do_compress w o w'
      → IsAt w' t (find_next_image_page format read_ok page max disk r)
  unfolding find_next_image_page
  moved-IsAt w o w' t r v g a m =
      let c : extent r.extents r.cur_extent_idx ≡ extent w.extents w.cur_extent_idx =
        ap (extent r.extents) a.idx ∙ entry_at v g a w.cur_extent_idx v.idx_lt in
      elim m.moved [
        | inl (lt, e, f) ↦
            let u : ltb (r.cur_offset + page) (extent r.extents r.cur_extent_idx).end ≡ true =
              ground (arith, ap Extent.end c, a.offset) in
            rw u (record {
              extents = a.extents;
              next = a.next;
              idx = a.idx ∙ sym f;
              offset = omega (arith, a.offset, e, m.offset);
            })
        | inr (le, e, f) ↦
            let inside : w.cur_extent_idx + 1 < w.nr_extents =
              omega (arith, m.ready.idx_lt, f, m.count) in
            let d : extent r.extents (r.cur_extent_idx + 1)
                ≡ extent w.extents (w.cur_extent_idx + 1) =
              ap (λ (n : ℕ). extent r.extents (n + 1)) a.idx
              ∙ entry_at v g a (w.cur_extent_idx + 1) inside in
            let some = v.hold (w.cur_extent_idx + 1) inside in
            let u : ltb (r.cur_offset + page) (extent r.extents r.cur_extent_idx).end ≡ false =
              ground (arith, ap Extent.end c, a.offset) in
            let x : ltb (extent r.extents (r.cur_extent_idx + 1)).start
                  (extent r.extents (r.cur_extent_idx + 1)).end
                ≡ true =
              ground (arith, ap Extent.end d, ap Extent.start d) in
            rw (u, x)
              (record {
                extents = a.extents;
                next = a.next;
                idx = omega (arith, a.idx, f);
                offset = ap Extent.start d ∙ sym e ∙ sym m.offset;
              })
      ]

  -- A table that the device holds is loaded.
  pub load_extents_page_ok :
      (r : Reader) (t : List Extent)
      → r.next_extents ≢ 0
      → read_ok r.next_extents ≡ true
      → at_offset disk r.next_extents ≡ of_table t
      → load_extents_page format read_ok page max disk r
        ≡ (ok, take_table format read_ok page max disk r t)
  unfolding load_extents_page
  load_extents_page_ok r t ne good e =
      rw (read_page_ok read_ok disk (of_table r.extents) r.next_extents ne good)
        (rw (e, format.to_table-of_table t) refl)

  pub turned-IsAt :
      (w : Writer State Page) (o : ℕ) (w' : Writer State Page) (t t' : List Extent) (r : Reader)
      → IsReady k format write_ok page max do_compress w
      → 0 < max
      → Agrees w t
      → IsAt w t r
      → IsTurned k format write_ok page max do_compress w o w' t
      → Agrees w' t'
      → read_ok w'.extents_spc ≡ true
      → at_offset disk w'.extents_spc ≡ of_table t'
      → IsAt w' t' (find_next_image_page format read_ok page max disk r)
  unfolding find_next_image_page take_table
  turned-IsAt w o w' t t' r v pos g a m g' good e =
      rw
        (u, x, load_extents_page_ok next t' (λ q. m.next (sym link ∙ q)) (rw link good) (rw link e))
        (record {
          extents = refl;
          next = refl;
          idx = sym m.idx;
          offset =
              ap Extent.start (
                get_or-set_ne t' {i = max} {j = 0} nothing nothing
                  (λ q. absurd (omega (arith, q, pos)))
                ∙ g'.1 0 (omega (arith, m.ready.idx_lt)))
              ∙ m.first
              ∙ sym m.offset;
        })
    where
      link : r.next_extents ≡ w'.extents_spc
      link = a.next ∙ m.linked.1

      next : Reader
      next = record r { cur_offset = r.cur_offset + page; cur_extent_idx = r.cur_extent_idx + 1 }

      c : extent r.extents r.cur_extent_idx ≡ extent w.extents w.cur_extent_idx
      c = ap (extent r.extents) a.idx ∙ entry_at v g a w.cur_extent_idx v.idx_lt

      u : ltb (r.cur_offset + page) (extent r.extents r.cur_extent_idx).end ≡ false
      u = ground (arith, ap Extent.end c, a.offset, m.last)

      step : r.cur_extent_idx + 1 ≡ w.nr_extents
      step = omega (arith, a.idx, m.last)

      x :
          ltb
            (extent r.extents (r.cur_extent_idx + 1)).start
            (extent r.extents (r.cur_extent_idx + 1)).end
          ≡ false
      x =
          rw (step, a.extents)
            (elim (ℕ_discrete w.nr_extents max) [
              | yes q ↦ rw (q, get_or-set_self t max nothing nothing (omega (arith, g.0))) refl
              | no q ↦
                  rw (get_or-set_ne t {i = max} {j = w.nr_extents} nothing nothing (λ p. q (sym p)))
                    (le→ltb_false _ _ (m.closed (omega (arith, v.nr_le, q))))
            ])
