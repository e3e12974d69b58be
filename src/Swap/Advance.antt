-- ===== src/Swap/Advance.antt =====
-- How the swap writer of suspend.c goes on to the next page: in the same extent, to the next extent
-- in use, or to a new table when the extents are used up.
use suspend.Common.{
  ℕ, zero, suc, ◌+◌, ◌≤◌, ◌<◌, ◌≡◌, ◌≢◌, refl, ◌⊎◌, inl, inr, Bool, false, Bool-cases, List, ◌∷◌,
  arith, ltb, ltb→lt, ltb_false→le, ◌==◌, ==_false→ne, length, length-set, length-replicate,
  get_or-set_self, get_or-set_ne, set, replicate, ◌∙◌, sym, if◌then◌else◌,
}
use suspend.Extents.{Extent, extent, nothing}
use suspend.SwapAlloc.{SwapDevice, get_swap_page}
use suspend.Swap.{Status, ok, einval, eio, enospc, Format, Disk, write_page}
use suspend.Swap.Writer.{
  Writer, save_table, save_extents, carried, begin_table, cleared, next_table, next_swap_page,
  preallocate_swap,
}
use suspend.Swap.Ready.{Hold, IsReady, preallocate_swap-IsPreallocated}

-- A write that succeeds is the latest of the log, and not at offset 0.
pub write_page_ok :
    {Page : Type 0} (write_ok : ℕ → Bool) (d : Disk Page) (p : Page) (offset : ℕ)
    → (write_page write_ok d p offset).0 ≡ ok
    → (offset ≢ 0)
      × ((write_page write_ok d p offset).1 ≡ record d { writes = (offset, p) ∷ d.writes })
unfolding write_page
write_page_ok write_ok d p offset h = elim (Bool-cases (offset == 0)) [
  | inl t ↦ let q : einval ≡ ok = rw (t, write_page) at h in absurd (cc)
  | inr t ↦ elim (Bool-cases (write_ok offset)) [
    | inl u ↦ rw (t, u) (==_false→ne _ _ t, refl)
    | inr u ↦ let q : eio ≡ ok = rw (t, u, write_page) at h in absurd (cc)
  ]
]

-- The array with entry `i` cleared if it is not empty.
module _ (es : List Extent) (i : ℕ) where
  abbrev left : Bool
  left = ltb (extent es i).start (extent es i).end

  abbrev cleared_array : List Extent
  cleared_array = if left then set es i nothing else es

  length-cleared : length cleared_array ≡ length es
  length-cleared = ground (arith, length-set es i nothing)

  get-cleared : (j : ℕ) → j ≢ i → extent cleared_array j ≡ extent es j
  get-cleared j ne = elim (Bool-cases left) [
    | inl t ↦ rw t (get_or-set_ne es {i = i} {j = j} nothing nothing (λ e. ne (sym e)))
    | inr t ↦ rw t refl
  ]

  cleared_closed : i < length es → (extent cleared_array i).end ≤ (extent cleared_array i).start
  cleared_closed h = elim (Bool-cases left) [
    | inl t ↦ rw t (rw (get_or-set_self es i nothing nothing h) (omega arith))
    | inr t ↦ rw t (ltb_false→le _ _ t)
  ]

  -- What is carried over is not empty, if there is anything.
  carried-Hold :
      (rest : List Extent) (n : ℕ)
      → n ≡ (if left then 1 else 0)
      → Hold ((if left then extent es i else nothing) ∷ rest) n
  carried-Hold rest n e zero h = ground arith
  carried-Hold rest n e (suc j) h = absurd (ground arith)

module _ (k : SwapDevice) (format : Format) (write_ok : ℕ → Bool) (page max : ℕ)
    (do_compress : Bool) where
  open k use {State}
  open format use {Page, of_table}

  -- A table saved before the end: the page for the next table is in its last entry.
  pub record IsSaved (w w' : Writer State Page) (t : List Extent) : Type 0 where
    pub written : w.extents_spc ≢ 0
    pub disk : w'.disk ≡ record (w.disk) { writes = (w.extents_spc, of_table t) ∷ w.disk.writes }
    pub next : w'.extents_spc ≢ 0
    pub table : t ≡ set w.extents max (record (extent w.extents max) { start = w'.extents_spc })
    pub count : w'.nr_extents ≡ w.nr_extents

  save_extents-IsSaved :
      (w : Writer State Page)
      → (save_extents k format write_ok page max do_compress w false).0 ≡ ok
      → (t : List Extent) × IsSaved w
          (save_extents k format write_ok page max do_compress w false).1
          t
  unfolding save_extents save_table
  save_extents-IsSaved w h = elim (Bool-cases (offset == 0)) [
    | inl t ↦ let q : enospc ≡ ok = rw t at h in absurd (cc)
    | inr t ↦
        let (ne, e) = write_page_ok write_ok w.disk (of_table es) w.extents_spc (rw t at h) in
        rw t (
          es,
          record { written = ne; disk = e; next = ==_false→ne _ _ t; table = refl; count = refl },
        )
  ]
    where
      offset : ℕ
      offset = (get_swap_page k w.dev).0

      es : List Extent
      es = set w.extents max (record { start = offset; end = (extent w.extents max).end })

  -- The writer has gone on in the same table, to the page `o`.
  pub record IsMoved (w : Writer State Page) (o : ℕ) (w' : Writer State Page) : Type 0 where
    pub ready : IsReady k format write_ok page max do_compress w'
    pub offset : w'.cur_offset ≡ o
    pub extents : w'.extents ≡ w.extents
    pub count : w'.nr_extents ≡ w.nr_extents
    pub spc : w'.extents_spc ≡ w.extents_spc
    pub disk : w'.disk ≡ w.disk
    -- Either one page further in the extent, or at the start of the next.
    pub moved :
        ((w.cur_offset + page < (extent w.extents w.cur_extent_idx).end)
          × (o ≡ w.cur_offset + page)
          × (w'.cur_extent_idx ≡ w.cur_extent_idx))
        ⊎ (((extent w.extents w.cur_extent_idx).end ≤ w.cur_offset + page)
            × (o ≡ (extent w.extents (w.cur_extent_idx + 1)).start)
            × (w'.cur_extent_idx ≡ w.cur_extent_idx + 1))

  -- The writer has saved the table `t` and stands at the first page `o` of a new one.
  pub record IsTurned (w : Writer State Page) (o : ℕ) (w' : Writer State Page) (t : List Extent)
      : Type 0 where
    pub ready : IsReady k format write_ok page max do_compress w'
    pub idx : w'.cur_extent_idx ≡ 0
    pub offset : w'.cur_offset ≡ o
    pub first : (extent w'.extents 0).start ≡ o
    pub written : w.extents_spc ≢ 0
    pub disk : w'.disk ≡ record (w.disk) { writes = (w.extents_spc, of_table t) ∷ w.disk.writes }
    pub next : w'.extents_spc ≢ 0
    pub linked : (length t ≡ max + 1) × ((extent t max).start ≡ w'.extents_spc)
    pub agrees : (i : ℕ) → i < w.nr_extents → extent t i ≡ extent w.extents i
    pub last :
        (w.nr_extents ≡ w.cur_extent_idx + 1)
        × ((extent w.extents w.cur_extent_idx).end ≤ w.cur_offset + page)
    pub closed : w.nr_extents < max → (extent t w.nr_extents).end ≤ (extent t w.nr_extents).start

  begin_table_ok :
      (s : Status) (w : Writer State Page) (ext : Extent)
      → (begin_table k format write_ok page max do_compress (s, w) ext).0 ≢ 0
      → (s ≡ ok)
        × (begin_table k format write_ok page max do_compress (s, w) ext
            ≡ preallocate_swap k format write_ok page max do_compress
                (record w { extents = ext ∷ replicate max nothing }))
  unfolding begin_table
  begin_table_ok ok w ext ne = (refl, refl)
  begin_table_ok _ w ext ne = absurd (ne refl)

  module _ (w : Writer State Page) (r : IsReady k format write_ok page max do_compress w)
      (ppos : 0 < page) (pos : 0 < max) (i : ℕ) (last : w.nr_extents ≡ i) where
    before : Writer State Page
    before = record w { cur_offset = w.cur_offset + page }

    saved : Status × Writer State Page
    saved =
        save_extents k format write_ok page max do_compress
          (cleared k format write_ok page max do_compress before i) false

    ext : Extent
    ext = carried k format write_ok page max do_compress before i

    next_table-IsTurned :
        i ≡ w.cur_extent_idx + 1
        → (extent w.extents w.cur_extent_idx).end ≤ w.cur_offset + page
        → (next_table k format write_ok page max do_compress before i).0 ≢ 0
        → (t : List Extent) × IsTurned w
            (next_table k format write_ok page max do_compress before i).0
            (next_table k format write_ok page max do_compress before i).1
            t
    unfolding next_table before carried saved ext
    next_table-IsTurned step over ne =
        let (o, e) = begin_table_ok saved.0 saved.1 ext ne in
        let (t, s) =
          save_extents-IsSaved (cleared k format write_ok page max do_compress before i) o in
        let p =
          preallocate_swap-IsPreallocated k format write_ok page max do_compress
            (record (saved.1) { extents = ext ∷ replicate max nothing }) ppos pos
            (omega (arith, length-replicate max nothing))
            (carried-Hold w.extents i (replicate max nothing) _ s.count) (λ q. ne (rw e q)) in
        (
          t,
          rw e (record {
            ready = p.ready;
            idx = p.idx;
            offset = p.offset;
            first = p.first;
            written = s.written;
            disk = p.disk ∙ s.disk;
            next = λ q. s.next (sym p.spc ∙ q);
            linked = rw s.table (
              length-set (cleared_array w.extents i) max _ ∙ length-cleared w.extents i ∙ r.full,
              rw
                  (get_or-set_self (cleared_array w.extents i) max _ nothing
                    (omega (arith, length-cleared w.extents i, r.full)))
                  (sym p.spc),
            );
            agrees = λ j lt.
                rw
                  (
                    s.table,
                    get_or-set_ne (cleared_array w.extents i) {i = max} {j = j} _ nothing
                        (λ q. absurd (omega (arith, q, lt, r.nr_le))),
                  )
                  (get-cleared w.extents i j (λ q. absurd (omega (arith, q, lt, last))));
            last = (last ∙ step, over);
            closed = λ lt.
                rw
                  (
                    last,
                    s.table,
                    get_or-set_ne (cleared_array w.extents i) {i = max} {j = i} _ nothing
                        (λ q. absurd (omega (arith, q, lt, last))),
                  )
                  (cleared_closed w.extents i (omega (arith, r.full, lt, last)));
          }),
        )

  -- A page that `next_swap_page` finds is the next of the table, or the first of a new one.
  pub next_swap_page-advances :
      (w : Writer State Page)
      → IsReady k format write_ok page max do_compress w
      → 0 < page
      → 0 < max
      → (next_swap_page k format write_ok page max do_compress w).0 ≢ 0
      → IsMoved w
          (next_swap_page k format write_ok page max do_compress w).0
          (next_swap_page k format write_ok page max do_compress w).1
        ⊎ ((t : List Extent) × IsTurned w
              (next_swap_page k format write_ok page max do_compress w).0
              (next_swap_page k format write_ok page max do_compress w).1
              t)
  unfolding next_swap_page before
  next_swap_page-advances w r ppos pos ne =
      elim (Bool-cases (ltb (w.cur_offset + page) (extent w.extents w.cur_extent_idx).end)) [
        | inl t ↦ inl (
            rw t (record {
              ready = record { full = r.full; nr_le = r.nr_le; idx_lt = r.idx_lt; hold = r.hold };
              offset = refl;
              extents = refl;
              count = refl;
              spc = refl;
              disk = refl;
              moved = inl (ltb→lt _ _ t, refl, refl);
            }))
        | inr t ↦ elim (Bool-cases (ltb (w.cur_extent_idx + 1) w.nr_extents)) [
          | inl u ↦ inl (
              rw (t, u)
                (record {
                  ready = record {
                    full = r.full;
                    nr_le = r.nr_le;
                    idx_lt = ltb→lt _ _ u;
                    hold = r.hold;
                  };
                  offset = refl;
                  extents = refl;
                  count = refl;
                  spc = refl;
                  disk = refl;
                  moved = inr (ltb_false→le _ _ t, refl, refl);
                }))
          | inr u ↦
              let last : w.nr_extents ≡ w.cur_extent_idx + 1 =
                omega (arith, r.idx_lt, ltb_false→le _ _ u) in
              inr (
                rw (t, u)
                  (next_table-IsTurned w r ppos pos (w.cur_extent_idx + 1) last refl
                    (ltb_false→le _ _ t) (rw (t, u, next_swap_page) at ne)))
        ]
      ]
