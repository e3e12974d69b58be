-- ===== src/Memory/Reading.antt =====
-- The memory that resume sets aside is enough for the header and the buffers of `init_swap_reader`, and
-- `free_swap_reader` gives them back.
use suspend.Common.{
  ℕ, ◌+◌, ◌*◌, ◌^◌, ◌≤◌, ◌<◌, ◌≡◌, refl, Bool, true, false, Option, some, arith, subst,
  if◌then◌else◌,
}
use suspend.Pool.{Pool, Slot, getmem, round_up_page_size, init_memalloc}
use suspend.Pool.Align.{pow-pos}
use suspend.Memory.{
  Setup, buffer_size, expanded_size, resume_mem_size, getmem_if, ReadBuffers, take_read_buffers,
  free_swap_reader, is_given,
}
use suspend.Memory.Room.{HasRoom, getmem-IsServed}
use suspend.Memory.Enough.{
  IsTaken, Outcome, getmem-IsTaken, getmem_if-IsTaken, skipped, whole, whole_buffer, whole_expanded,
  expanded_pos,
}
use suspend.Memory.Nest.{IsSame, same, free_if-IsSame}
use suspend.Memory.Release.{Outcome_given}
use suspend.Memory.Startup.{init_memalloc-HasRoom}

-- All that `init_swap_reader` takes, in whole pages.
abbrev pub reader_size : Setup → ℕ
reader_size s =
    s.page_size
    + (buffer_size s
        + ((if s.do_encrypt then s.page_size else 0)
            + ((if s.do_compress then expanded_size s else 0)
                + ((if s.do_compress then round_up_page_size s.page_size s.lzo_work else 0) + 0))))

enough :
    (P B X L : ℕ) (c e : Bool)
    → P + (P + (B + ((if e then P else 0) + ((if c then X else 0) + ((if c then L else 0) + 0)))))
      ≤ 2 * P + B + P + (X + L)
enough P B X L true true = omega arith
enough P B X L true false = omega arith
enough P B X L false true = omega arith
enough P B X L false false = omega arith

-- Every buffer that the image asks for is there.
pub record AreGiven (s : Setup) (h : ReadBuffers) : Type 0 where
  pub extents : is_given h.extents ≡ true
  pub buffer : is_given h.buffer ≡ true
  pub decrypt_buffer : s.do_encrypt ≡ true → is_given h.decrypt_buffer ≡ true
  pub read_buffer : is_given h.read_buffer ≡ true
  pub lzo_work_buffer : s.do_compress ≡ true → is_given h.lzo_work_buffer ≡ true

module _ (s : Setup) (p : Pool) where
  abbrev with_extents : Option ℕ × Pool
  with_extents = getmem p s.page_size

  abbrev with_buffer : Option ℕ × Pool
  with_buffer = getmem with_extents.1 (buffer_size s)

  abbrev with_decrypt : Option ℕ × Pool
  with_decrypt = getmem_if s.do_encrypt with_buffer.1 s.page_size

  abbrev with_read : Option ℕ × Pool
  with_read =
      if s.do_compress
      then getmem with_decrypt.1 (expanded_size s)
      else (with_buffer.0, with_decrypt.1)

  abbrev with_lzo : Option ℕ × Pool
  with_lzo = getmem_if s.do_compress with_read.1 s.lzo_work

  module _ (pos : 0 < s.page_size) (lzo_pos : 0 < s.lzo_work) where
    read-IsTaken :
        (c : Bool) (q : Pool) (b : Option ℕ) (n : ℕ)
        → HasRoom s.page_size q ((if c then expanded_size s else 0) + n) 2
        → IsTaken c s.page_size q
            (expanded_size s)
            n
            1
            (if c then getmem q (expanded_size s) else (b, q))
    read-IsTaken true q b n h =
        let (m, x) = whole_expanded s pos in
        getmem-IsTaken s.page_size q (expanded_size s) n 1 (expanded_size s)
          (whole s.page_size (expanded_size s) m pos x) (expanded_pos s pos) h
    read-IsTaken false q b n h =
        skipped s.page_size q (expanded_size s) n 1
          (subst (λ y. HasRoom s.page_size q y 2) (omega arith) h) (b, q) refl

    read_given :
        (c : Bool) (q : Pool) (b : Option ℕ)
        → Outcome c q (expanded_size s) (if c then getmem q (expanded_size s) else (b, q))
        → is_given b ≡ true
        → is_given (if c then getmem q (expanded_size s) else (b, q)).0 ≡ true
    read_given true q b o h = Outcome_given o refl
    read_given false q b o h = h

    -- Every buffer is there, and freed again they leave the areas that were in use.
    pub read_buffers-AreGiven :
        HasRoom s.page_size p (reader_size s) 5
        → AreGiven s (take_read_buffers s p).0
          × IsSame p (free_swap_reader s (take_read_buffers s p).0 (take_read_buffers s p).1)
    unfolding take_read_buffers free_swap_reader
    read_buffers-AreGiven r =
        let e =
          getmem-IsTaken s.page_size p s.page_size _ 4 s.page_size
            (whole s.page_size s.page_size 1 pos (omega arith)) pos r in
        let b =
          getmem-IsTaken s.page_size with_extents.1 (buffer_size s) _ 3 (buffer_size s)
            (whole_buffer s pos) (omega (arith, pos)) e.room in
        let c =
          getmem_if-IsTaken s.page_size with_buffer.1 s.page_size _ 2 s.do_encrypt s.page_size
            (whole s.page_size s.page_size 1 pos (omega arith)) pos b.room in
        let d = read-IsTaken s.do_compress with_decrypt.1 with_buffer.0 _ c.room in
        let l =
          getmem_if-IsTaken s.page_size with_read.1 s.lzo_work 0 0 s.do_compress
            (round_up_page_size s.page_size s.lzo_work) refl lzo_pos d.room in
        let w =
          free_if-IsSame s.do_compress s.lzo_work (λ _. lzo_pos) l.outcome
            (same with_lzo.1 l.room.valid) in
        let x =
          free_if-IsSame s.do_compress (expanded_size s) (λ _. expanded_pos s pos) d.outcome w in
        let y = free_if-IsSame s.do_encrypt s.page_size (λ _. pos) c.outcome x in
        let z = free_if-IsSame true (buffer_size s) (λ _. omega (arith, pos)) b.outcome y in
        (
          record {
            extents = Outcome_given e.outcome refl;
            buffer = Outcome_given b.outcome refl;
            decrypt_buffer = Outcome_given c.outcome;
            read_buffer =
                read_given s.do_compress with_decrypt.1 with_buffer.0 d.outcome
                  (Outcome_given b.outcome refl);
            lzo_work_buffer = Outcome_given l.outcome;
          },
          free_if-IsSame true s.page_size (λ _. pos) e.outcome z,
        )

reader_size-resume_mem_size : (s : Setup) → s.page_size + reader_size s ≤ resume_mem_size s
unfolding resume_mem_size
reader_size-resume_mem_size s =
    enough s.page_size (buffer_size s) (expanded_size s) (round_up_page_size s.page_size s.lzo_work)
      s.do_compress s.do_encrypt

-- The memory that resume sets aside at the start is enough: the page for the header and all buffers of
-- the swap reader are there, however the image was saved, and once `free_swap_reader` has run the areas in use are
-- those from before `init_swap_reader`.
pub resume_mem_size-AreGiven :
    (s : Setup) (j : ℕ) (malloc : ℕ → Option ℕ) (junk : Slot) {p : Pool}
    → s.page_size ≡ 8 * 2 ^ j
    → 4 ≤ j
    → j < 29
    → 0 < s.lzo_work
    → resume_mem_size s + 2 * s.page_size ≤ 2 ^ 32
    → init_memalloc s.page_size malloc junk s.page_size (resume_mem_size s) ≡ some p
    → (is_given (getmem p s.page_size).0 ≡ true)
      × AreGiven s (take_read_buffers s (getmem p s.page_size).1).0
      × IsSame (getmem p s.page_size).1 (
          free_swap_reader s
            (take_read_buffers s (getmem p s.page_size).1).0
            (take_read_buffers s (getmem p s.page_size).1).1)
resume_mem_size-AreGiven s j malloc junk {p} e lo hi lzo_pos small h =
    let page = s.page_size in
    let pos : 0 < page = omega (arith, e, pow-pos j) in
    let r = init_memalloc-HasRoom page j malloc junk (resume_mem_size s) e lo hi small h in
    let one = whole page page 1 pos (omega arith) in
    let x =
      getmem-IsServed page p page (reader_size s) 5
        (record {
          valid = r.valid;
          same_page = r.same_page;
          slots_left = omega (arith, r.slots_left);
          bytes_left = omega (arith, r.bytes_left, one, reader_size-resume_mem_size s);
        })
        pos in
    let (a, b) = read_buffers-AreGiven s x.after pos lzo_pos x.room in rw x.result (refl, a, b)
