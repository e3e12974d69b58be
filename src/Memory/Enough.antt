-- ===== src/Memory/Enough.antt =====
-- The memory that s2disk sets aside is enough for the buffers of `init_swap_writer`, behind the page
-- that `write_image` takes for the header; what resume sets aside is enough for `init_swap_reader`.
use suspend.Common.{
  ℕ, suc, ◌+◌, ◌-◌, ◌*◌, ◌/◌, ◌≤◌, ◌<◌, ◌≡◌, refl, ◌⊎◌, inl, inr, Bool, true, false, ◌||◌, Option,
  none, some, arith, ltb, sym, ap, ◌∙◌, subst, if◌then◌else◌,
}
use suspend.Pool.{Pool, getmem, round_up_page_size}
use suspend.Pool.Bounds.{IsValid, IsAllocated}
use suspend.Threads.{write_buffer_count}
use suspend.Memory.{
  Setup, buffer_size, expanded_size, encrypt_buf_size, suspend_mem_size, getmem_if, write_buf_size,
  take_write_buffer,
}
use suspend.Memory.Room.{HasRoom, getmem-IsServed, round_up-mul}

-- The number of bytes that the write buffer takes.
abbrev pub write_size : Setup → ℕ
write_size s =
    if s.do_compress
    then write_buf_size s
    else if s.use_threads
    then buffer_size s * write_buffer_count
    else 0

-- All that `init_swap_writer` takes, in whole pages.
abbrev pub writer_size : Setup → ℕ
writer_size s =
    s.page_size
    + (buffer_size s
        + ((if s.do_encrypt then encrypt_buf_size s else 0)
            + ((if s.do_compress then round_up_page_size s.page_size s.lzo_work else 0)
                + write_size s)))

enough :
    (P B E X L : ℕ) (c e t : Bool)
    → 0 < X
    → P
        + (P
            + (B
                + ((if e then E else 0)
                    + ((if c then L else 0)
                        + (if c
                            then (if t
                                then (if c then X else 0) + 3 * (if c then X else 0)
                                else (if c then X else 0))
                            else if t
                            then B * 4
                            else 0)))))
      ≤ 2 * P
        + B
        + (if c then (if c then X else 0) + L else 0)
        + (if e then E else 0)
        + (if t
            then (if ltb 0 (if c then X else 0) then 3 * (if c then X else 0) else 4 * B)
              + (if e then 0 else 4 * B)
            else 0)
enough P B E X L true true true h = let t : ltb 0 X ≡ true = ground arith in rw t (omega arith)
enough P B E X L true false true h = let t : ltb 0 X ≡ true = ground arith in rw t (omega arith)
enough P B E X L true true false h = omega arith
enough P B E X L true false false h = omega arith
enough P B E X L false true true h = omega arith
enough P B E X L false false true h = omega arith
enough P B E X L false true false h = omega arith
enough P B E X L false false false h = omega arith

pub writer_size-suspend_mem_size :
    (s : Setup) → 0 < s.page_size → s.page_size + writer_size s ≤ suspend_mem_size s
unfolding suspend_mem_size expanded_size
writer_size-suspend_mem_size s h =
    enough s.page_size (buffer_size s) (encrypt_buf_size s) (expanded_size s)
      (round_up_page_size s.page_size s.lzo_work) s.do_compress s.do_encrypt s.use_threads
      (omega arith)

-- A call of `getmem` on a condition succeeds, or is not made.
abbrev pub Outcome : Bool → Pool → ℕ → Option ℕ × Pool → Type 0
Outcome c p size x =
    ((c ≡ true) × ((a : ℕ) × (x.0 ≡ some a) × IsAllocated p size a x.1)) ⊎ ((c ≡ false) × (x.1 ≡ p))

pub record IsTaken (c : Bool) (page : ℕ) (p : Pool) (size n k : ℕ) (x : Option ℕ × Pool)
    : Type 0 where
  pub room : HasRoom page x.1 n k
  pub outcome : Outcome c p size x

module _ (page : ℕ) (p : Pool) (size n k : ℕ) where
  pub getmem-IsTaken :
      (rounded : ℕ)
      → round_up_page_size page size ≡ rounded
      → 0 < size
      → HasRoom page p (rounded + n) (suc k)
      → IsTaken true page p size n k (getmem p size)
  getmem-IsTaken rounded e pos r =
      let s =
        getmem-IsServed page p size n k (subst (λ y. HasRoom page p (y + n) (suc k)) (sym e) r)
          pos in
      subst (λ x. IsTaken true page p size n k x) (sym s.result)
        (record { room = s.room; outcome = inl (refl, (s.address, refl, s.allocated)) })

  pub skipped :
      HasRoom page p n (suc k) → (x : Option ℕ × Pool) → x.1 ≡ p → IsTaken false page p size n k x
  skipped r x e = record {
    room =
        subst (λ y. HasRoom page y n k) (sym e)
          (record {
            valid = r.valid;
            same_page = r.same_page;
            slots_left = omega (arith, r.slots_left);
            bytes_left = r.bytes_left;
          });
    outcome = inr (refl, e);
  }

  pub getmem_if-IsTaken :
      (c : Bool) (rounded : ℕ)
      → round_up_page_size page size ≡ rounded
      → 0 < size
      → HasRoom page p ((if c then rounded else 0) + n) (suc k)
      → IsTaken c page p size n k (getmem_if c p size)
  getmem_if-IsTaken true rounded e pos r = getmem-IsTaken rounded e pos r
  getmem_if-IsTaken false rounded e pos r =
      skipped (subst (λ y. HasRoom page p y (suc k)) (omega arith) r) (none, p) refl

pub whole : (page size m : ℕ) → 0 < page → size ≡ m * page → round_up_page_size page size ≡ size
whole page size m h e = ap (round_up_page_size page) e ∙ round_up-mul page m h ∙ sym e

module _ (page X B : ℕ) (q : Pool) (buffer : Option ℕ) where
  write_cases :
      (c t : Bool)
      → 0 < X
      → 0 < B
      → round_up_page_size page X ≡ X
      → round_up_page_size page (X + 3 * X) ≡ X + 3 * X
      → round_up_page_size page (B * 4) ≡ B * 4
      → HasRoom page q
          ((if c
              then (if t
                  then (if c then X else 0) + 3 * (if c then X else 0)
                  else (if c then X else 0))
              else if t
              then B * 4
              else 0)
            + 0)
          1
      → IsTaken
          (c || t)
          page
          q
          (if c
            then (if t
                then (if c then X else 0) + 3 * (if c then X else 0)
                else (if c then X else 0))
            else if t
            then B * 4
            else 0)
          0
          0
          (if c
            then getmem q (
                if t then (if c then X else 0) + 3 * (if c then X else 0) else (if c then X else 0))
            else if t
            then getmem q (B * 4)
            else (buffer, q))
  write_cases true true h g x x4 b4 r =
      getmem-IsTaken page q (X + 3 * X) 0 0 (X + 3 * X) x4 (omega arith) r
  write_cases true false h g x x4 b4 r = getmem-IsTaken page q X 0 0 X x h r
  write_cases false true h g x x4 b4 r =
      getmem-IsTaken page q (B * 4) 0 0 (B * 4) b4 (omega arith) r
  write_cases false false h g x x4 b4 r = skipped page q 0 0 0 r (buffer, q) refl

  positive_cases :
      (c t : Bool)
      → 0 < X
      → 0 < B
      → (c || t) ≡ true
      → 0 < (
          if c
          then (if t then (if c then X else 0) + 3 * (if c then X else 0) else (if c then X else 0))
          else if t
          then B * 4
          else 0)
  positive_cases true true h g e = omega arith
  positive_cases true false h g e = h
  positive_cases false true h g e = omega arith
  positive_cases false false h g e = absurd (cc)

  own_cases :
      (c t : Bool)
      → (c || t) ≡ false
      → (if c
          then getmem q
              (if t then (if c then X else 0) + 3 * (if c then X else 0) else (if c then X else 0))
          else if t
          then getmem q (B * 4)
          else (buffer, q)).0
        ≡ buffer
  own_cases true t h = absurd (cc)
  own_cases false true h = absurd (cc)
  own_cases false false h = refl

module _ (s : Setup) (pos : 0 < s.page_size) where
  pub whole_buffer : round_up_page_size s.page_size (buffer_size s) ≡ buffer_size s
  whole_buffer = whole s.page_size (buffer_size s) 32 pos (omega arith)

  pub whole_encrypt : round_up_page_size s.page_size (encrypt_buf_size s) ≡ encrypt_buf_size s
  whole_encrypt = whole s.page_size (encrypt_buf_size s) 256 pos refl

  pub whole_expanded : (m : ℕ) × (expanded_size s ≡ m * s.page_size)
  unfolding expanded_size round_up_page_size
  whole_expanded = (32 + (buffer_size s / 16 + 67 + 8 + s.page_size - 1) / s.page_size, omega arith)

  pub expanded_pos : 0 < expanded_size s
  unfolding expanded_size
  expanded_pos = omega arith

module _ (s : Setup) (p : Pool) where
  abbrev pub with_extents : Option ℕ × Pool
  with_extents = getmem p s.page_size

  abbrev pub with_buffer : Option ℕ × Pool
  with_buffer = getmem with_extents.1 (buffer_size s)

  abbrev pub with_encrypt : Option ℕ × Pool
  with_encrypt = getmem_if s.do_encrypt with_buffer.1 (encrypt_buf_size s)

  abbrev pub with_lzo : Option ℕ × Pool
  with_lzo = getmem_if s.do_compress with_encrypt.1 s.lzo_work

  abbrev pub with_write : Option ℕ × Pool
  with_write = take_write_buffer s with_buffer.0 with_lzo.1

  -- Every buffer that the settings ask for is there.
  pub record AreTaken : Type 0 where
    pub extents : Outcome true p s.page_size with_extents
    pub buffer : Outcome true with_extents.1 (buffer_size s) with_buffer
    pub encrypt : Outcome s.do_encrypt with_buffer.1 (encrypt_buf_size s) with_encrypt
    pub lzo : Outcome s.do_compress with_encrypt.1 s.lzo_work with_lzo
    pub write : Outcome (s.do_compress || s.use_threads) with_lzo.1 (write_size s) with_write
    pub own : (s.do_compress || s.use_threads) ≡ false → with_write.0 ≡ with_buffer.0
    pub positive : (s.do_compress || s.use_threads) ≡ true → 0 < write_size s
    pub valid : IsValid with_write.1

  module _ (pos : 0 < s.page_size) (lzo_pos : 0 < s.lzo_work)
      (r : HasRoom s.page_size p (writer_size s) 5) where
    write-IsTaken :
        HasRoom s.page_size with_lzo.1 (write_size s + 0) 1
        → IsTaken
            (s.do_compress || s.use_threads)
            s.page_size
            with_lzo.1
            (write_size s)
            0
            0
            with_write
    write-IsTaken h =
        let (m, x) = (whole_expanded s pos) in
        write_cases s.page_size (expanded_size s) (buffer_size s) with_lzo.1 with_buffer.0
          s.do_compress s.use_threads (expanded_pos s pos) (omega arith)
          (whole s.page_size (expanded_size s) m pos x)
          (whole s.page_size (expanded_size s + 3 * expanded_size s) (m + 3 * m) pos
            (omega (arith, x)))
          (whole s.page_size (buffer_size s * 4) 128 pos (omega arith)) h

    pub buffers-AreTaken : AreTaken
    buffers-AreTaken =
        let e =
          getmem-IsTaken s.page_size p s.page_size _ 4 s.page_size
            (whole s.page_size s.page_size 1 pos (omega arith)) pos r in
        let b =
          getmem-IsTaken s.page_size with_extents.1 (buffer_size s) _ 3 (buffer_size s)
            (whole_buffer s pos) (omega arith) e.room in
        let c =
          getmem_if-IsTaken s.page_size with_buffer.1 (encrypt_buf_size s) _ 2 s.do_encrypt
            (encrypt_buf_size s) (whole_encrypt s pos) (omega arith) b.room in
        let l =
          getmem_if-IsTaken s.page_size with_encrypt.1 s.lzo_work (write_size s) 1 s.do_compress
            (round_up_page_size s.page_size s.lzo_work) refl lzo_pos c.room in
        let w =
          write-IsTaken (subst (λ y. HasRoom s.page_size with_lzo.1 y 1) (omega arith) l.room) in
        record {
          extents = e.outcome;
          buffer = b.outcome;
          encrypt = c.outcome;
          lzo = l.outcome;
          write = w.outcome;
          own =
              own_cases s.page_size (expanded_size s) (buffer_size s) with_lzo.1 with_buffer.0
                s.do_compress s.use_threads;
          positive =
              positive_cases s.page_size (expanded_size s) (buffer_size s) with_lzo.1 with_buffer.0
                s.do_compress s.use_threads (expanded_pos s pos) (omega arith);
          valid = w.room.valid;
        }
