-- ===== src/Suspend/SignatureTrip.antt =====
-- `mark_swap` and `reset_signature` of suspend.c on a device that keeps the header page.
use suspend.Common.{ℕ, zero, suc, ◌≡◌, refl, true, some, ◌∙◌, sym, ap, arith}
use suspend.Suspend.{
  Kernel, s1suspend, is_s1suspend, is_swap, Header, returned, World, read_at_shift, write_at_shift,
  put_signature, take_signature, or_halt, mark_swap, reset_signature,
}

-- The device is never short of a byte and returns what was written last.
pub record IsDevice (k : Kernel) : Type 0 where
  pub header : k.State → Header
  pub seek_law : (s : k.State) → ((k.lseek s).0 ≡ true) × (header (k.lseek s).1 ≡ header s)
  pub read_law : (s : k.State) → ((k.read s).0 ≡ some (header s)) × (header (k.read s).1 ≡ header s)
  pub write_law :
      (h : Header) (s : k.State) → ((k.write h s).0 ≡ true) × (header (k.write h s).1 ≡ h)

module _ (k : Kernel) (d : IsDevice k) where
  open d use {header, seek_law, read_law, write_law}

  pub read_ok :
      (w : World k)
      → ((read_at_shift k w).0 ≡ 0)
        × ((read_at_shift k w).1.swsusp_header ≡ header w.state)
        × (header (read_at_shift k w).1.state ≡ header w.state)
  unfolding read_at_shift
  read_ok w =
      let (a, b) = seek_law w.state in
      let (c, e) = read_law (k.lseek w.state).1 in rw (a, c) (refl, b, e ∙ b)

  pub write_ok :
      (w : World k)
      → ((write_at_shift k w).0 ≡ 0) × (header (write_at_shift k w).1.state ≡ w.swsusp_header)
  unfolding write_at_shift
  write_ok w =
      let (a, b) = seek_law w.state in
      let (c, e) = write_law w.swsusp_header (k.lseek w.state).1 in rw (a, c) (refl, e)

  put_ok :
      (start : ℕ) (r : ℕ × World k) (h : Header)
      → r.0 ≡ 0
      → r.1.swsusp_header ≡ h
      → is_swap h.sig ≡ true
      → ((put_signature k start r).0 ≡ 0)
        × (header (put_signature k start r).1.state
            ≡ record { image = start; orig_sig = h.sig; sig = s1suspend })
  put_ok start (zero, w) h z e s =
      let t : is_swap w.swsusp_header.sig ≡ true = ap (λ (x : Header). is_swap x.sig) e ∙ s in
      rw t (
        rw (← e) (
          write_ok (record (w) {
            swsusp_header = record {
              image = start;
              orig_sig = w.swsusp_header.sig;
              sig = s1suspend;
            };
          })))
  put_ok start (suc n, w) h z e s = absurd (let q : suc n ≡ 0 = z in omega (arith, q))

  pub mark_swap_ok :
      (start : ℕ) (w : World k)
      → is_swap (header w.state).sig ≡ true
      → ((mark_swap k start w).0 ≡ 0)
        × (header (mark_swap k start w).1.state
            ≡ record { image = start; orig_sig = (header w.state).sig; sig = s1suspend })
  unfolding mark_swap
  mark_swap_ok start w s =
      let (z, e, f) = read_ok w in put_ok start (read_at_shift k w) (header w.state) z e s

  take_ok :
      (r : ℕ × World k) (h : Header)
      → r.0 ≡ 0
      → r.1.swsusp_header ≡ h
      → is_s1suspend h.sig ≡ true
      → ((or_halt k (take_signature k r)).0 ≡ returned 0)
        × (header (or_halt k (take_signature k r)).1.state
            ≡ record { image = h.image; orig_sig = h.orig_sig; sig = h.orig_sig })
  take_ok (zero, w) h z e s =
      let t : is_s1suspend w.swsusp_header.sig ≡ true =
        ap (λ (x : Header). is_s1suspend x.sig) e ∙ s in
      let (a, b) = write_ok (record (w) {
        swsusp_header = record {
          image = w.swsusp_header.image;
          orig_sig = w.swsusp_header.orig_sig;
          sig = w.swsusp_header.orig_sig;
        };
      }) in
      rw (t, sym e) (or_zero _ a b)
    where
      or_zero :
          (x : ℕ × World k) {g : Header}
          → x.0 ≡ 0
          → header x.1.state ≡ g
          → ((or_halt k x).0 ≡ returned 0) × (header (or_halt k x).1.state ≡ g)
      or_zero (zero, w) a b = (refl, b)
      or_zero (suc n, w) a b = absurd (let q : suc n ≡ 0 = a in omega (arith, q))
  take_ok (suc n, w) h z e s = absurd (let q : suc n ≡ 0 = z in omega (arith, q))

  pub reset_signature_ok :
      (w : World k) (h : Header)
      → header w.state ≡ h
      → is_s1suspend h.sig ≡ true
      → ((reset_signature k w).0 ≡ returned 0)
        × (header (reset_signature k w).1.state
            ≡ record { image = h.image; orig_sig = h.orig_sig; sig = h.orig_sig })
  unfolding reset_signature
  reset_signature_ok w h e s =
      let (z, f, _) = read_ok w in
      rw ((seek_law w.state).0) (take_ok (read_at_shift k w) h z (f ∙ e) s)

  -- On a device that keeps the header page, with a signature of swap, `mark_swap` succeeds and notes
  -- the image, and `reset_signature` after it returns and puts the signature back.
  pub reset_signature-mark_swap :
      (start : ℕ) (w : World k)
      → is_swap (header w.state).sig ≡ true
      → ((mark_swap k start w).0 ≡ 0)
        × ((header (mark_swap k start w).1.state).image ≡ start)
        × ((reset_signature k (mark_swap k start w).1).0 ≡ returned 0)
        × ((header (reset_signature k (mark_swap k start w).1).1.state).sig ≡ (header w.state).sig)
  reset_signature-mark_swap start w s =
      let (z, e) = mark_swap_ok start w s in
      let (r, f) =
        reset_signature_ok (mark_swap k start w).1
          (record { image = start; orig_sig = (header w.state).sig; sig = s1suspend }) e refl in
      (z, ap Header.image e, r, ap Header.sig f)
