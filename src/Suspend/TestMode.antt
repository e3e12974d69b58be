-- ===== src/Suspend/TestMode.antt =====
-- s2disk in test mode: `write_image` and `reset_signature` as `suspend_system` of suspend.c calls them
-- there.
use suspend.Common.{
  ℕ, zero, suc, ◌≡◌, ◌≢◌, refl, inl, inr, Bool, true, false, Bool-cases, ◌==◌, ◌∙◌, ap, arith,
}
use suspend.Suspend.{
  Call, Answer, done, enotty, failed, Kernel, s1suspend, is_s1suspend, is_swap, Header, Outcome,
  returned, halted, World, ioctl, ioctl_or, second_try, avail_swap_size, avail_swap,
  free_swap_pages, read_at_shift, put_signature, take_signature, or_halt, mark_swap,
  reset_signature,
}
use suspend.Suspend.System.{
  ImageWriter, run, then_do, enough_swap, store_image, write_image, after_reset, run_test,
}
use suspend.Suspend.Stored.{then_do-Holds, store_image-Holds}
use suspend.Suspend.SignatureTrip.{IsDevice, read_ok, mark_swap_ok, reset_signature_ok}

-- Only `mark_swap` and `reset_signature` write the header page.
pub record LeavesHeader (k : Kernel) (d : IsDevice k) (i : ImageWriter k) : Type 0 where
  pub ioctl_law : (c : Call) (s : k.State) → d.header (k.ioctl c s).1 ≡ d.header s
  pub get_law : (s : k.State) → d.header (i.get_swap_page s).1 ≡ d.header s
  pub init_law : (s : k.State) → d.header (i.init_swap_writer s).1 ≡ d.header s
  pub count_law : (s : k.State) → d.header (i.count_pages s).1 ≡ d.header s
  pub preallocate_law : (s : k.State) → d.header (i.preallocate_swap s).1 ≡ d.header s
  pub cipher_law : (s : k.State) → d.header (i.set_cipher s).1 ≡ d.header s
  pub save_law : (s : k.State) → d.header (i.save_image s).2 ≡ d.header s
  pub write_law : (n : ℕ) (s : k.State) → d.header (i.write_page n s).1 ≡ d.header s
  pub verify_law : (n : ℕ) (s : k.State) → d.header (i.read_or_verify n s).1 ≡ d.header s

module _ (k : Kernel) (d : IsDevice k) (i : ImageWriter k) (l : LeavesHeader k d i)
    (h : Header) where
  open d use {header}

  -- After `write_image` without an error the header page names an image; after one with an error
  -- the page is what it was.
  abbrev IsWritten : ℕ × World k → Type 0
  IsWritten (zero, w) =
      (start : ℕ) × (header w.state ≡ record { image = start; orig_sig = h.sig; sig = s1suspend })
  IsWritten (suc e, w) = header w.state ≡ h

  mark_swap-IsWritten :
      (start : ℕ) (w : World k) → header w.state ≡ h → IsWritten (mark_swap k start w)
  unfolding mark_swap
  mark_swap-IsWritten start w e = elim (Bool-cases (is_swap (header w.state).sig)) [
    | inl t ↦
        let (z, g) = mark_swap_ok k d start w t in
        noted (mark_swap k start w) z
          (g ∙ ap (λ (x : Header). record { image = start; orig_sig = x.sig; sig = s1suspend }) e)
    | inr t ↦
        let (z, a, b) = read_ok k d w in
        refused (read_at_shift k w) (ap (λ (x : Header). is_swap x.sig) a ∙ t) (b ∙ e)
  ]
    where
      noted :
          (r : ℕ × World k)
          → r.0 ≡ 0
          → header r.1.state ≡ record { image = start; orig_sig = h.sig; sig = s1suspend }
          → IsWritten r
      noted (zero, w) z g = (start, g)
      noted (suc n, w) z g = absurd (let q : suc n ≡ 0 = z in omega (arith, q))

      refused :
          (r : ℕ × World k)
          → is_swap r.1.swsusp_header.sig ≡ false
          → header r.1.state ≡ h
          → IsWritten (put_signature k start r)
      refused (zero, w) f g = rw f g
      refused (suc n, w) f g = g

  then_mark-IsWritten :
      (start : ℕ) (r : ℕ × World k)
      → header r.1.state ≡ h
      → IsWritten (then_do k r (mark_swap k start))
  then_mark-IsWritten start (zero, w) e = mark_swap-IsWritten start w e
  then_mark-IsWritten start (suc n, w) e = e

  abbrev Same : World k → Type 0
  Same w = header w.state ≡ h

  ioctl-Same : (c : Call) (w : World k) → Same w → Same (ioctl k c w).1
  unfolding ioctl
  ioctl-Same c w e = l.ioctl_law c w.state ∙ e

  second_try-Same : (c : Call) (r : Answer × World k) → Same r.1 → Same (second_try k c r).1
  second_try-Same c (done n, w) e = e
  second_try-Same c (enotty, w) e = ioctl-Same c w e
  second_try-Same c (failed n, w) e = e

  enough_swap-Same : (w : World k) → Same w → Same (enough_swap k i w).1
  unfolding enough_swap ioctl_or
  enough_swap-Same w e =
      second_try-Same avail_swap (ioctl k avail_swap_size w) (ioctl-Same avail_swap_size w e)

  write_image-IsWritten : (w : World k) → Same w → IsWritten (write_image k i true w)
  unfolding write_image
  write_image-IsWritten w e = elim (Bool-cases ((run k i.get_swap_page w).0 == 0)) [
    | inl t ↦ rw t (l.get_law w.state ∙ e)
    | inr t ↦
        let start = (run k i.get_swap_page w).0 in
        let stored = store_image k i start (run k i.get_swap_page w).1 in
        let kept : Same stored.1 =
          store_image-Holds k Same i (λ x g. l.init_law x.state ∙ g)
            (λ x g. l.count_law x.state ∙ g) (λ x g. l.preallocate_law x.state ∙ g)
            (λ x g. l.cipher_law x.state ∙ g) (λ x g. l.save_law x.state ∙ g)
            (λ n x g. l.write_law n x.state ∙ g) enough_swap-Same start (run k i.get_swap_page w).1
            (l.get_law w.state ∙ e) in
        rw t (
          then_mark-IsWritten start (then_do k stored (run k (i.read_or_verify start))) (
            then_do-Holds k Same stored (run k (i.read_or_verify start)) kept
              (λ x g. l.verify_law start x.state ∙ g)))
  ]

  -- What a run in test mode leaves, where `write_image` gives `written`.
  pub record IsTested (written : ℕ) (r : Outcome × World k) : Type 0 where
    pub tested : written ≡ 0 → (r.0 ≡ returned 0) × ((header r.1.state).sig ≡ h.sig)
    pub stuck : written ≢ 0 → (r.0 ≡ halted) × (header r.1.state ≡ h)

  after_test-IsTested :
      (r : ℕ × World k)
      → IsWritten r
      → is_s1suspend h.sig ≡ false
      → IsTested r.0 (after_reset k r.0 (free_swap_pages k) (reset_signature k r.1))
  unfolding reset_signature ioctl
  after_test-IsTested (zero, w) (start, e) f =
      let (a, b) =
        reset_signature_ok k d w (record { image = start; orig_sig = h.sig; sig = s1suspend }) e
          refl in
      record {
        tested = λ _. back (reset_signature k w) a (ap (λ (x : Header). x.sig) b);
        stuck = λ q. absurd (q refl);
      }
    where
      back :
          (r : Outcome × World k)
          → r.0 ≡ returned 0
          → (header r.1.state).sig ≡ h.sig
          → ((after_reset k 0 (free_swap_pages k) r).0 ≡ returned 0)
            × ((header (after_reset k 0 (free_swap_pages k) r).1.state).sig ≡ h.sig)
      back (returned n, w) a b =
          (refl, ap (λ (x : Header). x.sig) (l.ioctl_law _ _ ∙ l.ioctl_law _ _) ∙ b)
      back (halted, w) a b = absurd (cc)
  after_test-IsTested (suc n, w) e f =
      let (_, a, b) = read_ok k d w in
      record {
        tested = λ q. absurd (omega (arith, q));
        stuck = λ _. rw ((d.seek_law w.state).0) (
            sleeps (read_at_shift k w) (ap (λ (x : Header). is_s1suspend x.sig) (a ∙ e) ∙ f)
              (b ∙ e));
      }
    where
      sleeps :
          (r : ℕ × World k)
          → is_s1suspend r.1.swsusp_header.sig ≡ false
          → header r.1.state ≡ h
          → ((after_reset k (suc n) (free_swap_pages k) (or_halt k (take_signature k r))).0
              ≡ halted)
            × (header
                  (after_reset k
                    (suc n)
                    (free_swap_pages k)
                    (or_halt k (take_signature k r))).1.state
                ≡ h)
      sleeps (zero, w) f g = rw f (refl, g)
      sleeps (suc m, w) f g = (refl, g)

module _ (k : Kernel) (d : IsDevice k) (i : ImageWriter k) (l : LeavesHeader k d i) where
  -- A run in test mode, on a device that keeps its header page without the signature of an image, where
  -- only `mark_swap` and `reset_signature` write that page: if `write_image` succeeds, the run
  -- returns 0 with the signature from before back on the page; if `write_image` fails at whatever
  -- step, the page is as it was and the run never returns, as `reset_signature` sleeps for ever.
  pub run_test-IsTested :
      (verify s2ram : Bool) (w : World k)
      → is_s1suspend (d.header w.state).sig ≡ false
      → IsTested k d i l (d.header w.state) (write_image k i true w).0 (run_test k i verify s2ram w)
  unfolding run_test
  run_test-IsTested verify s2ram w f =
      after_test-IsTested k d i l (d.header w.state) (write_image k i true w)
        (write_image-IsWritten k d i l (d.header w.state) w refl) f
