-- ===== src/Suspend/Safety.antt =====
-- The order of the calls of `suspend_system` of suspend.c: image and header first, then the signature,
-- and only then the machine is powered off.
use suspend.Common.{
  ℕ, zero, suc, ◌≡◌, refl, inl, inr, Bool, true, Bool-cases, ◌∷◌, ◌==◌, arith, sym, subst,
  Option-cases,
}
use suspend.Suspend.{
  Call, Answer, done, enotty, failed, Kernel, is_s1suspend, is_swap, Method, shutdown, platform,
  reboot, Outcome, returned, halted, World, ioctl, ioctl_or, check_free_swap, set_image_size,
  atomic_snapshot, freeze, free_swap_pages, free_snapshot, avail_swap_size, avail_swap,
  pref_image_size, set_size, create_image, atomic_image, platform_support, pmops_prepare,
  power_off_platform, pmops_enter, read_at_shift, write_at_shift, put_signature, take_signature,
  or_halt, mark_swap, reset_signature, enospc_code, s2ram_enter,
}
use suspend.Suspend.System.{
  ImageWriter, run, enough_swap, then_do, store_image, write_image, leave, after_reset, slept,
  image_stored, image_written, snapshot_made, size_set, rounds, run_test, frozen, suspend_system,
  suspend_shutdown, shut_by, prepare_by, prepared,
}
use suspend.Suspend.Stored.{then_do-Holds, store_image-Holds}
use suspend.Suspend.Log.{marked, IsSafe, ioctl_or-log}

module _ (k : Kernel) where
  -- The log is safe, and says that the signature is on disk if there was no error.
  abbrev pub IsMarked : ℕ × World k → Type 0
  IsMarked (e, w) = IsSafe w.log × (e ≡ 0 → marked w.log ≡ true)

  read_at_shift-log : (w : World k) → IsSafe w.log → IsSafe (read_at_shift k w).1.log
  unfolding read_at_shift
  read_at_shift-log w h = elim (Bool-cases (k.lseek w.state).0) [
    | inl t ↦ elim (Option-cases (k.read (k.lseek w.state).1).0) [
      | inl u ↦ rw (t, u) h
      | inr (x, u) ↦ rw (t, u) h
    ]
    | inr t ↦ rw t h
  ]

  write_at_shift-log :
      (w : World k)
      → IsSafe w.log
      → is_s1suspend w.swsusp_header.sig ≡ true
      → IsMarked (write_at_shift k w)
  unfolding write_at_shift
  write_at_shift-log w h s = elim (Bool-cases (k.lseek w.state).0) [
    | inl t ↦ elim (Bool-cases (k.write w.swsusp_header (k.lseek w.state).1).0) [
      | inl u ↦ rw (t, u) (h, λ e. s)
      | inr u ↦ rw (t, u) (h, λ e. absurd (omega (arith, e)))
    ]
    | inr t ↦ rw t (h, λ e. absurd (omega (arith, e)))
  ]

  write_at_shift-IsSafe : (w : World k) → IsSafe w.log → IsSafe (write_at_shift k w).1.log
  unfolding write_at_shift
  write_at_shift-IsSafe w h = ground arith

  put_signature-IsMarked :
      (start : ℕ) (r : ℕ × World k) → IsSafe r.1.log → IsMarked (put_signature k start r)
  put_signature-IsMarked start (zero, w) h = elim (Bool-cases (is_swap w.swsusp_header.sig)) [
    | inl t ↦ rw t (write_at_shift-log _ h refl)
    | inr t ↦ rw t (h, λ e. absurd (omega (arith, e)))
  ]
  put_signature-IsMarked start (suc e, w) h = (h, λ q. absurd (omega (arith, q)))

  pub mark_swap-IsMarked : (start : ℕ) (w : World k) → IsSafe w.log → IsMarked (mark_swap k start w)
  unfolding mark_swap
  mark_swap-IsMarked start w h =
      put_signature-IsMarked start (read_at_shift k w) (read_at_shift-log w h)

  take_signature-IsSafe : (r : ℕ × World k) → IsSafe r.1.log → IsSafe (take_signature k r).1.log
  take_signature-IsSafe (zero, w) h = elim (Bool-cases (is_s1suspend w.swsusp_header.sig)) [
    | inl t ↦ rw t (write_at_shift-IsSafe _ h)
    | inr t ↦ rw t h
  ]
  take_signature-IsSafe (suc e, w) h = h

  or_halt-IsSafe : (r : ℕ × World k) → IsSafe r.1.log → IsSafe (or_halt k r).1.log
  or_halt-IsSafe (zero, w) h = h
  or_halt-IsSafe (suc e, w) h = h

  reset_signature-IsSafe : (w : World k) → IsSafe w.log → IsSafe (reset_signature k w).1.log
  unfolding reset_signature
  reset_signature-IsSafe w h = elim (Bool-cases (k.lseek w.state).0) [
    | inl t ↦ rw t (
        or_halt-IsSafe (take_signature k (read_at_shift k w))
          (take_signature-IsSafe (read_at_shift k w) (read_at_shift-log w h)))
    | inr t ↦ rw t (read_at_shift-log w h)
  ]

  or-IsSafe :
      (c d : Call) (w : World k)
      → IsSafe (c ∷ w.log)
      → IsSafe (d ∷ c ∷ w.log)
      → IsSafe (ioctl_or k c d w).1.log
  or-IsSafe c d w h g = elim (ioctl_or-log k c d w) [
    | inl e ↦ subst IsSafe (sym e) h
    | inr e ↦ subst IsSafe (sym e) g
  ]

  shut_by-IsSafe :
      (m : Method) (w : World k) → IsSafe w.log → marked w.log ≡ true → IsSafe (shut_by k m w).log
  shut_by-IsSafe reboot w h s = (s, (s, h))
  shut_by-IsSafe shutdown w h s = (s, h)
  shut_by-IsSafe platform w h s =
      (still, or-IsSafe power_off_platform pmops_enter w (s, h) (s, (s, h)))
    where
      still : marked (ioctl_or k power_off_platform pmops_enter w).1.log ≡ true
      still = elim (ioctl_or-log k power_off_platform pmops_enter w) [
        | inl e ↦ rw e s
        | inr e ↦ rw e s
      ]

  prepare_by-IsSafe : (m : Method) (w : World k) → IsSafe w.log → IsSafe (prepare_by k m w).log
  prepare_by-IsSafe platform w h =
      let g = or-IsSafe platform_support pmops_prepare w h h in ground arith
  prepare_by-IsSafe _ w h = h

  leave-IsSafe : (e : ℕ) (w : World k) → IsSafe w.log → IsSafe (leave k e w).1.log
  unfolding ioctl
  leave-IsSafe e w h = h

  freed-IsSafe : (w : World k) → IsSafe w.log → IsSafe (free_snapshot k (free_swap_pages k w)).log
  unfolding ioctl
  freed-IsSafe w h = h

  then_do-IsMarked :
      (r : ℕ × World k) (start : ℕ) → IsSafe r.1.log → IsMarked (then_do k r (mark_swap k start))
  then_do-IsMarked (zero, w) start h = mark_swap-IsMarked start w h
  then_do-IsMarked (suc e, w) start h = (h, λ q. absurd (omega (arith, q)))

  module _ (i : ImageWriter k) where
    abbrev Safe : World k → Type 0
    Safe w = IsSafe w.log

    enough_swap-IsSafe : (w : World k) → IsSafe w.log → IsSafe (enough_swap k i w).1.log
    unfolding enough_swap
    enough_swap-IsSafe w h = or-IsSafe avail_swap_size avail_swap w h h

    write_image-IsMarked :
        (check : Bool) (w : World k) → IsSafe w.log → IsMarked (write_image k i check w)
    unfolding write_image
    write_image-IsMarked check w h = elim (Bool-cases ((run k i.get_swap_page w).0 == 0)) [
      | inl t ↦ rw t (h, λ e. absurd (omega (arith, e)))
      | inr t ↦ elim (Bool-cases check) [
        | inl u ↦
            rw (t, u)
              (then_do-IsMarked (then_do k stored (run k (i.read_or_verify start))) start
                (then_do-Holds k Safe stored (run k (i.read_or_verify start)) same (λ x g. g)))
        | inr u ↦ rw (t, u) (then_do-IsMarked stored start same)
      ]
    ]
      where
        start : ℕ
        start = (run k i.get_swap_page w).0

        stored : ℕ × World k
        stored = store_image k i start (run k i.get_swap_page w).1

        same : IsSafe stored.1.log
        same =
            store_image-Holds k Safe i (λ x g. g) (λ x g. g) (λ x g. g) (λ x g. g) (λ x g. g)
              (λ start x g. g) enough_swap-IsSafe start (run k i.get_swap_page w).1 h

  after_reset-IsSafe :
      (e : ℕ) (f : World k → World k) (r : Outcome × World k)
      → IsSafe r.1.log
      → ((w : World k) → IsSafe w.log → IsSafe (f w).log)
      → IsSafe (after_reset k e f r).1.log
  after_reset-IsSafe e f (returned x, w) h g = leave-IsSafe e (f w) (g w h)
  after_reset-IsSafe e f (halted, w) h g = h

  slept-IsSafe :
      (r : Answer × World k) → IsSafe r.1.log → marked r.1.log ≡ true → IsSafe (slept k r).1.log
  unfolding suspend_shutdown
  slept-IsSafe (done n, w) h m =
      after_reset-IsSafe 0 (λ x. free_snapshot k (free_swap_pages k x)) (reset_signature k w)
        (reset_signature-IsSafe w h) freed-IsSafe
  slept-IsSafe (enotty, w) h m = shut_by-IsSafe w.shutdown_method w h m
  slept-IsSafe (failed e, w) h m = shut_by-IsSafe w.shutdown_method w h m

  module _ (i : ImageWriter k) (verify s2ram : Bool) where
    image_stored-IsSafe :
        (w : World k)
        → IsSafe w.log
        → marked w.log ≡ true
        → IsSafe (image_stored k i verify s2ram w).1.log
    unfolding image_stored suspend_shutdown ioctl
    image_stored-IsSafe w h m = elim (Bool-cases s2ram) [
      | inl t ↦ rw t (slept-IsSafe (ioctl k s2ram_enter w) h m)
      | inr t ↦ rw t (shut_by-IsSafe w.shutdown_method w h m)
    ]

    -- What every run from a safe log keeps.
    abbrev Keeps : (World k → Outcome × World k) → Type 0
    Keeps f = (w : World k) → IsSafe w.log → IsSafe (f w).1.log

    image_written-IsSafe :
        (again : World k → Outcome × World k) (r : ℕ × World k)
        → Keeps again
        → IsMarked r
        → IsSafe (image_written k i verify s2ram again r).1.log
    image_written-IsSafe again (zero, w) g (h, m) = image_stored-IsSafe w h (m refl)
    image_written-IsSafe again (suc e, w) g (h, m) = elim (Bool-cases (suc e == enospc_code)) [
      | inl t ↦ rw t (g _ (freed-IsSafe w h))
      | inr t ↦ rw t (leave-IsSafe (suc e) _ (freed-IsSafe w h))
    ]

    snapshot_made-IsSafe :
        (again : World k → Outcome × World k) (error : ℕ) (r : Answer × World k)
        → Keeps again
        → IsSafe r.1.log
        → IsSafe (snapshot_made k i verify s2ram again error r).1.log
    unfolding ioctl
    snapshot_made-IsSafe again error (done zero, w) g h = h
    snapshot_made-IsSafe again error (done (suc n), w) g h =
        image_written-IsSafe again (write_image k i verify w) g (write_image-IsMarked i verify w h)
    snapshot_made-IsSafe again error (enotty, w) g h = h
    snapshot_made-IsSafe again error (failed e, w) g h = h

    size_set-IsSafe :
        (again : World k → Outcome × World k) (error : ℕ) (r : ℕ × World k)
        → Keeps again
        → IsSafe r.1.log
        → IsSafe (size_set k i verify s2ram again error r).1.log
    unfolding ioctl
    size_set-IsSafe again error (zero, w) g h =
        snapshot_made-IsSafe again error (atomic_snapshot k w) g
          (or-IsSafe create_image atomic_image w h h)
    size_set-IsSafe again error (suc e, w) g h = h

    rounds-IsSafe : (n error size : ℕ) → Keeps (rounds k i verify s2ram n error size)
    unfolding rounds
    rounds-IsSafe zero error size w h = leave-IsSafe error w h
    rounds-IsSafe (suc n) error size w h =
        size_set-IsSafe (rounds k i verify s2ram n enospc_code 0) error (set_image_size k size w)
          (rounds-IsSafe n enospc_code 0) (or-IsSafe (pref_image_size size) (set_size size) w h h)

    frozen-IsSafe :
        (test : Bool) (size : ℕ) (r : ℕ × World k)
        → IsSafe r.1.log
        → IsSafe (frozen k i verify s2ram test size r).1.log
    unfolding run_test prepared ioctl
    frozen-IsSafe test size (zero, w) h = elim (Bool-cases test) [
      | inl t ↦ rw t (
          after_reset-IsSafe (write_image k i true w).0 (free_swap_pages k)
            (reset_signature k (write_image k i true w).1)
            (reset_signature-IsSafe (write_image k i true w).1 (write_image-IsMarked i true w h).0)
            (λ x g. g))
      | inr t ↦
          rw t (rounds-IsSafe 2 0 size (prepared k w) (prepare_by-IsSafe w.shutdown_method w h))
    ]
    frozen-IsSafe test size (suc e, w) h = leave-IsSafe (suc e) w h

    -- On every path of `suspend_system`, whatever the kernel and the device answer, a call that
    -- powers off or restarts the machine is made only when the last write of the header page
    -- succeeded and has put the signature there.
    pub suspend_system-IsSafe :
        (test : Bool) (pref : ℕ) (w : World k)
        → IsSafe w.log
        → IsSafe (suspend_system k i verify s2ram test pref w).1.log
    unfolding suspend_system ioctl
    suspend_system-IsSafe test pref w h =
        let x = check_free_swap k w in
        let g : IsSafe x.1.log = or-IsSafe avail_swap_size avail_swap w h h in
        elim (Bool-cases (x.0 == 0)) [
          | inl t ↦ rw t g
          | inr t ↦ rw t (frozen-IsSafe test _ (freeze k x.1) g)
        ]
