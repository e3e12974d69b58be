-- ===== src/Suspend/System.antt =====
-- `write_image`, `enough_swap`, `suspend_shutdown` and `suspend_system` of suspend.c.
-- The other steps of `write_image` are an interface. They have the kernel's state and not the log, as
-- they make none of the calls in `Call`: they read the snapshot, ask for pages of swap, and write
-- pages other than the header page. `State` holds `struct swap_writer` as well.
use suspend.Common.{ℕ, zero, suc, Bool, true, ltb, ◌/◌, ◌==◌, if◌then◌else◌}
use suspend.Suspend.{
  s2ram_enter, reboot_machine, power_off_machine, Answer, done, enotty, failed, Kernel, Method,
  shutdown, platform, reboot, Outcome, returned, halted, World, noted, ioctl, error_of,
  check_free_swap, set_image_size, atomic_snapshot, platform_enter, platform_prepare, freeze,
  unfreeze, free_swap_pages, free_snapshot, mark_swap, reset_signature, enospc_code,
}

-- `get_swap_page` and `preallocate_swap` give 0 for failure, the others for success. `swap_needed` is
-- what `write_image` has computed for the image at the time. `save_image` also tells whether the user
-- has asked for a reboot.
pub record ImageWriter (k : Kernel) : Type 0 where
  pub get_swap_page : k.State → ℕ × k.State
  pub init_swap_writer : k.State → ℕ × k.State
  pub count_pages : k.State → ℕ × k.State
  pub do_compress : Bool
  pub swap_needed : k.State → ℕ
  pub preallocate_swap : k.State → ℕ × k.State
  pub set_cipher : k.State → ℕ × k.State
  pub save_image : k.State → ℕ × Bool × k.State
  pub write_page : ℕ → k.State → ℕ × k.State
  pub read_or_verify : ℕ → k.State → ℕ × k.State

module _ (k : Kernel) where
  abbrev pub run : (k.State → ℕ × k.State) → World k → ℕ × World k
  run f w = let (e, s) = f w.state in (e, record w { state = s })

  -- The next step is taken only after one that went well.
  abbrev pub then_do : ℕ × World k → (World k → ℕ × World k) → ℕ × World k
  then_do (zero, w) f = f w
  then_do (suc e, w) f = (suc e, w)

  abbrev pub or_enospc : ℕ × World k → ℕ × World k
  or_enospc (zero, w) = (enospc_code, w)
  or_enospc (suc n, w) = (0, w)

  module _ (i : ImageWriter k) where
    open i use {
      get_swap_page, init_swap_writer, count_pages, do_compress, swap_needed, preallocate_swap,
      set_cipher, save_image, write_page, read_or_verify,
    }

    -- A key pressed during `save_image` sets the shutdown method.
    abbrev pub run_save_image : World k → ℕ × World k
    run_save_image w =
        let (e, asked, s) = save_image w.state in
        (e, record w { state = s; shutdown_method = if asked then reboot else w.shutdown_method })

    -- 0 stands for FALSE. A compressed image is taken to need half the space.
    unfoldable pub enough_swap : World k → ℕ × World k
    enough_swap w =
        let (free, w') = check_free_swap k w in
        let needed = swap_needed w.state in
        let size = if do_compress then needed / 2 else needed in
        (if ltb size free then 1 else 0, w')

    -- Up to the header, which is written after the image.
    unfoldable pub store_image : ℕ → World k → ℕ × World k
    store_image start w =
        let ready = then_do (run init_swap_writer w) (run count_pages) in
        let enough = then_do ready (λ x. or_enospc (enough_swap x)) in
        let allocated = then_do enough (λ x. or_enospc (run preallocate_swap x)) in
        let saved = then_do (then_do allocated (run set_cipher)) run_save_image in
        then_do saved (run (write_page start))

    -- `check` stands for `verify_image || test_mode`.
    unfoldable pub write_image : Bool → World k → ℕ × World k
    write_image check w =
        let start = (run get_swap_page w).0 in
        let stored = store_image start (run get_swap_page w).1 in
        let verified = if check then then_do stored (run (read_or_verify start)) else stored in
        if start == 0
        then (enospc_code, (run get_swap_page w).1)
        else then_do verified (mark_swap k start)

  abbrev pub shut_by : Method → World k → World k
  shut_by reboot w = noted k power_off_machine (noted k reboot_machine w)
  shut_by platform w = noted k power_off_machine (platform_enter k w)
  shut_by shutdown w = noted k power_off_machine w

  -- It never returns.
  unfoldable pub suspend_shutdown : World k → World k
  suspend_shutdown w = shut_by w.shutdown_method w

  -- The label Unfreeze.
  abbrev pub leave : ℕ → World k → Outcome × World k
  leave error w = (returned error, unfreeze k w)

  abbrev pub prepare_by : Method → World k → World k
  prepare_by platform w =
      let (e, w') = platform_prepare k w in
      if e == 0 then w' else record (w') { shutdown_method = shutdown }
  prepare_by _ w = w

  -- Whether platform mode can be used is asked once.
  unfoldable pub prepared : World k → World k
  prepared w = prepare_by w.shutdown_method w

  -- The error of `reset_signature` is not looked at.
  abbrev pub after_reset : ℕ → (World k → World k) → Outcome × World k → Outcome × World k
  after_reset error f (returned e, w) = leave error (f w)
  after_reset error f (halted, w) = (halted, w)

  -- With `s2ram` the machine sleeps, and the image is dropped if it wakes up from that.
  abbrev pub slept : Answer × World k → Outcome × World k
  slept (done n, w) =
      after_reset 0 (λ x. free_snapshot k (free_swap_pages k x)) (reset_signature k w)
  slept (enotty, w) = (halted, suspend_shutdown w)
  slept (failed e, w) = (halted, suspend_shutdown w)

  module _ (i : ImageWriter k) (verify s2ram : Bool) where
    unfoldable pub image_stored : World k → Outcome × World k
    image_stored w = if s2ram then slept (ioctl k s2ram_enter w) else (halted, suspend_shutdown w)

    -- Only for want of space another round follows, with the smallest image.
    abbrev pub image_written : (World k → Outcome × World k) → ℕ × World k → Outcome × World k
    image_written again (zero, w) = image_stored w
    image_written again (suc e, w) =
        let w' = free_snapshot k (free_swap_pages k w) in
        if suc e == enospc_code then again w' else leave (suc e) w'

    -- The kernel returns a second time from the snapshot, with 0, when the image is resumed.
    abbrev pub snapshot_made :
        (World k → Outcome × World k) → ℕ → Answer × World k → Outcome × World k
    snapshot_made again error (done zero, w) = leave error (free_snapshot k w)
    snapshot_made again error (done (suc n), w) = image_written again (write_image i verify w)
    snapshot_made again error (enotty, w) = leave (error_of enotty) w
    snapshot_made again error (failed e, w) = leave (error_of (failed e)) w

    abbrev pub size_set : (World k → Outcome × World k) → ℕ → ℕ × World k → Outcome × World k
    size_set again error (zero, w) = snapshot_made again error (atomic_snapshot k w)
    size_set again error (suc e, w) = leave (suc e) w

    -- The `do` loop over `attempts`, with the value that `error` has on entry.
    unfoldable pub rounds : ℕ → ℕ → ℕ → World k → Outcome × World k
    rounds zero error size w = leave error w
    rounds (suc n) error size w = size_set (rounds n enospc_code 0) error (set_image_size k size w)

    unfoldable pub run_test : World k → Outcome × World k
    run_test w =
        let (e, w') = write_image i true w in
        after_reset e (free_swap_pages k) (reset_signature k w')

    abbrev pub frozen : Bool → ℕ → ℕ × World k → Outcome × World k
    frozen test size (zero, w) = if test then run_test w else rounds 2 0 size (prepared w)
    frozen test size (suc e, w) = leave (suc e) w

    unfoldable pub suspend_system : Bool → ℕ → World k → Outcome × World k
    suspend_system test pref_image_size w =
        let avail = (check_free_swap k w).0 in
        let size = if ltb pref_image_size avail then pref_image_size else avail in
        if avail == 0
        then (returned enospc_code, (check_free_swap k w).1)
        else frozen test size (freeze k (check_free_swap k w).1)
