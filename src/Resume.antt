-- ===== src/Resume.antt =====
-- resume.c: `open_resume_dev`, `read_image`, `reset_signature`, `reboot_question` and the part of
-- `main` from the opening of the resume device on. Kernel, device and log are those of Suspend;
-- `open` and the dialog with the user are calls like the ioctls.
pub mod Settled
mod Tests
use suspend.Common.{ℕ, zero, suc, ◌≡◌, Bool, true, false, List, [], ◌∷◌, ◌==◌, if◌then◌else◌}
use suspend.Suspend.{
  Call, reboot_machine, open_resume_device, ask_to_boot, restore_image, Answer, done, enotty,
  failed, Kernel, Header, is_s1suspend, Outcome, returned, halted, World, noted, ioctl, error_of,
  value_of, freeze, unfreeze, platform_prepare, read_at_shift, write_at_shift,
}

-- What `open_resume_dev` gives: a descriptor, -ENOMEDIUM where there is no image, or an error.
pub data Opened : Type 0 where
  opened no_medium : Opened
  not_opened : ℕ → Opened

-- `read_or_verify` of load.c loads the image that starts at an offset; the flag of the image header
-- says whether platform mode was used.
pub record ImageReader (k : Kernel) : Type 0 where
  pub read_or_verify : ℕ → World k → ℕ × World k
  pub platform_suspend : World k → Bool

module _ (k : Kernel) where
  abbrev pub checked : ℕ × World k → Opened × World k
  checked (zero, w) = (if is_s1suspend w.swsusp_header.sig then opened else no_medium, w)
  checked (suc e, w) = (not_opened (suc e), w)

  abbrev pub after_open : Answer × World k → Opened × World k
  after_open (done n, w) = checked (read_at_shift k w)
  after_open (enotty, w) = (not_opened (error_of enotty), w)
  after_open (failed e, w) = (not_opened (error_of (failed e)), w)

  unfoldable pub open_resume_dev : World k → Opened × World k
  open_resume_dev w = after_open (ioctl k open_resume_device w)

  -- The answer is 0 unless the user chose not to go on booting.
  unfoldable pub reboot_question : ℕ → World k → Outcome × World k
  reboot_question error w =
      let (a, w') = ioctl k ask_to_boot w in
      if value_of a == 0 then (returned error, w') else (halted, noted k reboot_machine w')

  abbrev pub after_load : ℕ × World k → Outcome × World k
  after_load (zero, w) = (returned 0, w)
  after_load (suc e, w) = reboot_question (suc e) w

  -- The signature in memory is replaced before the seek; the error is only reported.
  unfoldable pub reset_signature : World k → World k
  reset_signature w =
      let h = w.swsusp_header in
      (write_at_shift k (record (w) {
        swsusp_header = record { image = h.image; orig_sig = h.orig_sig; sig = h.orig_sig };
      })).1

  -- `atomic_restore` returns only if it fails.
  unfoldable pub restore : Bool → World k → Outcome × World k
  restore platform w =
      let w' = if platform then (platform_prepare k w).1 else w in
      (returned 0, unfreeze k (ioctl k restore_image w').1)

  -- The end of an attempt with an error: the image is given up, unless the user reboots.
  abbrev pub given_up : Outcome × World k → Outcome × World k
  given_up (returned e, w) = (returned e, reset_signature w)
  given_up (halted, w) = (halted, w)

  abbrev pub after_freeze : Bool → ℕ × World k → Outcome × World k
  after_freeze platform (zero, w) = restore platform (reset_signature w)
  after_freeze platform (suc e, w) = given_up (reboot_question (suc e) w)

  abbrev pub after_read : Bool → Outcome × World k → Outcome × World k
  after_read platform (returned zero, w) = after_freeze platform (freeze k w)
  after_read platform (returned (suc e), w) = given_up (returned (suc e), w)
  after_read platform (halted, w) = (halted, w)

  module _ (i : ImageReader k) where
    unfoldable pub read_image : ℕ → World k → Outcome × World k
    read_image start w = after_load (i.read_or_verify start w)

    abbrev pub resume_from : Opened × World k → Outcome × World k
    resume_from (opened, w) =
        let start = w.swsusp_header.image in
        after_read (i.platform_suspend (i.read_or_verify start w).1) (read_image start w)
    resume_from (no_medium, w) = (returned 0, w)
    resume_from (not_opened e, w) = (returned e, w)

    unfoldable pub resume : World k → Outcome × World k
    resume w = resume_from (open_resume_dev w)
