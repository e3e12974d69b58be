-- ===== src/Suspend/Log.antt =====
-- What the log of calls says of the signature on disk and of the ways to power off.
use suspend.Common.{◌≡◌, refl, ◌⊎◌, inl, inr, Bool, true, false, List, [], ◌∷◌}
use suspend.Suspend.{
  is_s1suspend, write_header, write_header_failed, power_off_platform, pmops_enter, reboot_machine,
  power_off_machine, Call, Answer, done, enotty, failed, Kernel, World, ioctl, ioctl_or, second_try,
}

-- The signature that the last write of the header page has put on disk, if it succeeded.
abbrev pub marked : List Call → Bool
marked [] = false
marked (write_header h ∷ l) = is_s1suspend h.sig
marked (write_header_failed ∷ l) = false
marked (c ∷ l) = marked l

-- Every call that powers off or restarts the machine is made with the signature on disk.
abbrev pub IsSafe : List Call → Type 0
IsSafe [] = Unit
IsSafe (power_off_platform ∷ l) = (marked l ≡ true) × IsSafe l
IsSafe (pmops_enter ∷ l) = (marked l ≡ true) × IsSafe l
IsSafe (reboot_machine ∷ l) = (marked l ≡ true) × IsSafe l
IsSafe (power_off_machine ∷ l) = (marked l ≡ true) × IsSafe l
IsSafe (c ∷ l) = IsSafe l

module _ (k : Kernel) where
  second_try-log :
      (c : Call) (r : Answer × World k)
      → ((second_try k c r).1.log ≡ r.1.log) ⊎ ((second_try k c r).1.log ≡ c ∷ r.1.log)
  unfolding ioctl
  second_try-log c (done n, w) = inl refl
  second_try-log c (enotty, w) = inr refl
  second_try-log c (failed e, w) = inl refl

  -- One call or two are made.
  pub ioctl_or-log :
      (c d : Call) (w : World k)
      → ((ioctl_or k c d w).1.log ≡ c ∷ w.log) ⊎ ((ioctl_or k c d w).1.log ≡ d ∷ c ∷ w.log)
  unfolding ioctl_or ioctl
  ioctl_or-log c d w = second_try-log d (ioctl k c w)
