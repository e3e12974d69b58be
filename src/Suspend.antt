-- ===== src/Suspend.antt =====
-- The outer flow of s2disk: the calls of suspend.c and swsusp.h into the kernel, `mark_swap`,
-- `reset_signature`, `suspend_shutdown` and `suspend_system`.
-- The kernel and the header page of the resume device are parameters, over a state of their own; the
-- calls made are logged, the latest first.
pub mod System
pub mod Log
pub mod Stored
pub mod TestMode
pub mod Safety
pub mod Release
pub mod SignatureTrip
mod Tests
use suspend.Common.{
  ℕ, zero, suc, Bool, true, false, ◌||◌, List, [], ◌∷◌, ltb, ◌==◌, if◌then◌else◌, Option, none,
  some,
}

-- The ten bytes of a signature of swap.
pub data Signature : Type 0 where
  swap_space swapspace2 s1suspend other : Signature

-- struct swsusp_header
pub record Header : Type 0 where
  pub image : ℕ
  pub orig_sig : Signature
  pub sig : Signature

-- Calls into the kernel. `write_header` is a write of the header page that succeeded.
pub data Call : Type 0 where
  avail_swap_size avail_swap freeze_processes unfreeze_processes : Call
  pref_image_size set_size : ℕ → Call
  create_image atomic_image free_image free_swap s2ram_enter pmops_prepare pmops_enter : Call
  power_off_platform platform_support reboot_machine power_off_machine lseek_header read_header :
      Call
  write_header : Header → Call
  write_header_failed open_resume_device ask_to_boot restore_image : Call

-- `done` carries the value that the kernel stores; the other two are errors.
pub data Answer : Type 0 where
  done : ℕ → Answer
  enotty : Answer
  failed : ℕ → Answer

pub record Kernel : Type 1 where
  pub State : Type 0
  pub ioctl : Call → State → Answer × State
  pub lseek : State → Bool × State
  pub read : State → Option Header × State
  pub write : Header → State → Bool × State

pub data Method : Type 0 where
  shutdown platform reboot : Method

-- A return value, or a loop of `sleep` that never ends.
pub data Outcome : Type 0 where
  returned : ℕ → Outcome
  halted : Outcome

abbrev pub is_s1suspend : Signature → Bool
is_s1suspend s1suspend = true
is_s1suspend _ = false

abbrev pub is_swap : Signature → Bool
is_swap swap_space = true
is_swap swapspace2 = true
is_swap _ = false

-- errno of ENOSPC, EIO, EINVAL and ENODEV on Linux.
abbrev pub enospc_code : ℕ
enospc_code = 28

abbrev pub eio_code : ℕ
eio_code = 5

abbrev pub einval_code : ℕ
einval_code = 22

abbrev pub enodev_code : ℕ
enodev_code = 19

abbrev pub enotty_code : ℕ
enotty_code = 25

-- `errno`, or 0 for a call that succeeded.
abbrev pub error_of : Answer → ℕ
error_of (done n) = 0
error_of enotty = enotty_code
error_of (failed e) = suc e

-- The int -1, in 32 bits, and what `ioctl` itself returns.
abbrev pub minus_one : ℕ
minus_one = 4294967295

abbrev pub result_of : Answer → ℕ
result_of (done n) = 0
result_of enotty = minus_one
result_of (failed e) = minus_one

abbrev pub value_of : Answer → ℕ
value_of (done n) = n
value_of enotty = 0
value_of (failed e) = 0

module _ (k : Kernel) where
  open k use {State}

  pub record World : Type 0 where
    pub state : State
    pub log : List Call
    pub shutdown_method : Method
    pub swsusp_header : Header

  abbrev pub noted : Call → World → World
  noted c w = record w { log = c ∷ w.log }

  unfoldable pub ioctl : Call → World → Answer × World
  ioctl c w = let (a, s) = k.ioctl c w.state in (a, record w { state = s; log = c ∷ w.log })

  -- A second request is tried where the kernel does not know the first.
  abbrev pub second_try : Call → Answer × World → Answer × World
  second_try c (done n, w) = (done n, w)
  second_try c (enotty, w) = ioctl c w
  second_try c (failed e, w) = (failed e, w)

  unfoldable pub ioctl_or : Call → Call → World → Answer × World
  ioctl_or c c' w = second_try c' (ioctl c w)

  -- 0 stands for failure.
  abbrev pub check_free_swap : World → ℕ × World
  check_free_swap w = let (a, w') = ioctl_or avail_swap_size avail_swap w in (value_of a, w')

  abbrev pub set_image_size : ℕ → World → ℕ × World
  set_image_size n w = let (a, w') = ioctl_or (pref_image_size n) (set_size n) w in (error_of a, w')

  abbrev pub atomic_snapshot : World → Answer × World
  atomic_snapshot w = ioctl_or create_image atomic_image w

  abbrev pub platform_enter : World → World
  platform_enter w = (ioctl_or power_off_platform pmops_enter w).1

  abbrev pub platform_prepare : World → ℕ × World
  platform_prepare w = let (a, w') = ioctl_or platform_support pmops_prepare w in (result_of a, w')

  abbrev pub freeze : World → ℕ × World
  freeze w = let (a, w') = ioctl freeze_processes w in (result_of a, w')

  abbrev pub unfreeze : World → World
  unfreeze w = (ioctl unfreeze_processes w).1

  abbrev pub free_swap_pages : World → World
  free_swap_pages w = (ioctl free_swap w).1

  abbrev pub free_snapshot : World → World
  free_snapshot w = (ioctl free_image w).1

  -- The header page: `lseek64` and then `read` or `write`, -EIO if one of them fails.
  unfoldable pub read_at_shift : World → ℕ × World
  read_at_shift w =
      let (here, s) = k.lseek w.state in
      let (h, s') = k.read s in
      if here
      then got (record (w) { state = s'; log = read_header ∷ lseek_header ∷ w.log }) h
      else (eio_code, record (w) { state = s; log = lseek_header ∷ w.log })
    where
      got : World → Option Header → ℕ × World
      got w none = (eio_code, w)
      got w (some h) = (0, record w { swsusp_header = h })

  unfoldable pub write_at_shift : World → ℕ × World
  write_at_shift w =
      let (here, s) = k.lseek w.state in
      let (good, s') = k.write w.swsusp_header s in
      if here
      then (if good
          then (
            0,
            record w { state = s'; log = write_header w.swsusp_header ∷ lseek_header ∷ w.log },
          )
          else (
            eio_code,
            record w { state = s'; log = write_header_failed ∷ lseek_header ∷ w.log },
          ))
      else (eio_code, record w { state = s; log = lseek_header ∷ w.log })

  -- The signature is replaced only where there is one of swap.
  abbrev pub put_signature : ℕ → ℕ × World → ℕ × World
  put_signature start (zero, w) =
      let h = w.swsusp_header in
      if is_swap h.sig
      then write_at_shift
          (record w { swsusp_header = record { image = start; orig_sig = h.sig; sig = s1suspend } })
      else (enodev_code, w)
  put_signature start (suc e, w) = (suc e, w)

  unfoldable pub mark_swap : ℕ → World → ℕ × World
  mark_swap start w = put_signature start (read_at_shift w)

  abbrev pub take_signature : ℕ × World → ℕ × World
  take_signature (zero, w) =
      let h = w.swsusp_header in
      if is_s1suspend h.sig
      then write_at_shift (record w {
        swsusp_header = record { image = h.image; orig_sig = h.orig_sig; sig = h.orig_sig };
      })
      else (einval_code, w)
  take_signature (suc e, w) = (suc e, w)

  -- With an error it sleeps for ever.
  abbrev pub or_halt : ℕ × World → Outcome × World
  or_halt (zero, w) = (returned 0, w)
  or_halt (suc e, w) = (halted, w)

  -- A failed seek returns at once; after it every error ends in the loop of `sleep`.
  unfoldable pub reset_signature : World → Outcome × World
  reset_signature w =
      if (k.lseek w.state).0
      then or_halt (take_signature (read_at_shift w))
      else (returned eio_code, (read_at_shift w).1)
