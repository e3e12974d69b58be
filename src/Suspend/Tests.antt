-- ===== src/Suspend/Tests.antt =====
-- Runs of `suspend_system` over a kernel that grants what is asked and a device in memory.
use suspend.Common.{ℕ, ◌≡◌, ◌≢◌, refl, arith, true, false, [], some}
use suspend.Suspend.{
  Call, avail_swap_size, create_image, Answer, done, Kernel, swapspace2, other, Header, shutdown,
  platform, returned, World, ioctl, ioctl_or, check_free_swap, mark_swap, reset_signature,
  read_at_shift, write_at_shift,
}
use suspend.Suspend.System.{
  ImageWriter, enough_swap, write_image, store_image, run_test, suspend_system, rounds, prepared,
  image_stored,
}
use suspend.Suspend.Log.{IsSafe}
use suspend.Suspend.Safety.{suspend_system-IsSafe}
use suspend.Suspend.Release.{IsReleased, suspend_system-IsReleased}
use suspend.Suspend.TestMode.{LeavesHeader, IsTested, run_test-IsTested}
use suspend.Suspend.SignatureTrip.{IsDevice, reset_signature-mark_swap}

abbrev grant : Call → Header → Answer × Header
grant avail_swap_size h = (done 100, h)
grant create_image h = (done 1, h)
grant c h = (done 0, h)

abbrev granting : Kernel
granting = record {
  State = Header;
  ioctl = grant;
  lseek = λ h. (true, h);
  read = λ h. (some h, h);
  write = λ h s. (true, h);
}

abbrev in_memory : IsDevice granting
in_memory = record {
  header = λ h. h;
  seek_law = λ h. (refl, refl);
  read_law = λ h. (refl, refl);
  write_law = λ h s. (refl, refl);
}

abbrev gives : ℕ → Header → ℕ × Header
gives n h = (n, h)

-- The last argument is the error of `save_image`, which the user tells to reboot.
abbrev writer : ℕ → ImageWriter granting
writer e = record {
  get_swap_page = gives 9;
  init_swap_writer = gives 0;
  count_pages = gives 0;
  do_compress = true;
  swap_needed = λ h. 80;
  preallocate_swap = gives 1;
  set_cipher = gives 0;
  save_image = λ h. (e, true, h);
  write_page = λ start. gives 0;
  read_or_verify = λ start. gives 0;
}

abbrev booted : World granting
booted = record {
  state = record { image = 0; orig_sig = other; sig = swapspace2 };
  log = [];
  shutdown_method = platform;
  swsusp_header = record { image = 0; orig_sig = other; sig = other };
}

-- Suspend to RAM after the image is stored, and the way back.
suspend_run : (suspend_system granting (writer 0) true true false 50 booted).0 ≡ returned 0
unfolding suspend_system enough_swap rounds prepared ioctl ioctl_or write_image store_image
    mark_swap read_at_shift write_at_shift image_stored reset_signature
suspend_run = refl

-- A kernel that comes back from a resumed image: the snapshot gives 0.
abbrev resuming : Kernel
resuming = record {
  State = Header;
  ioctl = λ c h. (done 0, h);
  lseek = λ h. (true, h);
  read = λ h. (some h, h);
  write = λ h s. (true, h);
}

abbrev idle : Header → ℕ × Header
idle h = (0, h)

abbrev idle_writer : ImageWriter resuming
idle_writer = record {
  get_swap_page = idle;
  init_swap_writer = idle;
  count_pages = idle;
  do_compress = false;
  swap_needed = λ h. 0;
  preallocate_swap = idle;
  set_cipher = idle;
  save_image = λ h. (0, false, h);
  write_page = λ start. idle;
  read_or_verify = λ start. idle;
}

-- Resumed from an image of the second round, it returns the error of the first.
stale_error :
    (rounds resuming idle_writer false false 1 28 0 (record {
      state = booted.state;
      log = [];
      shutdown_method = shutdown;
      swsusp_header = booted.state;
    })).0
    ≡ returned 28
unfolding rounds ioctl ioctl_or
stale_error = refl

suspend_system-IsSafe_example :
    IsSafe (suspend_system granting (writer 0) true false false 50 booted).1.log
suspend_system-IsSafe_example =
    suspend_system-IsSafe granting (writer 0) true false false 50 booted tt

swap_there : (check_free_swap granting booted).0 ≢ 0
unfolding ioctl ioctl_or
swap_there = λ e. absurd (omega (arith, e))

suspend_system-IsReleased_example :
    IsReleased granting (suspend_system granting (writer 5) false true false 50 booted)
suspend_system-IsReleased_example =
    suspend_system-IsReleased granting (writer 5) false true false 50 booted swap_there

reset_signature-mark_swap_example :
    ((mark_swap granting 9 booted).0 ≡ 0)
    × (((mark_swap granting 9 booted).1.state).image ≡ 9)
    × ((reset_signature granting (mark_swap granting 9 booted).1).0 ≡ returned 0)
    × (((reset_signature granting (mark_swap granting 9 booted).1).1.state).sig ≡ swapspace2)
reset_signature-mark_swap_example = reset_signature-mark_swap granting in_memory 9 booted refl

granted_same : (c : Call) (s : Header) → (grant c s).1 ≡ s
granted_same avail_swap_size s = refl
granted_same create_image s = refl
granted_same _ s = refl

abbrev leaves : (e : ℕ) → LeavesHeader granting in_memory (writer e)
leaves e = record {
  ioctl_law = granted_same;
  get_law = λ s. refl;
  init_law = λ s. refl;
  count_law = λ s. refl;
  preallocate_law = λ s. refl;
  cipher_law = λ s. refl;
  save_law = λ s. refl;
  write_law = λ n s. refl;
  verify_law = λ n s. refl;
}

-- `save_image` fails.
run_test-IsTested_example :
    IsTested granting in_memory
      (writer 5)
      (leaves 5)
      booted.state
      (write_image granting (writer 5) true booted).0
      (run_test granting (writer 5) false false booted)
run_test-IsTested_example =
    run_test-IsTested granting in_memory (writer 5) (leaves 5) false false booted refl
