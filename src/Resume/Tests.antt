-- ===== src/Resume/Tests.antt =====
-- Runs of resume over a device in memory.
use suspend.Common.{ℕ, ◌≡◌, refl, true, [], some}
use suspend.Suspend.{
  done, Kernel, swapspace2, s1suspend, other, Header, shutdown, World, ioctl, read_at_shift,
}
use suspend.Suspend.SignatureTrip.{IsDevice}
use suspend.Resume.{opened, ImageReader, open_resume_dev, resume}
use suspend.Resume.Settled.{LeavesHeader, IsSettled, resume-IsSettled}

-- The user chooses to go on booting.
abbrev booting : Kernel
booting = record {
  State = Header;
  ioctl = λ c h. (done 0, h);
  lseek = λ h. (true, h);
  read = λ h. (some h, h);
  write = λ h s. (true, h);
}

abbrev in_memory : IsDevice booting
in_memory = record {
  header = λ h. h;
  seek_law = λ h. (refl, refl);
  read_law = λ h. (refl, refl);
  write_law = λ h s. (refl, refl);
}

-- Loads end with the error given.
abbrev loads : ℕ → ImageReader booting
loads e = record { read_or_verify = λ start w. (e, w); platform_suspend = λ w. true }

abbrev leaves : (e : ℕ) → LeavesHeader booting in_memory (loads e)
leaves e = record { ioctl_law = λ c s. refl; load_law = λ start w. (refl, refl) }

abbrev with_image : Header
with_image = record { image = 9; orig_sig = swapspace2; sig = s1suspend }

abbrev at : Header → World booting
at h = record {
  state = h;
  log = [];
  shutdown_method = shutdown;
  swsusp_header = record { image = 0; orig_sig = other; sig = other };
}

image_found : (open_resume_dev booting (at with_image)).0 ≡ opened
unfolding open_resume_dev ioctl read_at_shift
image_found = refl

resume-IsSettled_example :
    IsSettled booting in_memory
      (loads 5)
      (leaves 5)
      with_image
      (resume booting (loads 5) (at with_image))
resume-IsSettled_example =
    resume-IsSettled booting in_memory (loads 5) (leaves 5) (at with_image) image_found
