-- ===== src/Resume/Settled.antt =====
-- What the device holds when resume.c returns or gives up.
use suspend.Common.{ℕ, zero, suc, ◌≡◌, refl, Bool, Bool-cases, inl, inr, ◌==◌, ◌∙◌, ap}
use suspend.Suspend.{
  Call, Answer, done, enotty, failed, Kernel, Header, Outcome, returned, halted, World, ioctl,
  ioctl_or, second_try, value_of, freeze, read_at_shift, ask_to_boot, open_resume_device,
  platform_support, pmops_prepare,
}
use suspend.Suspend.SignatureTrip.{IsDevice, read_ok, write_ok}
use suspend.Resume.{
  Opened, opened, no_medium, not_opened, ImageReader, checked, after_open, open_resume_dev,
  reboot_question, after_load, reset_signature, restore, given_up, after_freeze, after_read,
  read_image, resume_from, resume,
}

-- Calls and the load of an image leave the header page alone, on the device and in memory.
pub record LeavesHeader (k : Kernel) (d : IsDevice k) (i : ImageReader k) : Type 0 where
  pub ioctl_law : (c : Call) (s : k.State) → d.header (k.ioctl c s).1 ≡ d.header s
  pub load_law :
      (start : ℕ) (w : World k)
      → (d.header (i.read_or_verify start w).1.state ≡ d.header w.state)
        × ((i.read_or_verify start w).1.swsusp_header ≡ w.swsusp_header)

-- The header with the signature of swap put back.
abbrev pub restored : Header → Header
restored h = record { image = h.image; orig_sig = h.orig_sig; sig = h.orig_sig }

module _ (k : Kernel) (d : IsDevice k) (i : ImageReader k) (l : LeavesHeader k d i)
    (h : Header) where
  open d use {header}

  -- After a return the signature of swap is back; where it stops for a reboot the image is still there.
  abbrev pub IsSettled : Outcome × World k → Type 0
  IsSettled (returned e, w) = header w.state ≡ restored h
  IsSettled (halted, w) = header w.state ≡ h

  -- The header page was read and is unchanged on the device.
  abbrev Holds : World k → Type 0
  Holds w = (w.swsusp_header ≡ h) × (header w.state ≡ h)

  ioctl-Holds : (c : Call) (w : World k) → Holds w → Holds (ioctl k c w).1
  unfolding ioctl
  ioctl-Holds c w (a, b) = (a, l.ioctl_law c w.state ∙ b)

  ioctl_header : (c : Call) (w : World k) → header (ioctl k c w).1.state ≡ header w.state
  unfolding ioctl
  ioctl_header c w = l.ioctl_law c w.state

  second_try_header :
      (c : Call) (r : Answer × World k) → header (second_try k c r).1.state ≡ header r.1.state
  second_try_header c (done n, w) = refl
  second_try_header c (enotty, w) = ioctl_header c w
  second_try_header c (failed e, w) = refl

  ioctl_or_header :
      (c c' : Call) (w : World k) → header (ioctl_or k c c' w).1.state ≡ header w.state
  unfolding ioctl_or
  ioctl_or_header c c' w = second_try_header c' (ioctl k c w) ∙ ioctl_header c w

  reset_signature_ok : (w : World k) → Holds w → header (reset_signature k w).state ≡ restored h
  unfolding reset_signature
  reset_signature_ok w (a, b) =
      (write_ok k d (record (w) { swsusp_header = restored w.swsusp_header })).1 ∙ ap restored a

  restore_ok : (p : Bool) (w : World k) → header w.state ≡ restored h → IsSettled (restore k p w)
  unfolding restore
  restore_ok p w e = elim (Bool-cases p) [
    | inl t ↦
        rw t (
          ioctl_header _ _
          ∙ ioctl_header _ _
          ∙ ioctl_or_header platform_support pmops_prepare w
          ∙ e)
    | inr t ↦ rw t (ioctl_header _ _ ∙ ioctl_header _ _ ∙ e)
  ]

  -- What holds when an attempt ends with an error.
  abbrev HoldsAt : Outcome × World k → Type 0
  HoldsAt (o, w) = Holds w

  reboot_question-HoldsAt : (e : ℕ) (w : World k) → Holds w → HoldsAt (reboot_question k e w)
  unfolding reboot_question
  reboot_question-HoldsAt e w g =
      let q = ioctl-Holds ask_to_boot w g in
      elim (Bool-cases (value_of (ioctl k ask_to_boot w).0 == 0)) [
        | inl t ↦ rw t q
        | inr t ↦ rw t q
      ]

  given_up-IsSettled : (r : Outcome × World k) → HoldsAt r → IsSettled (given_up k r)
  given_up-IsSettled (returned e, w) g = reset_signature_ok w g
  given_up-IsSettled (halted, w) g = g.1

  after_freeze-IsSettled : (p : Bool) (r : ℕ × World k) → Holds r.1 → IsSettled (after_freeze k p r)
  after_freeze-IsSettled p (zero, w) g = restore_ok p (reset_signature k w) (reset_signature_ok w g)
  after_freeze-IsSettled p (suc e, w) g =
      given_up-IsSettled (reboot_question k (suc e) w) (reboot_question-HoldsAt (suc e) w g)

  after_read-IsSettled :
      (p : Bool) (r : Outcome × World k) → HoldsAt r → IsSettled (after_read k p r)
  unfolding ioctl
  after_read-IsSettled p (returned zero, w) g =
      after_freeze-IsSettled p (freeze k w) (g.0, l.ioctl_law _ w.state ∙ g.1)
  after_read-IsSettled p (returned (suc e), w) g = given_up-IsSettled (returned (suc e), w) g
  after_read-IsSettled p (halted, w) g = g.1

  after_load-HoldsAt : (r : ℕ × World k) → Holds r.1 → HoldsAt (after_load k r)
  after_load-HoldsAt (zero, w) g = g
  after_load-HoldsAt (suc e, w) g = reboot_question-HoldsAt (suc e) w g

  read_image-HoldsAt : (start : ℕ) (w : World k) → Holds w → HoldsAt (read_image k i start w)
  unfolding read_image
  read_image-HoldsAt start w (a, b) =
      let (e, f) = l.load_law start w in
      after_load-HoldsAt (i.read_or_verify start w) (f ∙ a, e ∙ b)

  checked-Holds : (r : ℕ × World k) → Holds r.1 → Holds (checked k r).1
  checked-Holds (zero, w) g = g
  checked-Holds (suc e, w) g = g

  after_open-Holds :
      (r : Answer × World k)
      → header r.1.state ≡ h
      → (after_open k r).0 ≡ opened
      → Holds (after_open k r).1
  after_open-Holds (done n, w) e o =
      let (_, a, b) = read_ok k d w in checked-Holds (read_at_shift k w) (a ∙ e, b ∙ e)
  after_open-Holds (enotty, w) e o = absurd (cc)
  after_open-Holds (failed x, w) e o = absurd (cc)

  resume_from-IsSettled :
      (r : Opened × World k) → r.0 ≡ opened → Holds r.1 → IsSettled (resume_from k i r)
  resume_from-IsSettled (opened, w) o g =
      after_read-IsSettled _ (read_image k i w.swsusp_header.image w)
        (read_image-HoldsAt w.swsusp_header.image w g)
  resume_from-IsSettled (no_medium, w) o g = absurd (cc)
  resume_from-IsSettled (not_opened e, w) o g = absurd (cc)

module _ (k : Kernel) (d : IsDevice k) (i : ImageReader k) (l : LeavesHeader k d i) where
  -- Where an image is found, on a device that keeps the header page: if resume returns, be it after a
  -- failed load, a failed freeze or a failed restore, the signature of swap is back on the device; if
  -- it stops for a reboot, the header of the image is still there as it was.
  pub resume-IsSettled :
      (w : World k)
      → (open_resume_dev k w).0 ≡ opened
      → IsSettled k d i l (d.header w.state) (resume k i w)
  unfolding resume open_resume_dev
  resume-IsSettled w o = resume_from-IsSettled k d i l (d.header w.state) (open_resume_dev k w) o (
      after_open-Holds k d i l (d.header w.state) (ioctl k open_resume_device w)
        (ioctl_header k d i l (d.header w.state) open_resume_device w) o)
