-- ===== src/Ram/Steps.antt =====
-- What the hacks of s2ram-x86.c and what undoes them do to the console in front, the frame buffer
-- console and the backlight.
use suspend.Common.{
  ℕ, ◌≡◌, ◌⊎◌, inl, inr, refl, Bool, true, false, not, List, [], ◌∷◌, Option-cases, sym, ◌∙◌,
  if◌then◌else◌,
}
use suspend.Ram.{Code, plain, is_zero, Options, s2ram_fail}
use suspend.Ram.Run.{
  Event, acpi_flags, vbe_posted, backlight, pci_saved, pci_restored, console_frozen, on_vt,
  AcpiFile, absent, malformed, read_only, writable, StateFile, no_file, opened, World, Ram, note,
  when, set_acpi_video_mode, save_state, get_mode, freeze_console, after_radeon, after_acpi,
  s2ram_hacks, sleep, restore_state, restore_mode, s2ram_resume,
}

-- The console in front after the log, with the one before it.
abbrev pub front : ℕ → List Event → ℕ
front n [] = n
front n (on_vt m ∷ l) = m
front n (_ ∷ l) = front n l

abbrev pub is_lit : List Event → Bool
is_lit [] = true
is_lit (backlight b ∷ l) = b
is_lit (_ ∷ l) = is_lit l

abbrev pub is_running : List Event → Bool
is_running [] = true
is_running (console_frozen b ∷ l) = not b
is_running (_ ∷ l) = is_running l

module _ (n : ℕ) where
  -- A step that leaves all three as they are.
  unfoldable pub Keeps : Ram → Ram → Type 0
  Keeps r r' =
      (front n r'.log ≡ front n r.log)
      × (is_running r'.log ≡ is_running r.log)
      × (is_lit r'.log ≡ is_lit r.log)

  both : (r s t : Ram) → Keeps r s → Keeps s t → Keeps r t
  unfolding Keeps
  both r s t (a, b, c) (d, e, f) = (d ∙ a, e ∙ b, f ∙ c)

  save_state-Keeps : (w : World) (c : Bool) (r : Ram) → Keeps r (save_state w c r)
  unfolding Keeps
  save_state-Keeps w true r = (refl, refl, refl)
  save_state-Keeps w false r = (refl, refl, refl)

  get_mode-Keeps : (w : World) (c : Bool) (r : Ram) → Keeps r (get_mode w c r)
  unfolding Keeps
  get_mode-Keeps w true r = (refl, refl, refl)
  get_mode-Keeps w false r = (refl, refl, refl)

  posted-Keeps : (c : Bool) (r : Ram) → Keeps r (when c vbe_posted r)
  unfolding Keeps
  posted-Keeps true r = (refl, refl, refl)
  posted-Keeps false r = (refl, refl, refl)

  pci-Keeps : (c : Bool) (r : Ram) → Keeps r (when c pci_restored r)
  unfolding Keeps
  pci-Keeps true r = (refl, refl, refl)
  pci-Keeps false r = (refl, refl, refl)

  restore_state-Keeps : (w : World) (r : Ram) → Keeps r (restore_state w r)
  unfolding Keeps
  restore_state-Keeps w r = elim (Option-cases r.vbe_buffer) [
    | inl e ↦ rw e (refl, refl, refl)
    | inr (b, e) ↦ rw e (refl, refl, refl)
  ]

  restore_mode-Keeps : (w : World) (r : Ram) → Keeps r (restore_mode w r)
  unfolding Keeps
  restore_mode-Keeps w r = elim (Option-cases r.vbe_mode) [
    | inl e ↦ rw e (refl, refl, refl)
    | inr (b, e) ↦ rw e (refl, refl, refl)
  ]

  pub sleep-Keeps : (w : World) (f : StateFile) (r : Ram) → Keeps r (sleep w f r).1
  unfolding Keeps
  sleep-Keeps w no_file r = (refl, refl, refl)
  sleep-Keeps w (opened p c) r = (refl, refl, refl)

  -- The state after the hacks: what is off is off for a flag.
  pub record IsPrepared (o : Options) (r r' : Ram) : Type 0 where
    pub shown : front n r'.log ≡ front n r.log
    pub running : o.fb_nosuspend ≡ true → is_running r'.log ≡ true
    pub lit : o.flags.radeon_off ≡ false → is_lit r'.log ≡ true

  pub record IsGivenUp (w : World) (r r' : Ram) : Type 0 where
    pub shown : front n r'.log ≡ front n r.log
    pub running : is_running r'.log ≡ true
    pub lit : w.has_vga ≡ true → is_lit r'.log ≡ true

  unfoldable pub Result : World → Options → Ram → Code × Ram → Type 0
  Result w o r x =
      ((is_zero x.0 ≡ true) × IsPrepared o r x.1) ⊎ ((is_zero x.0 ≡ false) × IsGivenUp w r x.1)

  module _ (w : World) (o : Options) (r : Ram) where
    freeze-Result :
        (c : Bool) (s : Ram)
        → o.fb_nosuspend ≡ c
        → front n s.log ≡ front n r.log
        → is_running s.log ≡ true
        → (o.flags.radeon_off ≡ false → is_lit s.log ≡ true)
        → Result w o r (freeze_console w c s)
    unfolding Result
    freeze-Result true s e a b c = inl (refl, record { shown = a; running = λ _. b; lit = c })
    freeze-Result false s e a b c = inl (
      refl,
      record { shown = a; running = λ t. let q : true ≡ false = sym t ∙ e in absurd (cc); lit = c },
    )

    pick-Result :
        (c v : Bool) (s : Ram)
        → w.has_vga ≡ v
        → front n s.log ≡ front n r.log
        → is_running s.log ≡ true
        → (o.flags.radeon_off ≡ false → is_lit s.log ≡ true)
        → Result w o r (
            if c
            then (if v then freeze_console w o.fb_nosuspend (note pci_saved s) else (plain 1, s))
            else freeze_console w o.fb_nosuspend s)
    unfolding Result
    pick-Result false v s e a b l = freeze-Result o.fb_nosuspend s refl a b l
    pick-Result true true s e a b l = freeze-Result o.fb_nosuspend (note pci_saved s) refl a b l
    pick-Result true false s e a b l = inr (
      refl,
      record { shown = a; running = b; lit = λ h. let q : true ≡ false = sym h ∙ e in absurd (cc) },
    )

    radeon-Result :
        (c : Bool) (s : Ram)
        → o.flags.radeon_off ≡ c
        → front n s.log ≡ front n r.log
        → is_running s.log ≡ true
        → is_lit s.log ≡ true
        → Result w o r (after_radeon w o (when c (backlight false) s))
    radeon-Result true s e a b l =
        pick-Result o.flags.pci_save w.has_vga (note (backlight false) s) refl a b
          (λ h. let q : true ≡ false = sym e ∙ h in absurd (cc))
    radeon-Result false s e a b l = pick-Result o.flags.pci_save w.has_vga s refl a b (λ _. l)

  -- The hacks either go through, or leave all in order but for the backlight of a machine without a VGA device.
  pub s2ram_hacks-Result :
      (w : World) (o : Options) (r : Ram)
      → is_running r.log ≡ true
      → is_lit r.log ≡ true
      → Result w o r (s2ram_hacks w o r)
  unfolding s2ram_hacks Result Keeps
  s2ram_hacks-Result w o r b l = pick w.acpi
    where
      kept : (s : Ram) → Keeps s (get_mode w o.flags.vbe_mode (save_state w o.flags.vbe_save s))
      kept s =
          both s (save_state w o.flags.vbe_save s)
            (get_mode w o.flags.vbe_mode (save_state w o.flags.vbe_save s))
            (save_state-Keeps w o.flags.vbe_save s)
            (get_mode-Keeps w o.flags.vbe_mode (save_state w o.flags.vbe_save s))

      failed : Result w o r (s2ram_fail, r)
      failed = inr (refl, record { shown = refl; running = b; lit = λ _. l })

      pick : (f : AcpiFile) → Result w o r (after_acpi w o (set_acpi_video_mode f o.flags r))
      pick absent = failed
      pick malformed = failed
      pick read_only = failed
      pick writable =
          let s = note (acpi_flags o.flags.s3_bios o.flags.s3_mode) r in
          let (x, y, z) = kept s in
          radeon-Result w o r o.flags.radeon_off
            (get_mode w o.flags.vbe_mode (save_state w o.flags.vbe_save s)) refl x (y ∙ b) (z ∙ l)

  console_back :
      (c : Bool) (r : Ram)
      → (c ≡ true → is_running r.log ≡ true)
      → (front n (when (not c) (console_frozen false) r).log ≡ front n r.log)
        × (is_running (when (not c) (console_frozen false) r).log ≡ true)
        × (is_lit (when (not c) (console_frozen false) r).log ≡ is_lit r.log)
  console_back true r h = (refl, h refl, refl)
  console_back false r h = (refl, refl, refl)

  light_back :
      (c : Bool) (r : Ram)
      → (c ≡ false → is_lit r.log ≡ true)
      → (front n (when c (backlight true) r).log ≡ front n r.log)
        × (is_running (when c (backlight true) r).log ≡ is_running r.log)
        × (is_lit (when c (backlight true) r).log ≡ true)
  light_back true r h = (refl, refl, refl)
  light_back false r h = (refl, refl, h refl)

  -- `s2ram_resume` puts everything back.
  pub resume_lem :
      (w : World) (o : Options) (r s : Ram)
      → IsPrepared o r s
      → (front n (s2ram_resume w o s).log ≡ front n r.log)
        × (is_running (s2ram_resume w o s).log ≡ true)
        × (is_lit (s2ram_resume w o s).log ≡ true)
  unfolding s2ram_resume Keeps
  resume_lem w o r s p =
      let s1 = when o.flags.pci_save pci_restored s in
      let s2 = when o.flags.vbe_post vbe_posted s1 in
      let s3 = restore_state w s2 in
      let s4 = restore_mode w s3 in
      let (a, b, c) = both s s1 s4 (pci-Keeps o.flags.pci_save s) (
        both s1 s2 s4 (posted-Keeps o.flags.vbe_post s1)
          (both s2 s3 s4 (restore_state-Keeps w s2) (restore_mode-Keeps w s3))) in
      let (d, e, f) = console_back o.fb_nosuspend s4 (λ t. b ∙ p.running t) in
      let s5 = when (not o.fb_nosuspend) (console_frozen false) s4 in
      let (g, h, i) = light_back o.flags.radeon_off s5 (λ t. f ∙ c ∙ p.lit t) in
      (g ∙ d ∙ a ∙ p.shown, h ∙ e, i)
