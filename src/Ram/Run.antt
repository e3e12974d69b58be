-- ===== src/Ram/Run.antt =====
-- The work-arounds around the sleep and `main` of s2ram (s2ram-x86.c, s2ram.c, s2ram-main.c). What they do to the
-- machine is a log, the latest first; what the machine answers is a parameter.
use suspend.Common.{
  ℕ, Bool, true, false, not, ◌&&◌, List, ◌∷◌, ◌==◌, ltb, if◌then◌else◌, Option, none, some,
}
use suspend.Ram.{
  Code, plain, is_zero, enodev, s2ram_ok, s2ram_fail, Flags, Machine, MachineEntry, Options,
  s2ram_is_supported, ConfigFile, get_s2ram_config, s2ram_check_kms,
}

pub data Event : Type 0 where
  acpi_flags : Bool → Bool → Event
  vbe_saved vbe_restored vbe_posted : Event
  vbe_mode_read : Event
  vbe_mode_set : ℕ → Event
  backlight : Bool → Event
  pci_saved pci_restored : Event
  console_frozen : Bool → Event
  asked_to_sleep : Event
  on_vt : ℕ → Event

-- /proc/sys/kernel/acpi_video_flags
pub data AcpiFile : Type 0 where
  absent malformed read_only writable : AcpiFile

-- /sys/power/state: it does not open, or the errors of the write and of `fclose`, 0 for none.
pub data StateFile : Type 0 where
  no_file : StateFile
  opened : ℕ → ℕ → StateFile

-- How the machine answers: the buffer and the mode of vbetool, where `none` is a null pointer or a negative mode, the
-- number of the console in front, and whether the switch to a console succeeds.
pub record World : Type 0 where
  pub acpi : AcpiFile
  pub state_file : StateFile
  pub vbe_state : Option ℕ
  pub vbe_mode : Option ℕ
  pub has_vga : Bool
  pub fgconsole : ℕ
  pub chvt : ℕ → Bool
  pub is_framebuffer : Bool
  pub drm : Option (List (List ℕ))
  pub errno : ℕ
  pub config : Option ConfigFile
  pub machine : Machine
  pub whitelist : List MachineEntry

-- `vbe_buffer` and `vbe_mode` with the log.
pub record Ram : Type 0 where
  pub vbe_buffer : Option ℕ
  pub vbe_mode : Option ℕ
  pub log : List Event

abbrev pub note : Event → Ram → Ram
note e r = record r { log = e ∷ r.log }

abbrev pub when : Bool → Event → Ram → Ram
when c e r = if c then note e r else r

-- The bits 0 and 1 of the old setting are replaced.
abbrev pub set_acpi_video_mode : AcpiFile → Flags → Ram → Code × Ram
set_acpi_video_mode writable f r = (s2ram_ok, note (acpi_flags f.s3_bios f.s3_mode) r)
set_acpi_video_mode absent f r = (s2ram_fail, r)
set_acpi_video_mode malformed f r = (s2ram_fail, r)
set_acpi_video_mode read_only f r = (s2ram_fail, r)

module _ (w : World) where
  abbrev pub save_state : Bool → Ram → Ram
  save_state c r = if c then note vbe_saved (record r { vbe_buffer = w.vbe_state }) else r

  abbrev pub get_mode : Bool → Ram → Ram
  get_mode c r = if c then note vbe_mode_read (record r { vbe_mode = w.vbe_mode }) else r

  -- `suspend_fbcon`
  abbrev pub freeze_console : Bool → Ram → Code × Ram
  freeze_console fb_nosuspend r = (plain 0, when (not fb_nosuspend) (console_frozen true) r)

  abbrev pub after_radeon : Options → Ram → Code × Ram
  after_radeon o r =
      if o.flags.pci_save
      then (if w.has_vga then freeze_console o.fb_nosuspend (note pci_saved r) else (plain 1, r))
      else freeze_console o.fb_nosuspend r

  abbrev pub after_acpi : Options → Code × Ram → Code × Ram
  after_acpi o (c, r) =
      if is_zero c
      then after_radeon o (
          when o.flags.radeon_off (backlight false)
            (get_mode o.flags.vbe_mode (save_state o.flags.vbe_save r)))
      else (c, r)

  unfoldable pub s2ram_hacks : Options → Ram → Code × Ram
  s2ram_hacks o r = after_acpi o (set_acpi_video_mode w.acpi o.flags r)

  abbrev pub sleep : StateFile → Ram → Code × Ram
  sleep no_file r = (plain enodev, r)
  sleep (opened printed closed) r =
      (plain (if closed == 0 then printed else closed), note asked_to_sleep r)

  unfoldable pub s2ram_generic_do : Ram → Code × Ram
  s2ram_generic_do r = sleep w.state_file r

  abbrev pub restore_state : Ram → Ram
  restore_state r = elim r.vbe_buffer [ none ↦ r | some b ↦ note vbe_restored r ]

  abbrev pub restore_mode : Ram → Ram
  restore_mode r = elim r.vbe_mode [ none ↦ r | some m ↦ note (vbe_mode_set m) r ]

  unfoldable pub s2ram_resume : Options → Ram → Ram
  s2ram_resume o r = when o.flags.radeon_off (backlight true) (
      when (not o.fb_nosuspend) (console_frozen false) (
        restore_mode (
          restore_state (when o.flags.vbe_post vbe_posted (when o.flags.pci_save pci_restored r)))))

  abbrev pub switch : ℕ → Ram → Ram
  switch n r = when (w.chvt n) (on_vt n) r

  -- `out:`
  abbrev pub switch_back : Code × Ram → Code × Ram
  switch_back (c, r) = (c, if ltb 0 w.fgconsole then switch w.fgconsole r else r)

  abbrev pub do_and_resume : Options → Ram → Code × Ram
  do_and_resume o r = let (c, r') = s2ram_generic_do r in (c, s2ram_resume o r')

  abbrev pub after_hacks : Options → Code × Ram → Code × Ram
  after_hacks o (c, r) = if is_zero c then do_and_resume o r else (c, r)

  unfoldable pub with_quirks : Options → Ram → Code × Ram
  with_quirks o r = switch_back (after_hacks o (s2ram_hacks o (switch 1 r)))

  abbrev pub if_supported : Code × Options → Ram → Code × Ram
  if_supported (c, o) r = if is_zero c then with_quirks o r else (c, r)

  abbrev pub after_config : Code × Options → Ram → Code × Ram
  after_config (c, o) r =
      if is_zero c
      then with_quirks o r
      else if_supported (s2ram_is_supported w.is_framebuffer w.machine w.whitelist o) r

  -- `main` of s2ram after the options.
  unfoldable pub main : Options → Ram → Code × Ram
  main o r =
      if not o.no_kms_flag && is_zero (s2ram_check_kms w.drm w.errno)
      then s2ram_generic_do r
      else after_config (get_s2ram_config w.config o) r
