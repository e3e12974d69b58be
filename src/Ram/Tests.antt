-- ===== src/Ram/Tests.antt =====
-- s2ram on a machine that the second entry of a whitelist of two knows.
use suspend.Common.{◌≡◌, ◌↔◌, refl, true, false, [], ◌∷◌, none, some, arith}
use suspend.Ram.{
  Flags, Machine, MachineEntry, Options, match_text, machine_match, s2ram_is_supported,
  get_s2ram_config, s2ram_check_kms, s2ram_add_flag, s2ram_add_quirks, machine_known,
}
use suspend.Ram.Run.{
  World, writable, opened, main, with_quirks, s2ram_hacks, s2ram_resume, s2ram_generic_do,
}
use suspend.Ram.Matching.{Matches, match_text-Matches, IsFirst, machine_match-IsFirst}
use suspend.Ram.Steps.{is_lit}
use suspend.Ram.Settled.{IsSettled, fresh, main-IsSettled}
use suspend.Ram.Allowed.{is_asleep, IsAllowed, main-IsAllowed}

abbrev no_flags : Flags
no_flags = record {
  s3_bios = false;
  s3_mode = false;
  vbe_save = false;
  vbe_post = false;
  radeon_off = false;
  unsure = false;
  nofb = false;
  vbe_mode = false;
  pci_save = false;
}

abbrev thinkpad : Machine
thinkpad = record {
  sys_vendor = 73 ∷ 66 ∷ 77 ∷ [];
  sys_product = 50 ∷ 51 ∷ 55 ∷ 51 ∷ [];
  sys_version = 84 ∷ 52 ∷ 50 ∷ [];
  bios_version = [];
}

abbrev other : MachineEntry
other = record {
  pattern = record { sys_vendor = 65 ∷ []; sys_product = []; sys_version = []; bios_version = [] };
  flags = no_flags;
}

-- "IBM", "23*"
abbrev known : MachineEntry
known = record {
  pattern = record {
    sys_vendor = 73 ∷ 66 ∷ 77 ∷ [];
    sys_product = 50 ∷ 51 ∷ 42 ∷ [];
    sys_version = [];
    bios_version = [];
  };
  flags = record no_flags { radeon_off = true; vbe_mode = true; pci_save = true };
}

abbrev quirky : World
quirky = record {
  acpi = writable;
  state_file = opened 0 0;
  vbe_state = some 7;
  vbe_mode = some 3;
  has_vga = true;
  fgconsole = 7;
  chvt = λ n. true;
  is_framebuffer = true;
  drm = none;
  errno = 2;
  config = none;
  machine = thinkpad;
  whitelist = other ∷ known ∷ [];
}

abbrev no_options : Options
no_options = record { flags = no_flags; force = false; fb_nosuspend = false; no_kms_flag = false }

match_text-Matches_example :
    (match_text (50 ∷ 51 ∷ 55 ∷ 51 ∷ []) (50 ∷ 51 ∷ 42 ∷ []) ≡ true)
    ↔ Matches (50 ∷ 51 ∷ 55 ∷ 51 ∷ []) (50 ∷ 51 ∷ 42 ∷ [])
match_text-Matches_example = match_text-Matches (50 ∷ 51 ∷ 55 ∷ 51 ∷ []) (50 ∷ 51 ∷ 42 ∷ [])

found : machine_match thinkpad (other ∷ known ∷ []) ≡ some (1, known)
unfolding machine_match match_text
found = refl

machine_match-IsFirst_example :
    IsFirst thinkpad (other ∷ known ∷ []) (machine_match thinkpad (other ∷ known ∷ []))
machine_match-IsFirst_example = machine_match-IsFirst thinkpad (other ∷ known ∷ [])

main-IsSettled_example : IsSettled quirky (main quirky no_options fresh).1
main-IsSettled_example = main-IsSettled quirky (omega arith) refl no_options

falls_asleep : is_asleep (main quirky no_options fresh).1.log ≡ true
unfolding main get_s2ram_config s2ram_check_kms s2ram_is_supported machine_match match_text
    with_quirks s2ram_hacks s2ram_resume s2ram_generic_do
falls_asleep = refl

main-IsAllowed_example : IsAllowed quirky no_options
main-IsAllowed_example = main-IsAllowed quirky no_options falls_asleep

-- Without a VGA device the hacks give up after the backlight is off, and it stays off.
left_dark : is_lit (main (record quirky { has_vga = false }) no_options fresh).1.log ≡ false
unfolding main get_s2ram_config s2ram_check_kms s2ram_is_supported machine_match match_text
    with_quirks s2ram_hacks s2ram_resume s2ram_generic_do
left_dark = refl

-- The old option r and the word "Radeon_Off" of the configuration set the same flag.
same_flag :
    (s2ram_add_flag no_options 114 0).flags
    ≡ (s2ram_add_quirks no_options
        (82 ∷ 97 ∷ 100 ∷ 101 ∷ 111 ∷ 110 ∷ 95 ∷ 79 ∷ 102 ∷ 102 ∷ [])).flags
unfolding s2ram_add_flag s2ram_add_quirks
same_flag = refl

known_to_n : (machine_known true thinkpad (other ∷ known ∷ []) no_options).0 ≡ 0
unfolding machine_known machine_match match_text
known_to_n = refl
