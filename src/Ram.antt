-- ===== src/Ram.antt =====
-- s2ram on x86 (s2ram-x86.c, s2ram.c): the whitelist of machines, the flags for the work-arounds, and
-- the configuration. Texts are lists of bytes before the final 0. A bit of `flags` is a Bool.
pub mod Matching
pub mod Run
pub mod Steps
pub mod Settled
pub mod Allowed
mod Tests
use suspend.Common.{
  ℕ, zero, suc, ◌+◌, ◌-◌, ◌/◌, ◌%◌, Bool, true, false, ◌&&◌, ◌||◌, leb, List, [], ◌∷◌, ◌==◌,
  if◌then◌else◌, Option, none, some,
}

-- The return codes: errno values may come with either sign.
pub data Code : Type 0 where
  plain negative : ℕ → Code

abbrev pub is_zero : Code → Bool
is_zero (plain n) = n == 0
is_zero (negative n) = n == 0

abbrev pub enoent : ℕ
enoent = 2

abbrev pub enodev : ℕ
enodev = 19

abbrev pub einval : ℕ
einval = 22

abbrev pub s2ram_ok : Code
s2ram_ok = plain 0

abbrev pub s2ram_fail : Code
s2ram_fail = plain 1

abbrev pub s2ram_nofb : Code
s2ram_nofb = plain 126

abbrev pub s2ram_unknown : Code
s2ram_unknown = plain 127

pub record Flags : Type 0 where
  pub s3_bios : Bool
  pub s3_mode : Bool
  pub vbe_save : Bool
  pub vbe_post : Bool
  pub radeon_off : Bool
  pub unsure : Bool
  pub nofb : Bool
  pub vbe_mode : Bool
  pub pci_save : Bool

abbrev pub any_flag : Flags → Bool
any_flag f =
    f.s3_bios
    || (f.s3_mode
        || (f.vbe_save
            || (f.vbe_post
                || (f.radeon_off || (f.unsure || (f.nofb || (f.vbe_mode || f.pci_save)))))))

-- The four texts of `dmi_scan`, and of an entry of the whitelist.
pub record Machine : Type 0 where
  pub sys_vendor : List ℕ
  pub sys_product : List ℕ
  pub sys_version : List ℕ
  pub bios_version : List ℕ

pub record MachineEntry : Type 0 where
  pub pattern : Machine
  pub flags : Flags

-- `strcmp` and `strncmp` where they find no difference.
abbrev pub is_text : List ℕ → List ℕ → Bool
is_text [] [] = true
is_text (c ∷ t) (d ∷ s) = (c == d) && is_text t s
is_text [] (d ∷ s) = false
is_text (c ∷ t) [] = false

abbrev pub starts_with : List ℕ → List ℕ → Bool
starts_with t [] = true
starts_with [] (d ∷ s) = false
starts_with (c ∷ t) (d ∷ s) = (c == d) && starts_with t s

-- A text after its first byte `c`: the text without its last byte, and that byte.
abbrev pub split_last : ℕ → List ℕ → List ℕ × ℕ
split_last c [] = ([], c)
split_last c (d ∷ s) = let (t, l) = split_last d s in (c ∷ t, l)

-- A pattern that ends in `*` stands for its beginning, an empty one for everything.
unfoldable pub match_text : List ℕ → List ℕ → Bool
match_text t [] = true
match_text t (c ∷ s) =
    let (front, last) = split_last c s in
    if last == 42 then starts_with t front else is_text t (c ∷ s)

abbrev pub match_entry : Machine → Machine → Bool
match_entry m e =
    match_text m.sys_vendor e.sys_vendor
    && (match_text m.sys_product e.sys_product
        && (match_text m.sys_version e.sys_version && match_text m.bios_version e.bios_version))

-- The loop from the entry with index `i` on; `none` is -1.
abbrev pub first_match : Machine → List MachineEntry → ℕ → Option (ℕ × MachineEntry)
first_match m [] i = none
first_match m (e ∷ es) i =
    let rest = first_match m es (i + 1) in if match_entry m e.pattern then some (i, e) else rest

unfoldable pub machine_match : Machine → List MachineEntry → Option (ℕ × MachineEntry)
machine_match m whitelist = first_match m whitelist 0

-- What the options and the configuration set.
pub record Options : Type 0 where
  pub flags : Flags
  pub force : Bool
  pub fb_nosuspend : Bool
  pub no_kms_flag : Bool

abbrev pub with_flags : Options → Flags → Options
with_flags o f = record o { flags = f }

abbrev pub s2ram_check : Bool → Options → Option (ℕ × MachineEntry) → Code × Options
s2ram_check is_framebuffer o none = (s2ram_unknown, o)
s2ram_check is_framebuffer o (some (i, e)) =
    (if e.flags.nofb && is_framebuffer then s2ram_nofb else s2ram_ok, with_flags o e.flags)

unfoldable pub s2ram_is_supported : Bool → Machine → List MachineEntry → Options → Code × Options
s2ram_is_supported is_framebuffer m whitelist o =
    if o.force
    then (plain 0, o)
    else if any_flag o.flags
    then (plain einval, o)
    else s2ram_check is_framebuffer o (machine_match m whitelist)

-- The exit status of `s2ram -n`.
unfoldable pub machine_known : Bool → Machine → List MachineEntry → Options → ℕ × Options
machine_known is_framebuffer m whitelist o = elim (machine_match m whitelist) [
  | none ↦ (1, o)
  | some x ↦ (if x.1.flags.unsure then 32 else 0, (s2ram_check is_framebuffer o (some x)).1)
]

-- `opt_arg` is the number that `atoi` reads; the letters are the old short options.
unfoldable pub s2ram_add_flag : Options → ℕ → ℕ → Options
s2ram_add_flag o opt opt_arg =
    let f = o.flags in
    if (opt == 1) || (opt == 102)
    then record o { force = true }
    else if (opt == 2) || (opt == 115)
    then with_flags o (record f { vbe_save = true })
    else if (opt == 3) || (opt == 112)
    then with_flags o (record f { vbe_post = true })
    else if (opt == 4) || (opt == 109)
    then with_flags o (record f { vbe_mode = true })
    else if (opt == 5) || (opt == 114)
    then with_flags o (record f { radeon_off = true })
    else if (opt == 6) || (opt == 118)
    then with_flags o (record f { pci_save = true })
    else if (opt == 7) || (opt == 97)
    then with_flags o (record f {
      s3_bios = f.s3_bios || (opt_arg % 2 == 1);
      s3_mode = f.s3_mode || (opt_arg / 2 % 2 == 1);
    })
    else if opt == 8
    then record o { fb_nosuspend = true }
    else if (opt == 9) || (opt == 107)
    then record o { no_kms_flag = true }
    else o

abbrev pub tolower : ℕ → ℕ
tolower c = if leb 65 c && leb c 90 then c + 32 else c

abbrev pub lower : List ℕ → List ℕ
lower [] = []
lower (c ∷ s) = tolower c ∷ lower s

-- `strstr` where it finds the text.
abbrev pub contains : List ℕ → List ℕ → Bool
contains [] s = starts_with [] s
contains (c ∷ t) s = starts_with (c ∷ t) s || contains t s

-- The words of `s2ram_quirks`: "vbe_post" and so on.
pub record QuirkNames : Type 0 where
  pub vbe_post : List ℕ
  pub vbe_save : List ℕ
  pub vbe_mode : List ℕ
  pub radeon_off : List ℕ
  pub pci_save : List ℕ
  pub s3_bios : List ℕ
  pub s3_mode : List ℕ
  pub fb_nosuspend : List ℕ

abbrev pub quirk_names : QuirkNames
quirk_names = record {
  vbe_post = 118 ∷ 98 ∷ 101 ∷ 95 ∷ 112 ∷ 111 ∷ 115 ∷ 116 ∷ [];
  vbe_save = 118 ∷ 98 ∷ 101 ∷ 95 ∷ 115 ∷ 97 ∷ 118 ∷ 101 ∷ [];
  vbe_mode = 118 ∷ 98 ∷ 101 ∷ 95 ∷ 109 ∷ 111 ∷ 100 ∷ 101 ∷ [];
  radeon_off = 114 ∷ 97 ∷ 100 ∷ 101 ∷ 111 ∷ 110 ∷ 95 ∷ 111 ∷ 102 ∷ 102 ∷ [];
  pci_save = 112 ∷ 99 ∷ 105 ∷ 95 ∷ 115 ∷ 97 ∷ 118 ∷ 101 ∷ [];
  s3_bios = 115 ∷ 51 ∷ 95 ∷ 98 ∷ 105 ∷ 111 ∷ 115 ∷ [];
  s3_mode = 115 ∷ 51 ∷ 95 ∷ 109 ∷ 111 ∷ 100 ∷ 101 ∷ [];
  fb_nosuspend = 102 ∷ 98 ∷ 95 ∷ 110 ∷ 111 ∷ 115 ∷ 117 ∷ 115 ∷ 112 ∷ 101 ∷ 110 ∷ 100 ∷ [];
}

unfoldable pub s2ram_add_quirks : Options → List ℕ → Options
s2ram_add_quirks o text =
    let s = lower text in
    let f = o.flags in
    record o {
      flags = record f {
        vbe_post = f.vbe_post || contains s quirk_names.vbe_post;
        vbe_save = f.vbe_save || contains s quirk_names.vbe_save;
        vbe_mode = f.vbe_mode || contains s quirk_names.vbe_mode;
        radeon_off = f.radeon_off || contains s quirk_names.radeon_off;
        pci_save = f.pci_save || contains s quirk_names.pci_save;
        s3_bios = f.s3_bios || contains s quirk_names.s3_bios;
        s3_mode = f.s3_mode || contains s quirk_names.s3_mode;
      };
      fb_nosuspend = o.fb_nosuspend || contains s quirk_names.fb_nosuspend;
    }

-- The configuration file: none, or what `parse` returns with the two values that it reads.
pub record ConfigFile : Type 0 where
  pub error : Code
  pub s2ram_force : ℕ
  pub s2ram_quirks : List ℕ

abbrev pub quirks_of : Options → List ℕ → Options
quirks_of o [] = o
quirks_of o (c ∷ s) = s2ram_add_quirks o (c ∷ s)

unfoldable pub get_s2ram_config : Option ConfigFile → Options → Code × Options
get_s2ram_config none o = (negative enoent, o)
get_s2ram_config (some c) o =
    if is_zero c.error
    then (if c.s2ram_force == 121
        then (plain 0, quirks_of (record o { force = true }) c.s2ram_quirks)
        else (negative 1, o))
    else (c.error, o)

-- "card0-" in front of a name in /sys/class/drm.
abbrev pub has_card : List (List ℕ) → Bool
has_card [] = false
has_card (d ∷ ds) = starts_with d (99 ∷ 97 ∷ 114 ∷ 100 ∷ 48 ∷ 45 ∷ []) || has_card ds

-- A directory that does not open gives the positive errno, which `opendir` sets: `errno` + 1 here, as
-- it is not 0.
unfoldable pub s2ram_check_kms : Option (List (List ℕ)) → ℕ → Code
s2ram_check_kms none errno = plain (suc errno)
s2ram_check_kms (some names) errno = if has_card names then plain 0 else negative enoent
