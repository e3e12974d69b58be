-- ===== src/Verify.antt =====
-- `read_or_verify` of load.c: the image header, what it asks for, the load of the image, and the
-- comparison of checksums. The layout of the header in its page, LZO, MD5 and libgcrypt are
-- parameters; `restore_key` and the load of the image are an interface.
pub mod Checked
mod Tests
use suspend.Common.{ℕ, Bool, true, false, ◌||◌, ◌&&◌, not, List, [], ◌∷◌, ◌==◌, if◌then◌else◌}
use suspend.Swap.{Status, ok, einval, efault, Disk, read_page}

-- struct image_header_info, with its flags apart; a checksum as one number.
pub record ImageHeader : Type 0 where
  pub pages : ℕ
  pub has_checksum : Bool
  pub compressed : Bool
  pub encrypted : Bool
  pub map_start : ℕ
  pub image_data_size : ℕ
  pub checksum : ℕ

-- The state of the cipher that `restore_key` sets from the header, and that the test modes set from
-- the key in memory; and `init_swap_reader` with `load_image`, given whether to decompress, which
-- gives the pages handed on and the bytes of every buffer that `load_buffer` read and hashed, those of
-- pages that are not handed on as well.
pub record ImageLoader (Page : Type 0) : Type 1 where
  pub Key : Type 0
  pub no_key : Key
  pub restore_key : ImageHeader → Status × Key
  pub set_iv : Status × Key
  pub load_image : Bool → Key → ImageHeader → Status × List Page × List ℕ

module _ {Page : Type 0} (header_of : Page → ImageHeader) (lzo_init : Bool) (md5 : List ℕ → ℕ)
    (i : ImageLoader Page) (read_ok : ℕ → Bool) (disk : Disk Page) (verify test : Bool) where
  open i use {Key, no_key, restore_key, set_iv, load_image}

  -- Whether the checksum is compared.
  abbrev pub verify_checksum : ImageHeader → Bool
  verify_checksum h = h.has_checksum || verify

  abbrev pub compare_checksum : ImageHeader → Status × List Page × List ℕ → Status × List Page
  compare_checksum h (ok, ps, bytes) =
      if verify_checksum h && not (h.checksum == md5 bytes) then (einval, ps) else (ok, ps)
  compare_checksum h (e, ps, bytes) = (e, ps)

  abbrev pub load_with : ImageHeader → Status × Key → Status × List Page
  load_with h (ok, key) = compare_checksum h (load_image h.compressed key h)
  load_with h (e, key) = (e, [])

  abbrev pub key_for : ImageHeader → Status × Key
  key_for h =
      if h.encrypted then (if verify || test then set_iv else restore_key h) else (ok, no_key)

  abbrev pub with_header : Status × Page → Status × List Page
  with_header (ok, p) =
      let h = header_of p in
      if h.compressed && not lzo_init then (efault, []) else load_with h (key_for h)
  with_header (e, p) = (e, [])

  -- The pages are those given to the snapshot device, or only read in the test modes. `buf` is what
  -- the memory for the header holds before.
  unfoldable pub read_or_verify : ℕ → Page → Status × List Page
  read_or_verify start buf = with_header (read_page read_ok disk buf start)
