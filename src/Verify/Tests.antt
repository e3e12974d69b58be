-- ===== src/Verify/Tests.antt =====
-- A run of `read_or_verify` on an encrypted and compressed image of two pages.
use suspend.Common.{ℕ, ◌≡◌, ◌↔◌, refl, ◌+◌, true, false, List, [], ◌∷◌}
use suspend.Swap.{Status, ok, Disk, read_page}
use suspend.Verify.{ImageHeader, ImageLoader, read_or_verify}
use suspend.Verify.Checked.{IsChecked, read_or_verify-IsChecked}

data Block : Type 0 where
  top : ImageHeader → Block
  bytes : ℕ → Block

abbrev header_in : Block → ImageHeader
header_in (top h) = h
header_in (bytes n) = record {
  pages = n;
  has_checksum = false;
  compressed = false;
  encrypted = false;
  map_start = 0;
  image_data_size = 0;
  checksum = 0;
}

abbrev sum : List ℕ → ℕ
sum [] = 0
sum (n ∷ s) = n + sum s

abbrev two_pages : ImageLoader Block
two_pages = record {
  Key = ℕ;
  no_key = 0;
  restore_key = λ h. (ok, 5);
  set_iv = (ok, 6);
  load_image = λ c key h. (ok, bytes 3 ∷ bytes key ∷ [], 3 ∷ key ∷ 8 ∷ []);
}

abbrev stored : Disk Block
stored = record {
  writes =
      (
        16,
        top (record {
          pages = 2;
          has_checksum = true;
          compressed = true;
          encrypted = true;
          map_start = 32;
          image_data_size = 32;
          checksum = 16;
        }),
      )
      ∷ [];
  old = bytes;
}

-- The key from the header is 5, and the buffer holds more than the pages handed on.
abbrev outcome : Status × List Block
outcome = read_or_verify header_in true sum two_pages (λ o. true) stored false false 16 (bytes 0)

outcome_ok : outcome ≡ (ok, bytes 3 ∷ bytes 5 ∷ [])
unfolding read_or_verify read_page
outcome_ok = refl

read_or_verify-IsChecked_example : (outcome ≡ (ok, bytes 3 ∷ bytes 5 ∷ [])) ↔ (
    (p : Block) × (read_page (λ o. true) stored (bytes 0) 16 ≡ (ok, p))
    × IsChecked header_in true sum two_pages
        (λ o. true)
        stored
        false
        false
        (header_in p)
        (bytes 3 ∷ bytes 5 ∷ []))
read_or_verify-IsChecked_example =
    read_or_verify-IsChecked header_in true sum two_pages (λ o. true) stored false false 16
      (bytes 0) (bytes 3 ∷ bytes 5 ∷ [])
