-- ===== src/Key/Tests.antt =====
-- A key restored from RSA data after a wrong passphrase, and failures in the fourth parameter and for the
-- second cipher.
use suspend.Common.{ℕ, ◌≡◌, refl, true, List, [], ◌∷◌, ◌==◌, Option, none, some, if◌then◌else◌}
use suspend.Swap.{Status, ok, gcry}
use suspend.Key.{
  cipher, mpi, buffer, Event, taken, given, Setting, for_rsa, Gcry, Result, ask, scan_fields,
  release_mpis, decrypt_key, restore_key,
}
use suspend.Key.Balance.{IsBalanced, IsRestored, decrypt_key-IsBalanced, restore_key-IsRestored}

-- It encrypts the test data to the key.
abbrev library : Status → Gcry
library fourth = record {
  cipher_open = λ n. ok;
  setkey = λ s key. ok;
  setiv = λ s iv. ok;
  test_block = λ i key iv. (ok, key);
  decrypt_field = λ i. if i == 3 then fourth else ok;
  scan_field = λ i. ok;
  build_private = ok;
  scan_key = ok;
  build_cipher = ok;
  pk_decrypt = ok;
  main_key =
      1 ∷ 2 ∷ 3 ∷ 4 ∷ 5 ∷ 6 ∷ 7 ∷ 8 ∷ 9 ∷ 10 ∷ 11 ∷ 12 ∷ 13 ∷ 14 ∷ 15 ∷ 16 ∷ 17 ∷ 18 ∷ 19 ∷ 20 ∷ 21
      ∷ 22 ∷ 23 ∷ 24 ∷ [];
  image_open = ok;
  md5 = λ p. p;
}

abbrev attempts : List (List ℕ)
attempts = (1 ∷ []) ∷ (2 ∷ []) ∷ []

unfoldable restored : Option (Status × List Event)
restored = restore_key (library ok) (2 ∷ []) true [] attempts []

abbrev restored_of : Option (Status × List Event) → Status × List Event
restored_of none = (gcry 0, [])
restored_of (some x) = x

restored_some : restored ≡ some (ok, (restored_of restored).1)
unfolding restored restore_key decrypt_key ask scan_fields release_mpis
restored_some = refl

restore_key-IsRestored_example : IsRestored (library ok) (2 ∷ []) [] (ok, (restored_of restored).1)
unfolding restored
restore_key-IsRestored_example =
    restore_key-IsRestored (library ok) (2 ∷ []) true [] attempts [] restored_some

fourth_fails :
    decrypt_key (library (gcry 7)) (2 ∷ []) attempts []
    ≡ some (
      gcry 7,
      [],
      given buffer
          ∷ given buffer
          ∷ given buffer
          ∷ given cipher
          ∷ given mpi
          ∷ given mpi
          ∷ given mpi
          ∷ taken mpi
          ∷ taken mpi
          ∷ taken mpi
          ∷ taken cipher
          ∷ given cipher
          ∷ taken buffer
          ∷ taken buffer
          ∷ taken buffer
          ∷ taken cipher
          ∷ [],
    )
unfolding decrypt_key ask scan_fields release_mpis
fourth_fails = refl

-- The key that passed the test is refused for the second cipher.
abbrev refuse : Setting → Status
refuse for_rsa = gcry 9
refuse _ = ok

abbrev refusing : Gcry
refusing = record (library ok) { setkey = λ s key. refuse s }

unfoldable failed : Option Result
failed = decrypt_key refusing (2 ∷ []) attempts []

abbrev result_of : Option Result → Result
result_of none = (ok, [], [])
result_of (some r) = r

failed_some : failed ≡ some (gcry 9, [], (result_of failed).2)
unfolding failed decrypt_key ask scan_fields release_mpis
failed_some = refl

decrypt_key-IsBalanced_example : IsBalanced [] (result_of failed).2
unfolding failed
decrypt_key-IsBalanced_example = decrypt_key-IsBalanced refusing (2 ∷ []) attempts [] failed_some
