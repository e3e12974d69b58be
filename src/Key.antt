-- ===== src/Key.antt =====
-- The key of an encrypted image: `decrypt_key` and `restore_key` of load.c. libgcrypt and MD5 are
-- parameters; what is taken from them and from the pool, and given back, is a log, the latest first.
pub mod Balance
mod Tests
use suspend.Common.{
  ℕ, zero, suc, ◌+◌, ◌*◌, ◌/◌, ◌%◌, Bool, true, false, List, [], ◌∷◌, ◌++◌, ◌==◌, leb, length, take,
  drop, if◌then◌else◌, Option, none, some, map,
}
use suspend.Swap.{Status, ok, enodata}

abbrev pub key_size : ℕ
key_size = 16

abbrev pub cipher_block : ℕ
cipher_block = 8

abbrev pub pk_cipher_block : ℕ
pk_cipher_block = 16

abbrev pub rsa_fields : ℕ
rsa_fields = 6

abbrev pub rsa_fields_pub : ℕ
rsa_fields_pub = 2

pub data Kind : Type 0 where
  cipher mpi sexp buffer : Kind

pub data Event : Type 0 where
  taken given : Kind → Event

-- The calls that set a key and a vector: for the test of what is typed at an index, for the second
-- cipher of `decrypt_key`, and for the cipher of the image.
pub data Setting : Type 0 where
  for_test : ℕ → Setting
  for_rsa for_image : Setting

-- The answers of libgcrypt, at each call its own: `cipher_open` is asked for the first and the second
-- time, a test of a passphrase goes by its index, and so do the fields of the RSA data; `test_block`
-- encrypts KEY_TEST_DATA, and `main_key` is what `gcry_mpi_aprint` prints.
pub record Gcry : Type 0 where
  pub cipher_open : ℕ → Status
  pub setkey : Setting → List ℕ → Status
  pub setiv : Setting → List ℕ → Status
  pub test_block : ℕ → List ℕ → List ℕ → Status × List ℕ
  pub decrypt_field : ℕ → Status
  pub scan_field : ℕ → Status
  pub build_private : Status
  pub scan_key : Status
  pub build_cipher : Status
  pub pk_decrypt : Status
  pub main_key : List ℕ
  pub image_open : Status
  pub md5 : List ℕ → List ℕ

abbrev pub Result : Type 0
Result = Status × List ℕ × List Event

-- The rest is done only after success.
abbrev pub and_then : Status → Status → Status
and_then ok e = e
and_then e _ = e

abbrev pub if_ok : Status → List Event → Result → Result
if_ok ok l rest = rest
if_ok e l rest = (e, [], l)

-- What lies between a resource and the label that gives it back.
abbrev pub held : Kind → (List Event → Result) → List Event → Result
held k body l = let (e, key, l') = body (taken k ∷ l) in (e, key, given k ∷ l')

-- `strncpy` to a block of zeros.
abbrev pub padded : ℕ → List ℕ → List ℕ
padded zero p = []
padded (suc n) [] = 0 ∷ padded n []
padded (suc n) (c ∷ p) = c ∷ padded n p

abbrev pub same_bytes : List ℕ → List ℕ → Bool
same_bytes [] [] = true
same_bytes (a ∷ x) (b ∷ y) = if a == b then same_bytes x y else false
same_bytes [] (b ∷ y) = false
same_bytes (a ∷ x) [] = false

module _ (g : Gcry) (key_test : List ℕ) where
  -- The test of a passphrase: an error, or whether it is right.
  abbrev pub test_passphrase : ℕ → List ℕ → Status × Bool
  test_passphrase i p =
      let iv = padded pk_cipher_block p in
      let (e, out) = g.test_block i (g.md5 p) iv in
      (
        and_then (g.setkey (for_test i) (g.md5 p)) (and_then (g.setiv (for_test i) iv) e),
        same_bytes out key_test,
      )

  abbrev pub tested : List ℕ → Status × Bool → Option (Status × List ℕ) → Option (Status × List ℕ)
  tested p (ok, right) rest = if right then some (ok, p) else rest
  tested p (e, right) rest = some (e, p)

  -- The loop that asks for the passphrase, from the test with the index `i` on; none if what is typed
  -- ends before it is right.
  unfoldable pub ask : ℕ → List (List ℕ) → Option (Status × List ℕ)
  ask i [] = none
  ask i (p ∷ ps) = tested p (test_passphrase i p) (ask (i + 1) ps)

  abbrev pub field_status : ℕ → Status
  field_status mi =
      if leb rsa_fields_pub mi
      then and_then (g.decrypt_field mi) (g.scan_field mi)
      else g.scan_field mi

  abbrev pub scan_on : Status → ℕ → List Event → Status × ℕ × List Event → Status × ℕ × List Event
  scan_on ok mi l rest = rest
  scan_on e mi l rest = (e, mi, l)

  -- `n` more of the RSA parameters, from the one with index `mi` on.
  unfoldable pub scan_fields : ℕ → ℕ → List Event → Status × ℕ × List Event
  scan_fields zero mi l = (ok, mi, l)
  scan_fields (suc n) mi l = scan_on (field_status mi) mi l (scan_fields n (mi + 1) (taken mpi ∷ l))

  unfoldable pub release_mpis : ℕ → List Event → List Event
  release_mpis zero l = l
  release_mpis (suc j) l = release_mpis j (given mpi ∷ l)

  abbrev pub main_key : List Event → Result
  main_key l =
      if length g.main_key == key_size + cipher_block then (ok, g.main_key, l) else (enodata, [], l)

  -- From the parsed number to the main key; the number is not needed once `rsa_ciph` is built.
  abbrev pub with_plain : List Event → Result
  with_plain l = main_key (given mpi ∷ (taken mpi ∷ l))

  abbrev pub with_ciph : List Event → Result
  with_ciph l = if_ok g.pk_decrypt l (held sexp with_plain l)

  abbrev pub with_number : List Event → Result
  with_number l =
      let l' = given mpi ∷ (taken mpi ∷ l) in if_ok g.build_cipher l' (held sexp with_ciph l')

  abbrev pub with_private : List Event → Result
  with_private l = if_ok g.scan_key l (with_number l)

  abbrev pub built : Status × ℕ × List Event → Result
  built (e, n, l) =
      let status = and_then e g.build_private in
      let l' = release_mpis n l in if_ok status l' (held sexp with_private l')

  abbrev pub with_second : List ℕ → List Event → Result
  with_second p l =
      if_ok (and_then (g.setkey for_rsa (g.md5 p)) (g.setiv for_rsa (padded pk_cipher_block p))) l
        (built (scan_fields rsa_fields 0 l))

  -- The first cipher is closed after the test, the second serves for the RSA parameters.
  abbrev pub with_passphrase : Status × List ℕ → List Event → Result
  with_passphrase (e, p) l =
      if_ok (and_then e (g.cipher_open 1)) (given cipher ∷ l)
        (held cipher (with_second p) (given cipher ∷ l))

  abbrev pub with_buffers : Status × List ℕ → List Event → Result
  with_buffers x l = held buffer (held buffer (held buffer (with_passphrase x))) l

  abbrev pub asked : Option (Status × List ℕ) → List Event → Option Result
  asked none l = none
  asked (some x) l = some (with_buffers x l)

  abbrev pub opened : Status → List (List ℕ) → List Event → Option Result
  opened ok typed l = asked (ask 0 typed) (taken cipher ∷ l)
  opened e typed l = some (e, [], l)

  unfoldable pub decrypt_key : List (List ℕ) → List Event → Option Result
  decrypt_key typed l = opened (g.cipher_open 0) typed l

  -- The exclusive or of two numbers below `2 ^ n`, and of a block with another.
  abbrev pub xor : ℕ → ℕ → ℕ → ℕ
  xor zero a b = 0
  xor (suc n) a b = (a % 2 + b % 2) % 2 + 2 * xor n (a / 2) (b / 2)

  abbrev pub xor_block : List ℕ → List ℕ → List ℕ
  xor_block [] salt = []
  xor_block (a ∷ x) [] = a ∷ x
  xor_block (a ∷ x) (b ∷ salt) = xor 8 a b ∷ xor_block x salt

  -- The cipher of the image stays open with the key and the vector set, or is closed again.
  abbrev pub started : Status → List Event → Status × List Event
  started ok l = (ok, taken cipher ∷ l)
  started e l = (e, given cipher ∷ (taken cipher ∷ l))

  abbrev pub with_cipher : Status → Status → List Event → Status × List Event
  with_cipher ok e l = started e l
  with_cipher e _ l = (e, l)

  abbrev pub start_cipher : List ℕ → List ℕ → List Event → Status × List Event
  start_cipher key ivec l =
      with_cipher g.image_open (and_then (g.setkey for_image key) (g.setiv for_image ivec)) l

  abbrev pub after_key : Result → Status × List Event
  after_key (ok, key, l) = start_cipher (take key_size key) (drop key_size key) l
  after_key (e, key, l) = (e, l)

  abbrev pub after_rsa : Option Result → Option (Status × List Event)
  after_rsa none = none
  after_rsa (some r) = some (after_key r)

  -- `encrypt_init` on the passphrase, and the salt of the image.
  abbrev pub from_passphrase : List ℕ → List (List ℕ) → List Event → Option (Status × List Event)
  from_passphrase salt [] l = none
  from_passphrase salt (p ∷ ps) l =
      some (start_cipher (g.md5 p) (xor_block (padded cipher_block p) salt) l)

  unfoldable pub restore_key :
      Bool → List ℕ → List (List ℕ) → List Event → Option (Status × List Event)
  restore_key use_rsa salt typed l =
      if use_rsa then after_rsa (decrypt_key typed l) else from_passphrase salt typed l
