-- ===== src/Verify/Checked.antt =====
-- What a return of `read_or_verify` of load.c without an error says of the image.
use suspend.Common.{
  ℕ, ◌≡◌, ◌↔◌, ◌⊎◌, inl, inr, refl, Bool, true, false, Bool-cases, ◌||◌, ◌&&◌, not, List, [], ◌==◌,
  ==→eq, if◌then◌else◌, arith, ◌∙◌, sym, ap,
}
use suspend.Swap.{Status, ok, einval, efault, Disk, read_page}
use suspend.Verify.{
  ImageHeader, ImageLoader, compare_checksum, load_with, key_for, with_header, read_or_verify,
}

module _ {Page : Type 0} (header_of : Page → ImageHeader) (lzo_init : Bool) (md5 : List ℕ → ℕ)
    (i : ImageLoader Page) (read_ok : ℕ → Bool) (disk : Disk Page) (verify test : Bool) where
  -- Where the key comes from: from memory in the test modes, from the header otherwise.
  pub record HasKey (h : ImageHeader) (key : i.Key) : Type 0 where
    pub plain : h.encrypted ≡ false → key ≡ i.no_key
    pub in_memory : h.encrypted ≡ true → (verify ≡ true) ⊎ (test ≡ true) → i.set_iv ≡ (ok, key)
    pub restored : h.encrypted ≡ true → verify ≡ false → test ≡ false → i.restore_key h ≡ (ok, key)

  -- The pages were loaded as the header asks for, and the checksum of all that was read for them is
  -- right where it is compared.
  pub record IsChecked (h : ImageHeader) (ps : List Page) : Type 0 where
    pub key : i.Key
    pub bytes : List ℕ
    pub key_set : HasKey h key
    pub loaded : i.load_image h.compressed key h ≡ (ok, ps, bytes)
    pub decompresses : h.compressed ≡ true → lzo_init ≡ true
    pub checksum : (h.has_checksum ≡ true) ⊎ (verify ≡ true) → h.checksum ≡ md5 bytes

  abbrev chosen_key : Bool → Bool → Bool → ImageHeader → Status × i.Key
  chosen_key c v t h = if c then (if v || t then i.set_iv else i.restore_key h) else (ok, i.no_key)

  HasKey-chosen :
      (h : ImageHeader) (key : i.Key) (c v t : Bool)
      → h.encrypted ≡ c
      → verify ≡ v
      → test ≡ t
      → chosen_key c v t h ≡ (ok, key)
      → HasKey h key
  HasKey-chosen h key false v t e f g k = record {
    plain = λ _. sym (ap (λ x. x.1) k);
    in_memory = λ q. let z : false ≡ true = sym e ∙ q in absurd (cc);
    restored = λ q. let z : false ≡ true = sym e ∙ q in absurd (cc);
  }
  HasKey-chosen h key true true t e f g k = record {
    plain = λ q. let z : true ≡ false = sym e ∙ q in absurd (cc);
    in_memory = λ _ _. k;
    restored = λ _ q. let z : true ≡ false = sym f ∙ q in absurd (cc);
  }
  HasKey-chosen h key true false true e f g k = record {
    plain = λ q. let z : true ≡ false = sym e ∙ q in absurd (cc);
    in_memory = λ _ _. k;
    restored = λ _ _ q. let z : true ≡ false = sym g ∙ q in absurd (cc);
  }
  HasKey-chosen h key true false false e f g k = record {
    plain = λ q. let z : true ≡ false = sym e ∙ q in absurd (cc);
    in_memory = λ _ q. elim q [
      | inl x ↦ let z : false ≡ true = sym f ∙ x in absurd (cc)
      | inr x ↦ let z : false ≡ true = sym g ∙ x in absurd (cc)
    ];
    restored = λ _ _ _. k;
  }

  chosen-HasKey :
      (h : ImageHeader) (key : i.Key) (c v t : Bool)
      → h.encrypted ≡ c
      → verify ≡ v
      → test ≡ t
      → HasKey h key
      → chosen_key c v t h ≡ (ok, key)
  chosen-HasKey h key false v t e f g k = ap (λ x. (ok, x)) (sym (k.plain e))
  chosen-HasKey h key true true t e f g k = k.in_memory e (inl f)
  chosen-HasKey h key true false true e f g k = k.in_memory e (inr g)
  chosen-HasKey h key true false false e f g k = k.restored e f g

  compare_status :
      (h : ImageHeader) (r : Status × List Page × List ℕ) (ps : List Page)
      → compare_checksum header_of lzo_init md5 i read_ok disk verify test h r ≡ (ok, ps)
      → (bytes : List ℕ) × (r ≡ (ok, ps, bytes))
        × ((h.has_checksum ≡ true) ⊎ (verify ≡ true) → h.checksum ≡ md5 bytes)
  compare_status h (ok, qs, bytes) ps e = elim (Bool-cases (h.has_checksum || verify)) [
    | inl t ↦ elim (Bool-cases (h.checksum == md5 bytes)) [
      | inl u ↦
          let q : (ok, qs) ≡ (ok, ps) = rw (t, u) at e in
          (bytes, ap (λ x. (ok, x.1, bytes)) q, λ _. ==→eq _ _ u)
      | inr u ↦ let q : (einval, qs) ≡ (ok, ps) = rw (t, u) at e in absurd (cc)
    ]
    | inr t ↦
        let q : (ok, qs) ≡ (ok, ps) = rw t at e in
        (bytes, ap (λ x. (ok, x.1, bytes)) q, λ a. absurd (neither h.has_checksum verify t a))
  ]
    where
      neither : (a b : Bool) → (a || b) ≡ false → (a ≡ true) ⊎ (b ≡ true) → ⊥
      neither true b x y = absurd (cc)
      neither false true x y = absurd (cc)
      neither false false x (inl y) = absurd (cc)
      neither false false x (inr y) = absurd (cc)
  compare_status h (_, qs, bytes) ps e = absurd (cc)

  compare_right :
      (h : ImageHeader) (ps : List Page) (bytes : List ℕ)
      → ((h.has_checksum ≡ true) ⊎ (verify ≡ true) → h.checksum ≡ md5 bytes)
      → compare_checksum header_of lzo_init md5 i read_ok disk verify test h (ok, ps, bytes)
        ≡ (ok, ps)
  compare_right h ps bytes c = pick h.has_checksum verify refl refl
    where
      right : h.checksum ≡ md5 bytes → (h.checksum == md5 bytes) ≡ true
      right e = ground (arith, e)

      answer : Bool → Status × List Page
      answer b = if b then (einval, ps) else (ok, ps)

      pick :
          (a b : Bool)
          → h.has_checksum ≡ a
          → verify ≡ b
          → answer ((a || b) && not (h.checksum == md5 bytes)) ≡ (ok, ps)
      pick true b e f = rw (right (c (inl e))) refl
      pick false true e f = rw (right (c (inr f))) refl
      pick false false e f = refl

  load_status :
      (h : ImageHeader) (r : Status × i.Key) (ps : List Page)
      → r ≡ key_for header_of lzo_init md5 i read_ok disk verify test h
      → (h.compressed ≡ true → lzo_init ≡ true)
      → load_with header_of lzo_init md5 i read_ok disk verify test h r ≡ (ok, ps)
      → IsChecked h ps
  load_status h (ok, key) ps k z e =
      let (bytes, l, c) = compare_status h (i.load_image h.compressed key h) ps e in
      record {
        key = key;
        bytes = bytes;
        key_set = HasKey-chosen h key h.encrypted verify test refl refl refl (sym k);
        loaded = l;
        decompresses = z;
        checksum = c;
      }
  load_status h (_, key) ps k z e = absurd (cc)

  no_lzo : (c : Bool) → (c && not lzo_init) ≡ false → c ≡ true → lzo_init ≡ true
  no_lzo c t u = elim (Bool-cases lzo_init) [
    | inl v ↦ v
    | inr v ↦ let q : true ≡ false = rw (u, v) at t in absurd (cc)
  ]

  has_lzo : (c : Bool) → (c ≡ true → lzo_init ≡ true) → (c && not lzo_init) ≡ false
  has_lzo true z = rw (z refl) refl
  has_lzo false z = refl

  header_status :
      (r : Status × Page) (ps : List Page)
      → with_header header_of lzo_init md5 i read_ok disk verify test r ≡ (ok, ps)
      → (p : Page) × (r ≡ (ok, p)) × IsChecked (header_of p) ps
  header_status (ok, p) ps e = elim (Bool-cases ((header_of p).compressed && not lzo_init)) [
    | inl t ↦ let q : (efault, []) ≡ (ok, ps) = rw t at e in absurd (cc)
    | inr t ↦ (
      p,
      refl,
      load_status (header_of p)
          (key_for header_of lzo_init md5 i read_ok disk verify test (header_of p)) ps refl
          (no_lzo (header_of p).compressed t) (rw t at e),
    )
  ]
  header_status (_, p) ps e = absurd (cc)

  header_right :
      (p : Page) (ps : List Page)
      → IsChecked (header_of p) ps
      → with_header header_of lzo_init md5 i read_ok disk verify test (ok, p) ≡ (ok, ps)
  header_right p ps c =
      let h = header_of p in
      let key = chosen-HasKey h c.key h.encrypted verify test refl refl refl c.key_set in
      rw (has_lzo h.compressed c.decompresses) (
        ap (λ r. load_with header_of lzo_init md5 i read_ok disk verify test h r) key
        ∙ ap (λ r. compare_checksum header_of lzo_init md5 i read_ok disk verify test h r) c.loaded
        ∙ compare_right h ps c.bytes c.checksum)

  -- `read_or_verify` returns the pages `ps` without an error exactly if the page at `start` can be read
  -- and by its header: the key is the one in memory in the test modes and the one restored from the
  -- header otherwise, or none for an image that is not encrypted; LZO is there for a compressed
  -- image; the load of the image with that key succeeds with `ps`; and wherever the header or the
  -- caller asks for it, the checksum of all the bytes that were read into the buffer is that of the header.
  pub read_or_verify-IsChecked :
      (start : ℕ) (buf : Page) (ps : List Page)
      → (read_or_verify header_of lzo_init md5 i read_ok disk verify test start buf ≡ (ok, ps))
        ↔ ((p : Page) × (read_page read_ok disk buf start ≡ (ok, p)) × IsChecked (header_of p) ps)
  unfolding read_or_verify
  read_or_verify-IsChecked start buf ps = (
    λ e. header_status (read_page read_ok disk buf start) ps e,
    λ (p, r, c).
        ap (with_header header_of lzo_init md5 i read_ok disk verify test) r ∙ header_right p ps c,
  )
