-- ===== src/Swap/Save.antt =====
-- A page that `encrypt_and_save_page` of suspend.c saves with success: where it goes and what comes
-- out of the cipher for it.
use suspend.Common.{
  ℕ, ◌≡◌, ◌≢◌, refl, inl, inr, Bool, true, Bool-cases, ◌∷◌, ◌==◌, ==_false→ne, ◌∙◌, ap, sym, subst,
}
use suspend.SwapAlloc.{SwapDevice}
use suspend.Swap.{Status, ok, enospc, Format, Disk, write_page}
use suspend.Swap.Writer.{Writer, next_swap_page, stored, store_page, save_page}
use suspend.Swap.Advance.{write_page_ok}
use suspend.Swap.Run.{Cipher, Saver, keep, save_encrypted, encrypt_and_save_page, decrypted}

pair_eq : {A B : Type 0} {x : A × B} {a : A} {b : B} → x.0 ≡ a → x.1 ≡ b → x ≡ (a, b)
pair_eq p q = λ i. (p i, q i)

module _ (k : SwapDevice) (format : Format) (write_ok : ℕ → Bool) (page max : ℕ)
    (do_compress : Bool) where
  open k use {State}
  open format use {Page}

  -- The writer has written the page `q` to the offset `o` and is otherwise as before.
  pub record IsStored (w : Writer State Page) (o : ℕ) (q : Page) (w' : Writer State Page)
      : Type 0 where
    pub nonzero : o ≢ 0
    pub extents : w'.extents ≡ w.extents
    pub count : w'.nr_extents ≡ w.nr_extents
    pub idx : w'.cur_extent_idx ≡ w.cur_extent_idx
    pub offset : w'.cur_offset ≡ w.cur_offset
    pub spc : w'.extents_spc ≡ w.extents_spc
    pub disk : w'.disk ≡ record (w.disk) { writes = (o, q) ∷ w.disk.writes }

  stored_status :
      (w : Writer State Page) (x : Status × Disk Page)
      → (stored k format write_ok page max do_compress w x).0 ≡ x.0
  stored_status w (ok, d) = refl
  stored_status w (_, d) = refl

  store_page-IsStored :
      (w : Writer State Page) (q : Page) (o : ℕ)
      → (store_page k format write_ok page max do_compress w q o).0 ≡ ok
      → IsStored w o q (store_page k format write_ok page max do_compress w q o).1
  unfolding store_page
  store_page-IsStored w q o h =
      let r = write_page write_ok w.disk q o in
      let e : r.0 ≡ ok = sym (stored_status w r) ∙ h in
      let (ne, d) = write_page_ok write_ok w.disk q o e in
      subst
        (λ (x : Status × Disk Page).
          IsStored w o q (stored k format write_ok page max do_compress w x).1)
        (sym (pair_eq e d))
        (record {
          nonzero = ne;
          extents = refl;
          count = refl;
          idx = refl;
          offset = refl;
          spc = refl;
          disk = refl;
        })

  pub save_page-IsStored :
      (w : Writer State Page) (q : Page)
      → (save_page k format write_ok page max do_compress w q).0 ≡ ok
      → ((next_swap_page k format write_ok page max do_compress w).0 ≢ 0)
        × IsStored
            (next_swap_page k format write_ok page max do_compress w).1
            (next_swap_page k format write_ok page max do_compress w).0
            q
            (save_page k format write_ok page max do_compress w q).1
  unfolding save_page
  save_page-IsStored w q h =
      elim (Bool-cases ((next_swap_page k format write_ok page max do_compress w).0 == 0)) [
        | inl t ↦ let e : enospc ≡ ok = rw (t, save_page) at h in absurd (cc)
        | inr t ↦ rw t (==_false→ne _ _ t, store_page-IsStored _ q _ (rw (t, save_page) at h))
      ]

  module _ (cipher : Cipher Page) (buf_size : ℕ) (do_encrypt : Bool) where
    -- What a saved page leaves: the page `q`, which is decrypted to `p`, at the next offset.
    pub record IsPageSaved (s : Saver k format cipher) (p : Page) (s' : Saver k format cipher)
        : Type 0 where
      pub page_out : Page
      pub found : (next_swap_page k format write_ok page max do_compress s.writer).0 ≢ 0
      pub store :
          IsStored
            (next_swap_page k format write_ok page max do_compress s.writer).1
            (next_swap_page k format write_ok page max do_compress s.writer).0
            page_out
            s'.writer
      pub decrypt :
          ((disk : Disk Page) (read_ok : ℕ → Bool)
            → decrypted k format cipher read_ok page max do_encrypt disk s.state (ok, page_out)
              ≡ (ok, p, s'.state))

    encrypted_status :
        (s : Saver k format cipher) (x : Status × Page × cipher.State)
        → (save_encrypted k format cipher write_ok page max buf_size do_compress do_encrypt s x).0
          ≡ ok
        → x.0 ≡ ok
    encrypted_status s (ok, q, c) h = refl
    encrypted_status s (_, q, c) h = h

    encrypted-IsPageSaved :
        (s : Saver k format cipher) (p q : Page) (c : cipher.State)
        → do_encrypt ≡ true
        → cipher.encrypt s.state p ≡ (ok, q, c)
        → (save_encrypted k format cipher write_ok page max buf_size do_compress do_encrypt s
            (ok, q, c)).0
          ≡ ok
        → IsPageSaved s p
            (save_encrypted k format cipher write_ok page max buf_size do_compress do_encrypt s
              (ok, q, c)).1
    encrypted-IsPageSaved s p q c t e h =
        let (ne, st) = save_page-IsStored s.writer q h in
        record {
          page_out = q;
          found = ne;
          store = st;
          decrypt = λ disk read_ok. rw t (cipher.decrypt-encrypt s.state p q c e);
        }

    pub encrypt_and_save_page-IsPageSaved :
        (s : Saver k format cipher) (p : Page)
        → (encrypt_and_save_page k format cipher write_ok page max buf_size do_compress do_encrypt s
            p).0
          ≡ ok
        → IsPageSaved s p
            (encrypt_and_save_page k format cipher write_ok page max buf_size do_compress do_encrypt
              s p).1
    unfolding encrypt_and_save_page
    encrypt_and_save_page-IsPageSaved s p h = elim (Bool-cases do_encrypt) [
      | inl t ↦
          let x = cipher.encrypt s.state p in
          let u : encrypt_and_save_page k format cipher write_ok page max buf_size do_compress
                do_encrypt s p
              ≡ save_encrypted k format cipher write_ok page max buf_size do_compress do_encrypt s
                  x =
            rw t refl in
          let h' = sym (ap (λ y. y.0) u) ∙ h in
          let e : x ≡ (ok, x.1, x.2) = (λ i. (encrypted_status s x h' i, x.1, x.2)) in
          subst (λ y. IsPageSaved s p y.1)
            (sym (
              u
              ∙ ap
                  (save_encrypted k format cipher write_ok page max buf_size do_compress do_encrypt
                    s)
                  e))
            (encrypted-IsPageSaved s p x.1 x.2 t e (
              sym (
                ap
                  (λ y.
                    (save_encrypted k format cipher write_ok page max buf_size do_compress
                      do_encrypt s y).0)
                  e)
              ∙ h'))
      | inr t ↦
          let u : encrypt_and_save_page k format cipher write_ok page max buf_size do_compress
                do_encrypt s p
              ≡ keep k format cipher write_ok page max buf_size do_compress do_encrypt s
                  (save_page k format write_ok page max do_compress s.writer p) =
            rw t refl in
          let (ne, st) = save_page-IsStored s.writer p (sym (ap (λ y. y.0) u) ∙ h) in
          subst (λ y. IsPageSaved s p y.1) (sym u)
            (record { page_out = p; found = ne; store = st; decrypt = λ disk read_ok. rw t refl })
    ]
