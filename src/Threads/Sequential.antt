-- ===== src/Threads/Sequential.antt =====
-- The threads of suspend.c against the loop of `flush_buffer` that does without them.
use suspend.Common.{
  ℕ, ◌<◌, ◌≡◌, refl, Bool, inl, inr, Bool-cases, List, [], ◌∷◌, ap, subst, sym, ◌∙◌, leb,
  if◌then◌else◌, ◌+◌,
}
use suspend.SwapAlloc.{SwapDevice}
use suspend.Swap.{Status, ok, Format}
use suspend.Swap.Writer.{Writer, save_page}
use suspend.Swap.Run.{
  Cipher, Saver, keep, save_encrypted, encrypt_and_save_page, after_page, save_pages,
}
use suspend.Threads.{System, started, Reach, IsFinished}
use suspend.Threads.Stream.{prepare, Prepares, Saves}
use suspend.Threads.Finish.{finished_pages}

module _ (k : SwapDevice) (format : Format) (cipher : Cipher format.Page) (write_ok : ℕ → Bool)
    (page max buf_size : ℕ) (do_compress do_encrypt : Bool) where
  abbrev Out : Type 0
  Out = Writer k.State format.Page

  abbrev save : Out → format.Page → Status × Out
  save w p = save_page k format write_ok page max do_compress w p

  -- `save_page` on the page that the cipher makes is `encrypt_and_save_page`.
  one_page :
      (s : Saver k format cipher) (p q : format.Page) (d : cipher.State) (v : Out)
      → prepare cipher.State Out format.Page do_encrypt cipher.encrypt save s.state p ≡ (ok, q, d)
      → save s.writer q ≡ (ok, v)
      → (s' : Saver k format cipher) × (encrypt_and_save_page k format cipher write_ok page max
            buf_size do_compress do_encrypt s p
          ≡ (ok, s'))
        × (s'.writer ≡ v)
        × (s'.state ≡ d)
  unfolding encrypt_and_save_page
  one_page s p q d v e w = elim (Bool-cases do_encrypt) [
    | inl t ↦
        let next = s.encrypt_ptr + page in
        let x : encrypt_and_save_page k format cipher write_ok page max buf_size do_compress
              do_encrypt s p
            ≡ save_encrypted k format cipher write_ok page max buf_size do_compress do_encrypt s
                (cipher.encrypt s.state p) =
          rw t refl in
        let e' : cipher.encrypt s.state p ≡ (ok, q, d) = rw t at e in
        (
          record { writer = v; state = d; encrypt_ptr = if leb buf_size next then 0 else next },
          x
              ∙ ap
                  (save_encrypted k format cipher write_ok page max buf_size do_compress do_encrypt
                    s)
                  e'
              ∙ ap
                  (keep k format cipher write_ok page max buf_size do_compress do_encrypt
                    (record s { state = d; encrypt_ptr = if leb buf_size next then 0 else next }))
                  w,
          refl,
          refl,
        )
    | inr t ↦
        let x : encrypt_and_save_page k format cipher write_ok page max buf_size do_compress
              do_encrypt s p
            ≡ keep k format cipher write_ok page max buf_size do_compress do_encrypt s
                (save s.writer p) =
          rw t refl in
        let e' : (ok, p, s.state) ≡ (ok, q, d) = rw t at e in
        (
          record s { writer = v },
          x
              ∙ ap (keep k format cipher write_ok page max buf_size do_compress do_encrypt s)
                  (ap (λ y. save s.writer y.1) e' ∙ w),
          refl,
          ap (λ y. y.2) e',
        )
  ]

  all_pages :
      (s : Saver k format cipher) (ps qs : List format.Page) (d : cipher.State) (v : Out)
      → Prepares cipher.State Out format.Page do_encrypt cipher.encrypt save s.state ps qs d
      → Saves cipher.State Out format.Page do_encrypt cipher.encrypt save s.writer qs v
      → (s' : Saver k format cipher) × (save_pages k format cipher write_ok page max buf_size
            do_compress do_encrypt s ps
          ≡ (ok, s'))
        × (s'.writer ≡ v)
        × (s'.state ≡ d)
  unfolding save_pages
  all_pages s [] qs d v (h, g) w = (
    s,
    refl,
    subst (λ y. Saves cipher.State Out format.Page do_encrypt cipher.encrypt save s.writer y v) h w,
    g,
  )
  all_pages s (p ∷ ps) [] d v h w = absurd h
  all_pages s (p ∷ ps) (q ∷ qs) d v (d', e, h) (v', f, g) =
      let (s', x, a, c) = one_page s p q d' v' e f in
      let (u, y, i, j) =
        all_pages s' ps qs d v
          (subst
            (λ y. Prepares cipher.State Out format.Page do_encrypt cipher.encrypt save y ps qs d)
            (sym c) h)
          (subst (λ y. Saves cipher.State Out format.Page do_encrypt cipher.encrypt save y qs v)
            (sym a) g) in
      (
        u,
        ap
              (λ r. after_page k format cipher write_ok page max buf_size do_compress do_encrypt r (
                save_pages k format cipher write_ok page max buf_size do_compress do_encrypt r.1
                  ps))
              x
            ∙ y,
        i,
        j,
      )

  -- When the threads have finished, they have saved what the loop of `flush_buffer` saves that encrypts
  -- and saves the same pages one after another, and the loop succeeds as well.
  pub finished-save_pages :
      (n b : ℕ) (e₀ : Status) (wb : ℕ → List format.Page) (eb : ℕ → format.Page)
      (s₀ : Saver k format cipher)
      → 0 < n
      → 0 < b
      → (s : System cipher.State Out format.Page n b do_encrypt cipher.encrypt save)
      → Reach cipher.State Out format.Page n b do_encrypt cipher.encrypt save
          (started cipher.State Out format.Page n b do_encrypt cipher.encrypt save e₀ wb eb s₀.state
            s₀.writer)
          s
      → IsFinished cipher.State Out format.Page n b do_encrypt cipher.encrypt save s
      → (s' : Saver k format cipher) × (save_pages k format cipher write_ok page max buf_size
            do_compress do_encrypt s₀ s.mem.handed
          ≡ (ok, s'))
        × (s'.writer ≡ s.mem.writer)
        × (s'.state ≡ s.mem.cipher)
  finished-save_pages n b e₀ wb eb s₀ n_pos b_pos s r h =
      let (qs, p, w) =
        finished_pages cipher.State Out format.Page n b do_encrypt cipher.encrypt save e₀ wb eb
          s₀.state s₀.writer n_pos b_pos s r h in
      all_pages s₀ s.mem.handed qs s.mem.cipher s.mem.writer p w
