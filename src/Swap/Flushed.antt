-- ===== src/Swap/Flushed.antt =====
-- Saving an image through the buffer of `save_image` is saving its pages one after another.
use suspend.Common.{
  ℕ, ◌+◌, ◌%◌, ◌≡◌, refl, inl, inr, Bool, false, Bool-cases, List, [], ◌∷◌, ◌++◌, map, concat,
  append_assoc, append-nil, ◌==◌, leb, length, if◌then◌else◌, ap, ap₂, sym, ◌∙◌,
}
use suspend.SwapAlloc.{SwapDevice}
use suspend.Swap.{Status, ok, Format}
use suspend.Swap.Run.{Cipher, Saver, after_page, save_pages, after_pages, encrypt_and_save_page}
use suspend.Swap.Flush.{
  Read, page_read, end_read, Key, press_keys, message_pages, Sending, compressed, flush,
  flush_buffer, after_flush, pressed, image_loop, finish_image, save_image,
}

-- The pages in buffers of `n`, behind those that are in the buffer already.
abbrev pub chunks {ℓ} : {A : Type ℓ} → ℕ → List A → List A → List (List A)
chunks n [] [] = []
chunks n (b ∷ bs) [] = (b ∷ bs) ∷ []
chunks n bs (p ∷ ps) =
    let full = bs ++ (p ∷ []) in
    let next = chunks n [] ps in
    let on = chunks n full ps in if leb n (length full) then full ∷ next else on

concat-chunks : {A : Type 0} (n : ℕ) (bs ps : List A) → concat (chunks n bs ps) ≡ bs ++ ps
concat-chunks n [] [] = refl
concat-chunks n (b ∷ bs) [] = refl
concat-chunks n bs (p ∷ ps) = elim (Bool-cases (leb n (length (bs ++ (p ∷ []))))) [
  | inl t ↦
      rw t (ap (λ x. (bs ++ (p ∷ [])) ++ x) (concat-chunks n [] ps) ∙ append_assoc bs (p ∷ []) ps)
  | inr t ↦ rw t (concat-chunks n (bs ++ (p ∷ [])) ps ∙ append_assoc bs (p ∷ []) ps)
]

module _ (k : SwapDevice) (format : Format) (cipher : Cipher format.Page) (write_ok : ℕ → Bool)
    (page max buf_size : ℕ) (do_compress do_encrypt : Bool) where
  open format use {Page}

  abbrev save : Saver k format cipher → List Page → Status × Saver k format cipher
  save s ps = save_pages k format cipher write_ok page max buf_size do_compress do_encrypt s ps

  abbrev then_save :
      Status × Saver k format cipher
      → Status × Saver k format cipher
      → Status × Saver k format cipher
  then_save x y = after_page k format cipher write_ok page max buf_size do_compress do_encrypt x y

  chain :
      (x y : Status × Saver k format cipher)
      (f : Saver k format cipher → Status × Saver k format cipher)
      → then_save x (then_save y (f y.1)) ≡ then_save (then_save x y) (f (then_save x y).1)
  chain (ok, s) y f = refl
  chain (_, s) y f = refl

  -- Two lists in turn.
  save_pages-append :
      (s : Saver k format cipher) (ps qs : List Page)
      → save s (ps ++ qs) ≡ then_save (save s ps) (save (save s ps).1 qs)
  unfolding save_pages
  save_pages-append s [] qs = refl
  save_pages-append s (p ∷ ps) qs =
      let x =
        encrypt_and_save_page k format cipher write_ok page max buf_size do_compress do_encrypt s
          p in
      ap (then_save x) (save_pages-append x.1 ps qs) ∙ chain x (save x.1 ps) (λ v. save v qs)

  module _ (lzo1x_compress : List Page → List Page) where
    abbrev pack : List Page → List Page
    pack ps =
        compressed k format cipher write_ok page max buf_size do_compress do_encrypt lzo1x_compress
          ps

    abbrev Out : Type 0
    Out = Sending k format cipher write_ok page max buf_size do_compress do_encrypt lzo1x_compress

    abbrev finish : Status × Saver k format cipher → Status × Saver k format cipher
    finish x = after_pages k format cipher write_ok page max buf_size do_compress do_encrypt x

    abbrev end : Status × Out → Status × Saver k format cipher
    end x =
        finish_image k format cipher write_ok page max buf_size do_compress do_encrypt
          lzo1x_compress x

    flush_cons :
        (s : Saver k format cipher) (bs : List Page) (p : Page)
        → flush k format cipher write_ok page max buf_size do_compress do_encrypt lzo1x_compress s
            (bs ++ (p ∷ []))
          ≡ save s (pack (bs ++ (p ∷ [])))
    flush_cons s [] p = refl
    flush_cons s (b ∷ bs) p = refl

    -- The end of the loop saves what is left.
    end_lem :
        (v : Saver k format cipher) (n : ℕ) (bs : List Page)
        → finish (
            flush k format cipher write_ok page max buf_size do_compress do_encrypt lzo1x_compress v
              bs)
          ≡ finish (save v (concat (map pack (chunks n bs []))))
    unfolding save_pages
    end_lem v n [] = refl
    end_lem v n (b ∷ bs) = ap (λ ps. finish (save v ps)) (sym (append-nil (pack (b ∷ bs))))

    -- An error of one buffer ends the image; otherwise the rest follows.
    flushed_lem :
        (x y : Status × Saver k format cipher) (s : Out) (rest : Status × Out)
        → (x.0 ≡ ok → end rest ≡ finish y)
        → end (
            after_flush k format cipher write_ok page max buf_size do_compress do_encrypt
              lzo1x_compress x s rest)
          ≡ finish (then_save x y)
    flushed_lem (ok, v) y s rest h = h refl
    flushed_lem (_, v) y s rest h = refl

    module _ (buffer_pages m : ℕ) (abort_possible : Bool) (keys : ℕ → List Key)
        (quiet : (i : ℕ) (r : Bool) → (press_keys abort_possible (keys i) r).0 ≡ false) where
      not_pressed :
          (nr : ℕ) (r : Bool)
          → (pressed k format cipher write_ok page max buf_size do_compress do_encrypt
              lzo1x_compress buffer_pages m abort_possible keys nr r).0
            ≡ false
      not_pressed nr r = elim (Bool-cases (nr % m == 0)) [
        | inl t ↦ rw t (quiet nr r)
        | inr t ↦ rw t refl
      ]

      run : List (Read Page) → ℕ → Out → Status × Out
      run rs nr s =
          image_loop k format cipher write_ok page max buf_size do_compress do_encrypt
            lzo1x_compress buffer_pages m abort_possible keys rs nr s

      loop_lem :
          (ps : List Page) (rs : List (Read Page)) (nr : ℕ) (s : Out)
          → end (run (map page_read ps ++ (end_read ∷ rs)) nr s)
            ≡ finish (save s.saver (concat (map pack (chunks buffer_pages s.buffer ps))))
      unfolding run image_loop flush_buffer
      loop_lem [] rs nr s = end_lem s.saver buffer_pages s.buffer
      loop_lem (p ∷ ps) rs nr s =
          let full = s.buffer ++ (p ∷ []) in
          let r =
            (pressed k format cipher write_ok page max buf_size do_compress do_encrypt
              lzo1x_compress buffer_pages m abort_possible keys nr s.reboot).1 in
          let s' : Out = record s { buffer = full; reboot = r } in
          let x =
            flush k format cipher write_ok page max buf_size do_compress do_encrypt lzo1x_compress
              s.saver full in
          let e = flush_cons s.saver s.buffer p in
          elim (Bool-cases (leb buffer_pages (length full))) [
            | inl t ↦
                rw (not_pressed nr s.reboot, t)
                  (flushed_lem x (save x.1 (concat (map pack (chunks buffer_pages [] ps)))) s'
                      (run (map page_read ps ++ (end_read ∷ rs)) (nr + 1)
                        (record s' { saver = x.1; buffer = [] }))
                      (λ _. loop_lem ps rs (nr + 1) (record s' { saver = x.1; buffer = [] }))
                    ∙ ap
                        (λ y.
                          finish (
                            then_save y (save y.1 (concat (map pack (chunks buffer_pages [] ps))))))
                        e
                    ∙ ap finish (
                        sym (
                          save_pages-append s.saver (pack full)
                            (concat (map pack (chunks buffer_pages [] ps))))))
            | inr t ↦ rw (not_pressed nr s.reboot, t) (loop_lem ps rs (nr + 1) s')
          ]

    module _ (buffer_pages nr_pages : ℕ) (abort_possible : Bool) (keys : ℕ → List Key)
        (quiet : (i : ℕ) (r : Bool) → (press_keys abort_possible (keys i) r).0 ≡ false) where
      -- If the image is not aborted, `save_image` saves the pages it reads, behind those in the buffer, one buffer
      -- after another, each as LZO compresses it with compression, and then the last
      -- table; it fails where saving these pages in a row does, with the same state.
      pub save_image-chunks :
          (ps : List Page) (rs : List (Read Page)) (s : Out)
          → save_image k format cipher write_ok page max buf_size do_compress do_encrypt
              lzo1x_compress buffer_pages abort_possible keys nr_pages
              (map page_read ps ++ (end_read ∷ rs))
              s
            ≡ finish (save s.saver (concat (map pack (chunks buffer_pages s.buffer ps))))
      unfolding save_image run
      save_image-chunks ps rs s =
          loop_lem buffer_pages (message_pages nr_pages) abort_possible keys quiet ps rs 0 s

      packed_same : do_compress ≡ false → (xs : List (List Page)) → map pack xs ≡ xs
      packed_same t [] = refl
      packed_same t (x ∷ xs) =
          let e : pack x ≡ x = rw t refl in ap₂ (λ y z. y ∷ z) e (packed_same t xs)

      -- Without compression the buffer makes no difference: `save_image` saves the pages as
      -- `encrypt_and_save_page` saves them one by one.
      pub save_image-save_pages :
          (ps : List Page) (rs : List (Read Page)) (s : Out)
          → do_compress ≡ false
          → save_image k format cipher write_ok page max buf_size do_compress do_encrypt
              lzo1x_compress buffer_pages abort_possible keys nr_pages
              (map page_read ps ++ (end_read ∷ rs))
              s
            ≡ finish (save s.saver (s.buffer ++ ps))
      save_image-save_pages ps rs s t =
          save_image-chunks ps rs s
          ∙ ap (λ x. finish (save s.saver x))
              (ap concat (packed_same t (chunks buffer_pages s.buffer ps))
                ∙ concat-chunks buffer_pages s.buffer ps)
