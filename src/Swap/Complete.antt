-- ===== src/Swap/Complete.antt =====
-- `save_image` reports success only for an image that was read to its end.
use suspend.Common.{ℕ, ◌+◌, ◌≡◌, refl, inl, inr, Bool, Bool-cases, List, [], ◌∷◌, ◌++◌, leb, length}
use suspend.SwapAlloc.{SwapDevice}
use suspend.Swap.{Status, ok, Format}
use suspend.Swap.Run.{Cipher, Saver}
use suspend.Swap.Flush.{
  Read, page_read, end_read, error_read, short_read, Key, message_pages, Sending, flush_buffer,
  after_flush, pressed, image_loop, finish_image, save_image,
}

-- Only pages up to the end of the image.
abbrev pub IsComplete : {Page : Type 0} → List (Read Page) → Type 0
IsComplete [] = Unit {0}
IsComplete (end_read ∷ rs) = Unit {0}
IsComplete (page_read p ∷ rs) = IsComplete rs
IsComplete (error_read ∷ rs) = ⊥
IsComplete (short_read ∷ rs) = ⊥

module _ (k : SwapDevice) (format : Format) (cipher : Cipher format.Page) (write_ok : ℕ → Bool)
    (page max buf_size : ℕ) (do_compress do_encrypt : Bool)
    (lzo1x_compress : List format.Page → List format.Page) where
  open format use {Page}

  abbrev Out : Type 0
  Out = Sending k format cipher write_ok page max buf_size do_compress do_encrypt lzo1x_compress

  after_flush_ok :
      (x : Status × Saver k format cipher) (s : Out) (rest : Status × Out)
      → (after_flush k format cipher write_ok page max buf_size do_compress do_encrypt
          lzo1x_compress x s rest).0
        ≡ ok
      → rest.0 ≡ ok
  after_flush_ok (ok, v) s rest h = h
  after_flush_ok (_, v) s rest h = absurd (cc)

  finish_image_ok :
      (x : Status × Out)
      → (finish_image k format cipher write_ok page max buf_size do_compress do_encrypt
          lzo1x_compress x).0
        ≡ ok
      → x.0 ≡ ok
  finish_image_ok (ok, s) h = refl
  finish_image_ok (_, s) h = h

  module _ (buffer_pages m : ℕ) (abort_possible : Bool) (keys : ℕ → List Key) where
    loop : List (Read Page) → ℕ → Out → Status × Out
    loop rs nr s =
        image_loop k format cipher write_ok page max buf_size do_compress do_encrypt lzo1x_compress
          buffer_pages m abort_possible keys rs nr s

    loop-IsComplete :
        (rs : List (Read Page)) (nr : ℕ) (s : Out) → (loop rs nr s).0 ≡ ok → IsComplete rs
    unfolding loop image_loop
    loop-IsComplete [] nr s h = tt
    loop-IsComplete (end_read ∷ rs) nr s h = tt
    loop-IsComplete (error_read ∷ rs) nr s h = absurd (cc)
    loop-IsComplete (short_read ∷ rs) nr s h = absurd (cc)
    loop-IsComplete (page_read p ∷ rs) nr s h =
        let key =
          pressed k format cipher write_ok page max buf_size do_compress do_encrypt lzo1x_compress
            buffer_pages m abort_possible keys nr s.reboot in
        let full = s.buffer ++ (p ∷ []) in
        let s' : Out = record s { buffer = full; reboot = key.1 } in
        let x =
          flush_buffer k format cipher write_ok page max buf_size do_compress do_encrypt
            lzo1x_compress s' in
        elim (Bool-cases key.0) [
          | inl t ↦ absurd (let q = rw t at h in cc)
          | inr t ↦ elim (Bool-cases (leb buffer_pages (length full))) [
            | inl u ↦
                loop-IsComplete rs (nr + 1) (record s' { saver = x.1; buffer = [] })
                  (after_flush_ok x s' (loop rs (nr + 1) (record s' { saver = x.1; buffer = [] }))
                    (rw (t, u) at h))
            | inr u ↦ loop-IsComplete rs (nr + 1) s' (rw (t, u) at h)
          ]
        ]

  -- If `save_image` reports success, no read failed or gave less than a page before the end of the
  -- image, whatever keys were pressed and whatever the buffer held.
  pub save_image-IsComplete :
      (buffer_pages : ℕ) (abort_possible : Bool) (keys : ℕ → List Key) (nr_pages : ℕ)
      (rs : List (Read Page)) (s : Out)
      → (save_image k format cipher write_ok page max buf_size do_compress do_encrypt lzo1x_compress
          buffer_pages abort_possible keys nr_pages rs s).0
        ≡ ok
      → IsComplete rs
  unfolding save_image loop
  save_image-IsComplete buffer_pages abort_possible keys nr_pages rs s h =
      loop-IsComplete buffer_pages (message_pages nr_pages) abort_possible keys rs 0 s
        (finish_image_ok (loop buffer_pages (message_pages nr_pages) abort_possible keys rs 0 s) h)
