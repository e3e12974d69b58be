-- ===== src/Suspend/Stored.antt =====
-- What the steps of `store_image`, the middle part of `write_image` of suspend.c, keep, their sequence
-- keeps.
use suspend.Common.{ℕ, zero, suc}
use suspend.Suspend.{Kernel, World}
use suspend.Suspend.System.{
  ImageWriter, run, run_save_image, enough_swap, then_do, or_enospc, store_image,
}

module _ (k : Kernel) (Holds : World k → Type 0) where
  pub then_do-Holds :
      (r : ℕ × World k) (f : World k → ℕ × World k)
      → Holds r.1
      → ((w : World k) → Holds w → Holds (f w).1)
      → Holds (then_do k r f).1
  then_do-Holds (zero, w) f h g = g w h
  then_do-Holds (suc n, w) f h g = h

  or_enospc-Holds : (r : ℕ × World k) → Holds r.1 → Holds (or_enospc k r).1
  or_enospc-Holds (zero, w) h = h
  or_enospc-Holds (suc n, w) h = h

  pub store_image-Holds :
      (i : ImageWriter k)
      → ((w : World k) → Holds w → Holds (run k i.init_swap_writer w).1)
      → ((w : World k) → Holds w → Holds (run k i.count_pages w).1)
      → ((w : World k) → Holds w → Holds (run k i.preallocate_swap w).1)
      → ((w : World k) → Holds w → Holds (run k i.set_cipher w).1)
      → ((w : World k) → Holds w → Holds (run_save_image k i w).1)
      → ((start : ℕ) (w : World k) → Holds w → Holds (run k (i.write_page start) w).1)
      → ((w : World k) → Holds w → Holds (enough_swap k i w).1)
      → (start : ℕ) (w : World k) → Holds w
      → Holds (store_image k i start w).1
  unfolding store_image
  store_image-Holds i init count preallocate cipher save write enough start w h =
      let r2 = then_do k (run k i.init_swap_writer w) (run k i.count_pages) in
      let test : World k → ℕ × World k = λ x. or_enospc k (enough_swap k i x) in
      let r3 = then_do k r2 test in
      let allocate : World k → ℕ × World k = λ x. or_enospc k (run k i.preallocate_swap x) in
      let r4 = then_do k r3 allocate in
      let r5 = then_do k r4 (run k i.set_cipher) in
      let r6 = then_do k r5 (run_save_image k i) in
      let s2 = then_do-Holds (run k i.init_swap_writer w) (run k i.count_pages) (init w h) count in
      let s3 = then_do-Holds r2 test s2 (λ x g. or_enospc-Holds _ (enough x g)) in
      let s4 = then_do-Holds r3 allocate s3 (λ x g. or_enospc-Holds _ (preallocate x g)) in
      let s5 = then_do-Holds r4 (run k i.set_cipher) s4 cipher in
      let s6 = then_do-Holds r5 (run_save_image k i) s5 save in
      then_do-Holds r6 (run k (i.write_page start)) s6 (write start)
