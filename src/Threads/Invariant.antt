-- ===== src/Threads/Invariant.antt =====
-- What holds of the shared memory of suspend.c's threads as long as there is no error: every page
-- handed over is in exactly one place on its way to swap, in order.
use suspend.Common.{concat, ℕ, ◌+◌, ◌%◌, ◌<◌, ◌≡◌, Bool, true, false, List, [], ◌∷◌, ◌++◌}
use suspend.Swap.{Status, ok}
use suspend.Threads.{
  Shared, Main, filling, filled, stopped, Mover, idle, moving, putting, gone, Saver, waiting,
  saving, written_out, ended,
}
use suspend.Threads.Ring.{contents, behind}
use suspend.Threads.Stream.{Prepares, Saves}

module _ {Page : Type 0} (n : ℕ) where
  -- The pages of `j` write buffers from `e` on that are still to be prepared.
  abbrev pub queue : Mover Page → (ℕ → List Page) → ℕ → ℕ → List Page
  queue idle wb e j = concat (contents n wb e j)
  queue (moving ps) wb e j = ps ++ concat (behind n wb e j)
  queue (putting ps) wb e j = ps ++ concat (behind n wb e j)
  queue gone wb e j = []

  -- The pages of `k` places of the encrypt buffer from `e` on that are still to be saved.
  abbrev pub pending : Saver → (ℕ → Page) → ℕ → ℕ → List Page
  pending written_out eb e k = behind n eb e k
  pending waiting eb e k = contents n eb e k
  pending saving eb e k = contents n eb e k
  pending ended eb e k = contents n eb e k

module _ {Page : Type 0} where
  -- A page in the encrypt buffer that does not count yet.
  abbrev pub uncounted : Mover Page → Page → List Page
  uncounted (putting ps) q = q ∷ []
  uncounted idle q = []
  uncounted (moving ps) q = []
  uncounted gone q = []

  -- A write buffer that does not count yet.
  abbrev pub unsent : Main → List Page → List Page
  unsent filled ps = ps
  unsent filling ps = []
  unsent stopped ps = []

  abbrev pub MoverHolds : Bool → Mover Page → ℕ → Type 0
  MoverHolds e idle j = Unit {0}
  MoverHolds e (moving ps) j = 0 < j
  MoverHolds e (putting ps) j = (0 < j) × (e ≡ true)
  MoverHolds e gone j = ⊥

abbrev pub SaverHolds : Saver → ℕ → Type 0
SaverHolds waiting k = Unit {0}
SaverHolds saving k = 0 < k
SaverHolds written_out k = 0 < k
SaverHolds ended k = ⊥

module _ (C W Page : Type 0) (n b : ℕ) (do_encrypt : Bool) (encrypt : C → Page → Status × Page × C)
    (save_page : W → Page → Status × W) (c₀ : C) (w₀ : W) where
  -- `j` write buffers and `k` places of the encrypt buffer are full; the pages `ready` are prepared,
  -- and of what they became `done` is saved.
  pub record Facts (m : Shared C W Page) (main : Main) (mover : Mover Page) (saver : Saver)
      : Type 0 where
    pub j : ℕ
    pub k : ℕ
    pub ready : List Page
    pub done : List Page
    pub ok_so_far : m.save_ret ≡ ok
    pub move_ring : (m.move_start ≡ (m.move_end + j) % n) × (j < n) × (m.move_end < n)
    pub save_ring : (m.save_start ≡ (m.save_end + k) % b) × (k < b) × (m.save_end < b)
    pub direct : do_encrypt ≡ false → k ≡ 0
    pub mover_holds : MoverHolds do_encrypt mover j
    pub saver_holds : SaverHolds saver k
    pub handed :
        m.handed
        ≡ ready
          ++ (queue n mover m.write_buffers m.move_end j
              ++ unsent main (m.write_buffers m.move_start))
    pub prepared :
        Prepares C W Page do_encrypt encrypt save_page c₀ ready
          (done
            ++ (pending b saver m.encrypt_buf m.save_end k
                ++ uncounted mover (m.encrypt_buf m.save_start)))
          m.cipher
    pub written : Saves C W Page do_encrypt encrypt save_page w₀ done m.writer
