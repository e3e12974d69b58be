-- ===== src/Threads/MainMoves.antt =====
-- The steps of the main thread keep the facts.
use suspend.Common.{
  concat, concat-snoc, ℕ, zero, suc, ◌+◌, ◌%◌, ◌<◌, ◌≡◌, refl, inl, inr, Bool, List, ◌∷◌, ◌++◌,
  arith, ap, ap₂, subst, sym, ◌∙◌, append_assoc, append-nil,
}
use native.Mathlib.Nat.{mod-lt}
use suspend.Swap.{Status, ok}
use suspend.Threads.{
  Shared, Main, Mover, idle, moving, putting, gone, Saver, MainMove, fill, next, stop, inc, update,
  after_next, first_error,
}
use suspend.Threads.Ring.{
  contents, behind, at_full, at_inc, inc_at, contents-snoc, contents-update_end, behind-update_end,
  update_self,
}
use suspend.Threads.Invariant.{queue, MoverHolds, Facts}

module _ {Page : Type 0} (n : ℕ) (do_encrypt : Bool) where
  queue-update :
      (mover : Mover Page) (wb : ℕ → List Page) (x : List Page) (e j : ℕ)
      → e < n
      → j < n
      → queue n mover (update wb ((e + j) % n) x) e j ≡ queue n mover wb e j
  queue-update idle wb x e j h l = ap concat (contents-update_end n wb x e j h l)
  queue-update (moving ps) wb x e j h l =
      ap (λ y. ps ++ concat y) (behind-update_end n wb x e j h l)
  queue-update (putting ps) wb x e j h l =
      ap (λ y. ps ++ concat y) (behind-update_end n wb x e j h l)
  queue-update gone wb x e j h l = refl

  behind-snoc :
      (f : ℕ → List Page) (e j : ℕ)
      → e < n
      → 0 < j
      → concat (behind n f e (suc j)) ≡ concat (behind n f e j) ++ f ((e + j) % n)
  behind-snoc f e zero h g = absurd (omega (arith, g))
  behind-snoc f e (suc j) h g =
      ap concat (contents-snoc n f (inc n e) j (mod-lt (e + 1) (omega (arith, h))))
      ∙ concat-snoc (contents n f (inc n e) j) (f ((inc n e + j) % n))
      ∙ ap (λ x. concat (contents n f (inc n e) j) ++ f x) (inc_at n e j)

  -- One more buffer counts.
  queue-snoc :
      (mover : Mover Page) (wb : ℕ → List Page) (e j : ℕ)
      → e < n
      → MoverHolds do_encrypt mover j
      → queue n mover wb e (suc j) ≡ queue n mover wb e j ++ wb ((e + j) % n)
  queue-snoc idle wb e j h g =
      ap concat (contents-snoc n wb e j h) ∙ concat-snoc (contents n wb e j) (wb ((e + j) % n))
  queue-snoc (moving ps) wb e j h g =
      ap (λ x. ps ++ x) (behind-snoc wb e j h g)
      ∙ sym (append_assoc ps (concat (behind n wb e j)) (wb ((e + j) % n)))
  queue-snoc (putting ps) wb e j h g =
      ap (λ x. ps ++ x) (behind-snoc wb e j h g.0)
      ∙ sym (append_assoc ps (concat (behind n wb e j)) (wb ((e + j) % n)))
  queue-snoc gone wb e j h g = absurd g

MoverHolds-suc :
    {Page : Type 0} (e : Bool) (mover : Mover Page) (j : ℕ)
    → MoverHolds e mover j
    → MoverHolds e mover (suc j)
MoverHolds-suc e idle j h = tt
MoverHolds-suc e (moving ps) j h = omega arith
MoverHolds-suc e (putting ps) j h = (omega arith, h.1)
MoverHolds-suc e gone j h = h

module _ (C W Page : Type 0) (n b : ℕ) (do_encrypt : Bool) (encrypt : C → Page → Status × Page × C)
    (save_page : W → Page → Status × W) (c₀ : C) (w₀ : W) where
  pub MainMove-Facts :
      (m : Shared C W Page) {p p' : Main} {m' : Shared C W Page} (mover : Mover Page)
      (saver : Saver)
      → MainMove C W Page n b do_encrypt encrypt save_page m p m' p'
      → m'.save_ret ≡ ok
      → Facts C W Page n b do_encrypt encrypt save_page c₀ w₀ m p mover saver
      → Facts C W Page n b do_encrypt encrypt save_page c₀ w₀ m' p' mover saver
  MainMove-Facts m mover saver (fill p ps) o f =
      let x = p ∷ ps in
      let q : queue n mover m.write_buffers m.move_end f.j
          ≡ queue n mover (update m.write_buffers m.move_start x) m.move_end f.j =
        sym (
          ap (λ s. queue n mover (update m.write_buffers s x) m.move_end f.j) f.move_ring.0
          ∙ queue-update n do_encrypt mover m.write_buffers x m.move_end f.j f.move_ring.2
              f.move_ring.1) in
      record {
        j = f.j;
        k = f.k;
        ready = f.ready;
        done = f.done;
        ok_so_far = f.ok_so_far;
        move_ring = f.move_ring;
        save_ring = f.save_ring;
        direct = f.direct;
        mover_holds = f.mover_holds;
        saver_holds = f.saver_holds;
        handed =
            ap (λ y. y ++ x) f.handed
            ∙ ap (λ y. (f.ready ++ y) ++ x)
                (append-nil (queue n mover m.write_buffers m.move_end f.j))
            ∙ append_assoc f.ready (queue n mover m.write_buffers m.move_end f.j) x
            ∙ ap₂ (λ y z. f.ready ++ (y ++ z)) q (sym (update_self m.write_buffers m.move_start x));
        prepared = f.prepared;
        written = f.written;
      }
  MainMove-Facts m mover saver (next wait) o f =
      let room : suc f.j < n = elim wait [
        | inl ne ↦
            at_full n m.move_end f.j f.move_ring.2 f.move_ring.1
              (λ q. ne (ap (inc n) f.move_ring.0 ∙ q))
        | inr ne ↦ absurd (ne f.ok_so_far)
      ] in
      let full = queue n mover m.write_buffers m.move_end (suc f.j) in
      subst
        (λ r.
          Facts C W Page n b do_encrypt encrypt save_page c₀ w₀
            (record m { move_start = inc n m.move_start }) (after_next r) mover saver)
        (sym f.ok_so_far)
        (record {
          j = suc f.j;
          k = f.k;
          ready = f.ready;
          done = f.done;
          ok_so_far = f.ok_so_far;
          move_ring = (ap (inc n) f.move_ring.0 ∙ at_inc n m.move_end f.j, room, f.move_ring.2);
          save_ring = f.save_ring;
          direct = f.direct;
          mover_holds = MoverHolds-suc do_encrypt mover f.j f.mover_holds;
          saver_holds = f.saver_holds;
          handed =
              f.handed
              ∙ ap
                  (λ s.
                    f.ready ++ (queue n mover m.write_buffers m.move_end f.j ++ m.write_buffers s))
                  f.move_ring.0
              ∙ ap (λ y. f.ready ++ y)
                  (sym (
                      queue-snoc n do_encrypt mover m.write_buffers m.move_end f.j f.move_ring.2
                        f.mover_holds)
                    ∙ sym (append-nil full));
          prepared = f.prepared;
          written = f.written;
        })
  MainMove-Facts m mover saver (stop e ne) o f =
      absurd (ne (sym (ap (λ r. first_error r e) f.ok_so_far) ∙ o))
