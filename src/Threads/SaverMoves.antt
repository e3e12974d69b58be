-- ===== src/Threads/SaverMoves.antt =====
-- The steps of the save thread keep the facts.
use suspend.Common.{
  ℕ, zero, suc, ◌+◌, ◌-◌, ◌%◌, ◌<◌, ◌≡◌, refl, Bool, [], ◌∷◌, ◌++◌, arith, ap, subst, sym, ◌∙◌,
  append_assoc,
}
use native.Mathlib.Nat.{mod-lt}
use suspend.Swap.{Status, ok}
use suspend.Threads.{
  Shared, Main, Mover, Saver, SaverMove, take_page, exit, write, write_fails, advance,
}
use suspend.Threads.Ring.{contents, behind, inc_at}
use suspend.Threads.Stream.{Prepares, Saves-snoc}
use suspend.Threads.Invariant.{uncounted, Facts}
use suspend.Threads.MoverMoves.{ring_pos, no_error}

first_of :
    {A : Type 0} (b : ℕ) (f : ℕ → A) (e k : ℕ) → 0 < k → contents b f e k ≡ f e ∷ behind b f e k
first_of b f e zero h = absurd (omega (arith, h))
first_of b f e (suc k) h = refl

module _ (C W Page : Type 0) (n b : ℕ) (do_encrypt : Bool) (encrypt : C → Page → Status × Page × C)
    (save_page : W → Page → Status × W) (c₀ : C) (w₀ : W) where
  pub SaverMove-Facts :
      (m : Shared C W Page) {p p' : Saver} {m' : Shared C W Page} (main : Main) (mover : Mover Page)
      → SaverMove C W Page n b do_encrypt encrypt save_page m p m' p'
      → m'.save_ret ≡ ok
      → Facts C W Page n b do_encrypt encrypt save_page c₀ w₀ m main mover p
      → Facts C W Page n b do_encrypt encrypt save_page c₀ w₀ m' main mover p'
  SaverMove-Facts m main mover (take_page t ne o') o f = record {
    j = f.j;
    k = f.k;
    ready = f.ready;
    done = f.done;
    ok_so_far = f.ok_so_far;
    move_ring = f.move_ring;
    save_ring = f.save_ring;
    direct = f.direct;
    mover_holds = f.mover_holds;
    saver_holds = ring_pos b m.save_start m.save_end f.k f.save_ring.0 f.save_ring.2 ne;
    handed = f.handed;
    prepared = f.prepared;
    written = f.written;
  }
  SaverMove-Facts m main mover (exit ne) o f = absurd (ne o)
  SaverMove-Facts m main mover (write {w} e) o f =
      let q = m.encrypt_buf m.save_end in
      let last = uncounted mover (m.encrypt_buf m.save_start) in
      let same : f.done ++ (contents b m.encrypt_buf m.save_end f.k ++ last)
          ≡ (f.done ++ (q ∷ [])) ++ (behind b m.encrypt_buf m.save_end f.k ++ last) =
        ap (λ y. f.done ++ (y ++ last)) (first_of b m.encrypt_buf m.save_end f.k f.saver_holds)
        ∙ sym (append_assoc f.done (q ∷ []) (behind b m.encrypt_buf m.save_end f.k ++ last)) in
      record {
        j = f.j;
        k = f.k;
        ready = f.ready;
        done = f.done ++ (q ∷ []);
        ok_so_far = f.ok_so_far;
        move_ring = f.move_ring;
        save_ring = f.save_ring;
        direct = f.direct;
        mover_holds = f.mover_holds;
        saver_holds = f.saver_holds;
        handed = f.handed;
        prepared =
            subst (λ y. Prepares C W Page do_encrypt encrypt save_page c₀ f.ready y m.cipher) same
              f.prepared;
        written =
            Saves-snoc C W Page do_encrypt encrypt save_page w₀ f.done m.writer q w f.written e;
      }
  SaverMove-Facts m main mover (write_fails {e} x ne) o f = no_error m.save_ret e f.ok_so_far ne o
  SaverMove-Facts m main mover advance o f =
      let one : f.k ≡ suc (f.k - 1) = omega (arith, f.saver_holds) in
      record {
        j = f.j;
        k = f.k - 1;
        ready = f.ready;
        done = f.done;
        ok_so_far = f.ok_so_far;
        move_ring = f.move_ring;
        save_ring = (
          f.save_ring.0 ∙ ap (λ x. (m.save_end + x) % b) one ∙ sym (inc_at b m.save_end (f.k - 1)),
          omega (arith, f.save_ring.1),
          mod-lt (m.save_end + 1) (omega (arith, f.save_ring.1)),
        );
        direct = λ t. omega (arith, f.direct t);
        mover_holds = f.mover_holds;
        saver_holds = tt;
        handed = f.handed;
        prepared =
            subst
              (λ x.
                Prepares C W Page do_encrypt encrypt save_page c₀ f.ready
                  (f.done
                    ++ (behind b m.encrypt_buf m.save_end x
                        ++ uncounted mover (m.encrypt_buf m.save_start)))
                  m.cipher)
              one f.prepared;
        written = f.written;
      }
