-- ===== src/Threads/MoverMoves.antt =====
-- The steps of the move thread keep the facts.
use suspend.Common.{
  concat, ℕ, zero, suc, ◌+◌, ◌-◌, ◌%◌, ◌<◌, ◌≡◌, ◌≢◌, refl, inl, inr, Bool, true, false, List, [],
  ◌∷◌, ◌++◌, arith, ap, ap₂, subst, sym, ◌∙◌, append_assoc, append-nil,
}
use native.Mathlib.Nat.{mod-lt, mod-eq_of_lt}
use suspend.Swap.{Status, ok}
use suspend.Threads.{
  Shared, Main, Mover, Saver, waiting, saving, written_out, ended, MoverMove, take, leave,
  encrypt_page, encrypt_fails, put, save_page_self, save_self_fails, finish, give_up, inc, update,
  first_error,
}
use suspend.Threads.Ring.{
  contents, behind, at_full, at_inc, inc_at, contents-snoc, contents-update_end, behind-update_end,
  update_self,
}
use suspend.Threads.Stream.{Prepares, Prepares-snoc, Saves-snoc}
use suspend.Threads.Invariant.{pending, unsent, SaverHolds, Facts}

module _ {Page : Type 0} (b : ℕ) where
  pending-update :
      (saver : Saver) (eb : ℕ → Page) (q : Page) (e k : ℕ)
      → e < b
      → k < b
      → pending b saver (update eb ((e + k) % b) q) e k ≡ pending b saver eb e k
  pending-update waiting eb q e k h l = contents-update_end b eb q e k h l
  pending-update saving eb q e k h l = contents-update_end b eb q e k h l
  pending-update written_out eb q e k h l = behind-update_end b eb q e k h l
  pending-update ended eb q e k h l = contents-update_end b eb q e k h l

  behind-snoc :
      (eb : ℕ → Page) (e k : ℕ)
      → e < b
      → 0 < k
      → behind b eb e (suc k) ≡ behind b eb e k ++ (eb ((e + k) % b) ∷ [])
  behind-snoc eb e zero h g = absurd (omega (arith, g))
  behind-snoc eb e (suc k) h g =
      contents-snoc b eb (inc b e) k (mod-lt (e + 1) (omega (arith, h)))
      ∙ ap (λ x. contents b eb (inc b e) k ++ (eb x ∷ [])) (inc_at b e k)

  -- One more page counts.
  pending-snoc :
      (saver : Saver) (eb : ℕ → Page) (e k : ℕ)
      → e < b
      → SaverHolds saver k
      → pending b saver eb e (suc k) ≡ pending b saver eb e k ++ (eb ((e + k) % b) ∷ [])
  pending-snoc waiting eb e k h g = contents-snoc b eb e k h
  pending-snoc saving eb e k h g = contents-snoc b eb e k h
  pending-snoc written_out eb e k h g = behind-snoc eb e k h g
  pending-snoc ended eb e k h g = absurd g

  pub pending_none : (saver : Saver) (eb : ℕ → Page) (e k : ℕ) → k ≡ 0 → pending b saver eb e k ≡ []
  pending_none waiting eb e k h = ap (contents b eb e) h
  pending_none saving eb e k h = ap (contents b eb e) h
  pending_none written_out eb e k h = ap (behind b eb e) h
  pending_none ended eb e k h = ap (contents b eb e) h

SaverHolds-suc : (saver : Saver) (k : ℕ) → SaverHolds saver k → SaverHolds saver (suc k)
SaverHolds-suc waiting k h = tt
SaverHolds-suc saving k h = omega arith
SaverHolds-suc written_out k h = omega arith
SaverHolds-suc ended k h = h

-- Rings of which one end has met the other are empty.
pub ring_pos : (n s e j : ℕ) → s ≡ (e + j) % n → e < n → e ≢ s → 0 < j
ring_pos n s e zero h l ne = absurd (ne (sym (h ∙ ap (λ x. x % n) (omega arith) ∙ mod-eq_of_lt l)))
ring_pos n s e (suc j) h l ne = omega arith

first_of :
    {A : Type 0} (n : ℕ) (f : ℕ → List A) (e j : ℕ)
    → 0 < j
    → concat (contents n f e j) ≡ f e ++ concat (behind n f e j)
first_of n f e zero h = absurd (omega (arith, h))
first_of n f e (suc j) h = refl

pub no_error : {A : Type 0} (r e : Status) → r ≡ ok → e ≢ ok → first_error r e ≡ ok → A
no_error r e h ne o = absurd (ne (sym (ap (λ x. first_error x e) h) ∙ o))

module _ (C W Page : Type 0) (n b : ℕ) (do_encrypt : Bool) (encrypt : C → Page → Status × Page × C)
    (save_page : W → Page → Status × W) (c₀ : C) (w₀ : W) where
  pub MoverMove-Facts :
      (m : Shared C W Page) {p p' : Mover Page} {m' : Shared C W Page} (main : Main) (saver : Saver)
      → MoverMove C W Page n b do_encrypt encrypt save_page m p m' p'
      → m'.save_ret ≡ ok
      → Facts C W Page n b do_encrypt encrypt save_page c₀ w₀ m main p saver
      → Facts C W Page n b do_encrypt encrypt save_page c₀ w₀ m' main p' saver
  MoverMove-Facts m main saver (take ne o') o f =
      let some = ring_pos n m.move_start m.move_end f.j f.move_ring.0 f.move_ring.2 ne in
      record {
        j = f.j;
        k = f.k;
        ready = f.ready;
        done = f.done;
        ok_so_far = f.ok_so_far;
        move_ring = f.move_ring;
        save_ring = f.save_ring;
        direct = f.direct;
        mover_holds = some;
        saver_holds = f.saver_holds;
        handed =
            f.handed
            ∙ ap (λ y. f.ready ++ (y ++ unsent main (m.write_buffers m.move_start)))
                (first_of n m.write_buffers m.move_end f.j some);
        prepared = f.prepared;
        written = f.written;
      }
  MoverMove-Facts m main saver (leave ne) o f = absurd (ne o)
  MoverMove-Facts m main saver (encrypt_page {p} {q} {ps} {c} t e) o f =
      let eb = update m.encrypt_buf m.save_start q in
      let here : pending b saver m.encrypt_buf m.save_end f.k ≡ pending b saver eb m.save_end f.k =
        sym (
          ap (λ s. pending b saver (update m.encrypt_buf s q) m.save_end f.k) f.save_ring.0
          ∙ pending-update b saver m.encrypt_buf q m.save_end f.k f.save_ring.2 f.save_ring.1) in
      let old = pending b saver m.encrypt_buf m.save_end f.k in
      let same : (f.done ++ (old ++ [])) ++ (q ∷ [])
          ≡ f.done ++ (pending b saver eb m.save_end f.k ++ (eb m.save_start ∷ [])) =
        append_assoc f.done (old ++ []) (q ∷ [])
        ∙ ap (λ y. f.done ++ (y ++ (q ∷ []))) (append-nil old)
        ∙ ap₂ (λ y z. f.done ++ (y ++ (z ∷ []))) here
            (sym (update_self m.encrypt_buf m.save_start q)) in
      record {
        j = f.j;
        k = f.k;
        ready = f.ready ++ (p ∷ []);
        done = f.done;
        ok_so_far = f.ok_so_far;
        move_ring = f.move_ring;
        save_ring = f.save_ring;
        direct = f.direct;
        mover_holds = (f.mover_holds, t);
        saver_holds = f.saver_holds;
        handed = f.handed ∙ sym (append_assoc f.ready (p ∷ []) _);
        prepared =
            subst (λ y. Prepares C W Page do_encrypt encrypt save_page c₀ (f.ready ++ (p ∷ [])) y c)
              same
              (Prepares-snoc C W Page do_encrypt encrypt save_page c₀ f.ready _ m.cipher p q c
                f.prepared (rw t e));
        written = f.written;
      }
  MoverMove-Facts m main saver (encrypt_fails {e} t x ne) o f =
      no_error m.save_ret e f.ok_so_far ne o
  MoverMove-Facts m main saver (put {ps} wait) o f =
      let room : suc f.k < b = elim wait [
        | inl ne ↦
            at_full b m.save_end f.k f.save_ring.2 f.save_ring.1
              (λ q. ne (ap (inc b) f.save_ring.0 ∙ q))
        | inr ne ↦ absurd (ne f.ok_so_far)
      ] in
      let full = pending b saver m.encrypt_buf m.save_end (suc f.k) in
      let count : pending b saver m.encrypt_buf m.save_end f.k ++ (m.encrypt_buf m.save_start ∷ [])
          ≡ full ++ [] =
        ap (λ x. pending b saver m.encrypt_buf m.save_end f.k ++ (m.encrypt_buf x ∷ []))
          f.save_ring.0
        ∙ sym (pending-snoc b saver m.encrypt_buf m.save_end f.k f.save_ring.2 f.saver_holds)
        ∙ sym (append-nil full) in
      record {
        j = f.j;
        k = suc f.k;
        ready = f.ready;
        done = f.done;
        ok_so_far = f.ok_so_far;
        move_ring = f.move_ring;
        save_ring = (ap (inc b) f.save_ring.0 ∙ at_inc b m.save_end f.k, room, f.save_ring.2);
        direct = λ t. absurd (let q : true ≡ false = sym f.mover_holds.1 ∙ t in cc);
        mover_holds = f.mover_holds.0;
        saver_holds = SaverHolds-suc saver f.k f.saver_holds;
        handed = f.handed;
        prepared =
            subst
              (λ y.
                Prepares C W Page do_encrypt encrypt save_page c₀ f.ready (f.done ++ y) m.cipher)
              count f.prepared;
        written = f.written;
      }
  MoverMove-Facts m main saver (save_page_self {p} {ps} {w} t e) o f =
      let none_left = pending_none b saver m.encrypt_buf m.save_end f.k (f.direct t) in
      let old = pending b saver m.encrypt_buf m.save_end f.k in
      let same : (f.done ++ (old ++ [])) ++ (p ∷ []) ≡ (f.done ++ (p ∷ [])) ++ (old ++ []) =
        ap (λ y. (f.done ++ (y ++ [])) ++ (p ∷ [])) none_left
        ∙ ap (λ y. y ++ (p ∷ [])) (append-nil f.done)
        ∙ sym (append-nil (f.done ++ (p ∷ [])))
        ∙ ap (λ y. (f.done ++ (p ∷ [])) ++ (y ++ [])) (sym none_left) in
      record {
        j = f.j;
        k = f.k;
        ready = f.ready ++ (p ∷ []);
        done = f.done ++ (p ∷ []);
        ok_so_far = f.ok_so_far;
        move_ring = f.move_ring;
        save_ring = f.save_ring;
        direct = f.direct;
        mover_holds = f.mover_holds;
        saver_holds = f.saver_holds;
        handed = f.handed ∙ sym (append_assoc f.ready (p ∷ []) _);
        prepared =
            subst
              (λ y.
                Prepares C W Page do_encrypt encrypt save_page c₀ (f.ready ++ (p ∷ [])) y m.cipher)
              same
              (Prepares-snoc C W Page do_encrypt encrypt save_page c₀ f.ready _ m.cipher p p
                m.cipher f.prepared (rw t refl));
        written =
            Saves-snoc C W Page do_encrypt encrypt save_page w₀ f.done m.writer p w f.written e;
      }
  MoverMove-Facts m main saver (save_self_fails {e} t x ne) o f =
      no_error m.save_ret e f.ok_so_far ne o
  MoverMove-Facts m main saver (finish o') o f =
      let one : f.j ≡ suc (f.j - 1) = omega (arith, f.mover_holds) in
      record {
        j = f.j - 1;
        k = f.k;
        ready = f.ready;
        done = f.done;
        ok_so_far = f.ok_so_far;
        move_ring = (
          f.move_ring.0 ∙ ap (λ x. (m.move_end + x) % n) one ∙ sym (inc_at n m.move_end (f.j - 1)),
          omega (arith, f.move_ring.1),
          mod-lt (m.move_end + 1) (omega (arith, f.move_ring.1)),
        );
        save_ring = f.save_ring;
        direct = f.direct;
        mover_holds = tt;
        saver_holds = f.saver_holds;
        handed =
            f.handed
            ∙ ap
                (λ x.
                  f.ready
                  ++ (concat (behind n m.write_buffers m.move_end x)
                      ++ unsent main (m.write_buffers m.move_start)))
                one;
        prepared = f.prepared;
        written = f.written;
      }
  MoverMove-Facts m main saver (give_up g ne) o f = absurd (ne o)
