-- ===== src/Threads/Finish.antt =====
-- What suspend.c's threads have done when the main thread sees that they have finished, and that no
-- two of them use a buffer at once.
use suspend.Common.{
  concat, ℕ, ◌+◌, ◌%◌, ◌<◌, ◌≡◌, refl, Bool, List, [], ◌++◌, arith, ap, ap₂, subst, sym, ◌∙◌,
  append-nil,
}
use suspend.Swap.{Status, ok}
use suspend.Threads.{
  Shared, Main, Mover, idle, moving, putting, gone, Saver, waiting, saving, written_out, ended,
  System, by_main, by_mover, by_saver, started, Reach, here, later, IsFinished, MainMove, MoverMove,
  SaverMove, first_error, fill, next, stop, take, leave, encrypt_page, encrypt_fails, put,
  save_page_self, save_self_fails, finish, give_up, take_page, exit, write, write_fails, advance,
  IsApart, IsBehind,
}
use suspend.Threads.Ring.{contents, ring_empty, ring_apart}
use suspend.Threads.Stream.{Prepares, Saves}
use suspend.Threads.Invariant.{queue, pending, unsent, uncounted, MoverHolds, SaverHolds, Facts}
use suspend.Threads.MainMoves.{MainMove-Facts}
use suspend.Threads.MoverMoves.{MoverMove-Facts, pending_none}
use suspend.Threads.SaverMoves.{SaverMove-Facts}

IsApart-of_ring :
    {Page : Type 0} (t : Bool) (mover : Mover Page) (s e j n : ℕ)
    → (s ≡ (e + j) % n) × (j < n) × (e < n)
    → MoverHolds t mover j
    → IsApart mover e s
IsApart-of_ring t idle s e j n r h = tt
IsApart-of_ring t (moving ps) s e j n r h = ring_apart n s e j r h
IsApart-of_ring t (putting ps) s e j n r h = ring_apart n s e j r h.0
IsApart-of_ring t gone s e j n r h = tt

IsBehind-of_ring :
    (saver : Saver) (s e k b : ℕ)
    → (s ≡ (e + k) % b) × (k < b) × (e < b)
    → SaverHolds saver k
    → IsBehind saver e s
IsBehind-of_ring waiting s e k b r h = tt
IsBehind-of_ring saving s e k b r h = ring_apart b s e k r h
IsBehind-of_ring written_out s e k b r h = ring_apart b s e k r h
IsBehind-of_ring ended s e k b r h = tt

-- With no full write buffer the move thread has nothing left.
queue_none :
    {Page : Type 0} (t : Bool) (n : ℕ) (mover : Mover Page) (wb : ℕ → List Page) (e j : ℕ)
    → j ≡ 0
    → MoverHolds t mover j
    → queue n mover wb e j ≡ []
queue_none t n idle wb e j h g = ap (λ x. concat (contents n wb e x)) h
queue_none t n (moving ps) wb e j h g = absurd (omega (arith, h, g))
queue_none t n (putting ps) wb e j h g = absurd (omega (arith, h, g.0))
queue_none t n gone wb e j h g = refl

uncounted_none :
    {Page : Type 0} (t : Bool) (mover : Mover Page) (q : Page) (j : ℕ)
    → j ≡ 0
    → MoverHolds t mover j
    → uncounted mover q ≡ []
uncounted_none t idle q j h g = refl
uncounted_none t (moving ps) q j h g = refl
uncounted_none t (putting ps) q j h g = absurd (omega (arith, h, g.0))
uncounted_none t gone q j h g = refl

-- An error stays.
first_error-ok : (r e : Status) → first_error r e ≡ ok → r ≡ ok
first_error-ok ok e h = refl
first_error-ok _ e h = h

module _ (C W Page : Type 0) (n b : ℕ) (do_encrypt : Bool) (encrypt : C → Page → Status × Page × C)
    (save_page : W → Page → Status × W) where
  main_ok :
      {m m' : Shared C W Page} {p p' : Main}
      → MainMove C W Page n b do_encrypt encrypt save_page m p m' p'
      → m'.save_ret ≡ ok
      → m.save_ret ≡ ok
  main_ok (fill p ps) h = h
  main_ok (next wait) h = h
  main_ok {m} (stop e ne) h = first_error-ok m.save_ret e h

  mover_ok :
      {m m' : Shared C W Page} {p p' : Mover Page}
      → MoverMove C W Page n b do_encrypt encrypt save_page m p m' p'
      → m'.save_ret ≡ ok
      → m.save_ret ≡ ok
  mover_ok {m} (encrypt_fails {e} t x ne) h = first_error-ok m.save_ret e h
  mover_ok {m} (save_self_fails {e} t x ne) h = first_error-ok m.save_ret e h
  mover_ok (take ne o) h = h
  mover_ok (leave ne) h = h
  mover_ok (encrypt_page t e) h = h
  mover_ok (put w) h = h
  mover_ok (save_page_self t e) h = h
  mover_ok (finish o) h = h
  mover_ok (give_up g ne) h = h

  saver_ok :
      {m m' : Shared C W Page} {p p' : Saver}
      → SaverMove C W Page n b do_encrypt encrypt save_page m p m' p'
      → m'.save_ret ≡ ok
      → m.save_ret ≡ ok
  saver_ok (take_page t ne o) h = h
  saver_ok (exit ne) h = h
  saver_ok (write e) h = h
  saver_ok {m} (write_fails {e} x ne) h = first_error-ok m.save_ret e h
  saver_ok advance h = h

  module _ (e₀ : Status) (wb : ℕ → List Page) (eb : ℕ → Page) (c₀ : C) (w₀ : W) (n_pos : 0 < n)
      (b_pos : 0 < b) where
    abbrev Holds : System C W Page n b do_encrypt encrypt save_page → Type 0
    Holds s = Facts C W Page n b do_encrypt encrypt save_page c₀ w₀ s.mem s.main s.mover s.saver

    started-Holds :
        e₀ ≡ ok → Holds (started C W Page n b do_encrypt encrypt save_page e₀ wb eb c₀ w₀)
    started-Holds o = record {
      j = 0;
      k = 0;
      ready = [];
      done = [];
      ok_so_far = o;
      move_ring = (grind arith, n_pos, n_pos);
      save_ring = (grind arith, b_pos, b_pos);
      direct = λ t. refl;
      mover_holds = tt;
      saver_holds = tt;
      handed = refl;
      prepared = (refl, refl);
      written = refl;
    }

    -- The facts hold in every state that is reached without an error.
    pub Reach-Facts :
        (s : System C W Page n b do_encrypt encrypt save_page)
        → Reach C W Page n b do_encrypt encrypt save_page
            (started C W Page n b do_encrypt encrypt save_page e₀ wb eb c₀ w₀)
            s
        → s.mem.save_ret ≡ ok
        → Holds s
    Reach-Facts _ here o = started-Holds o
    Reach-Facts _ (later {t} r (by_main mv)) o =
        MainMove-Facts C W Page n b do_encrypt encrypt save_page c₀ w₀ t.mem t.mover t.saver mv o
          (Reach-Facts t r (main_ok mv o))
    Reach-Facts _ (later {t} r (by_mover mv)) o =
        MoverMove-Facts C W Page n b do_encrypt encrypt save_page c₀ w₀ t.mem t.main t.saver mv o
          (Reach-Facts t r (mover_ok mv o))
    Reach-Facts _ (later {t} r (by_saver mv)) o =
        SaverMove-Facts C W Page n b do_encrypt encrypt save_page c₀ w₀ t.mem t.main t.mover mv o
          (Reach-Facts t r (saver_ok mv o))

    -- While there is no error, the move thread works on a write buffer that the main thread does not
    -- fill, and the save thread on a page of the encrypt buffer that the move thread does not write.
    pub Reach-IsApart :
        (s : System C W Page n b do_encrypt encrypt save_page)
        → Reach C W Page n b do_encrypt encrypt save_page
            (started C W Page n b do_encrypt encrypt save_page e₀ wb eb c₀ w₀)
            s
        → s.mem.save_ret ≡ ok
        → IsApart s.mover s.mem.move_end s.mem.move_start
          × IsBehind s.saver s.mem.save_end s.mem.save_start
    Reach-IsApart s r o =
        let f = Reach-Facts s r o in
        (
          IsApart-of_ring do_encrypt s.mover s.mem.move_start s.mem.move_end f.j n f.move_ring
              f.mover_holds,
          IsBehind-of_ring s.saver s.mem.save_start s.mem.save_end f.k b f.save_ring f.saver_holds,
        )

    -- When the threads have finished, every page handed over went through the cipher and was saved,
    -- each once and in order.
    pub finished_pages :
        (s : System C W Page n b do_encrypt encrypt save_page)
        → Reach C W Page n b do_encrypt encrypt save_page
            (started C W Page n b do_encrypt encrypt save_page e₀ wb eb c₀ w₀)
            s
        → IsFinished C W Page n b do_encrypt encrypt save_page s
        → (qs : List Page) × Prepares C W Page do_encrypt encrypt save_page c₀ s.mem.handed qs
            s.mem.cipher
          × Saves C W Page do_encrypt encrypt save_page w₀ qs s.mem.writer
    finished_pages s r (save_met, move_met, o, at_rest) =
        let f = Reach-Facts s r o in
        let j0 = ring_empty n s.mem.move_start s.mem.move_end f.j f.move_ring (sym move_met) in
        let k0 = ring_empty b s.mem.save_start s.mem.save_end f.k f.save_ring save_met in
        let eb' = s.mem.encrypt_buf in
        let wb' = s.mem.write_buffers in
        let handed : s.mem.handed ≡ f.ready =
          f.handed
          ∙ ap₂ (λ y z. f.ready ++ (y ++ unsent z (wb' s.mem.move_start)))
              (queue_none do_encrypt n s.mover wb' s.mem.move_end f.j j0 f.mover_holds) at_rest
          ∙ append-nil f.ready in
        let saved : f.done
              ++ (pending b s.saver eb' s.mem.save_end f.k
                  ++ uncounted s.mover (eb' s.mem.save_start))
            ≡ f.done =
          ap₂ (λ y z. f.done ++ (y ++ z)) (pending_none b s.saver eb' s.mem.save_end f.k k0)
            (uncounted_none do_encrypt s.mover (eb' s.mem.save_start) f.j j0 f.mover_holds)
          ∙ append-nil f.done in
        (
          f.done,
          subst (λ y. Prepares C W Page do_encrypt encrypt save_page c₀ y f.done s.mem.cipher)
              (sym handed)
              (subst (λ y. Prepares C W Page do_encrypt encrypt save_page c₀ f.ready y s.mem.cipher)
                saved f.prepared),
          f.written,
        )
