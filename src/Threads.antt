-- ===== src/Threads.antt =====
-- The writeout threads of suspend.c: the main thread fills the write buffers, `move_thread` encrypts
-- their pages into the encrypt buffer or saves them itself, `save_thread` saves what is encrypted.
-- A step of one thread is one access to shared memory; waits are premises, since a woken thread
-- tests its condition again. libgcrypt and `save_page` are parameters of the steps.
pub mod Ring
pub mod Stream
pub mod Invariant
pub mod MainMoves
pub mod MoverMoves
pub mod SaverMoves
pub mod Finish
pub mod Sequential
pub mod Progress
mod Tests
use suspend.Common.{
  ℕ, zero, suc, ◌+◌, ◌%◌, ◌≡◌, ◌≢◌, ◌⊎◌, Bool, true, false, List, [], ◌∷◌, ◌++◌, ◌==◌,
  if◌then◌else◌,
}
use suspend.Swap.{Status, ok}

abbrev pub write_buffer_count : ℕ
write_buffer_count = 4

abbrev pub encrypt_buf_pages : ℕ
encrypt_buf_pages = 256

-- `move_inc` and, in pages, `save_inc`.
abbrev pub inc : ℕ → ℕ → ℕ
inc n i = (i + 1) % n

abbrev pub update {ℓ} : {A : Type ℓ} → (ℕ → A) → ℕ → A → ℕ → A
update f i a j = if i == j then a else f j

-- What the threads share. `encrypt_buf`, `save_start` and `save_end` go by pages. `handed` is all that
-- the main thread has put into write buffers so far, and no thread reads it.
pub record Shared (C W Page : Type 0) : Type 0 where
  pub write_buffers : ℕ → List Page
  pub move_start : ℕ
  pub move_end : ℕ
  pub encrypt_buf : ℕ → Page
  pub save_start : ℕ
  pub save_end : ℕ
  pub save_ret : Status
  pub cipher : C
  pub writer : W
  pub handed : List Page

-- Where each thread stands: `filled` before the wait of `prepare_next_write_buffer`, `moving` at the
-- head of the loop over the pages left of a buffer, `putting` before the wait for the encrypt buffer,
-- `saving` and `written_out` before and after `save_page`.
pub data Main : Type 0 where
  filling filled stopped : Main

pub data Mover (Page : Type 0) : Type 0 where
  idle : Mover Page
  moving : List Page → Mover Page
  putting : List Page → Mover Page
  gone : Mover Page

pub data Saver : Type 0 where
  waiting saving written_out ended : Saver

-- The first error stays.
abbrev pub first_error : Status → Status → Status
first_error ok e = e
first_error r e = r

abbrev pub after_next : Status → Main
after_next ok = filling
after_next _ = stopped

-- The move thread at work on the write buffer `move_end` is not where the main thread fills.
abbrev pub IsApart : {Page : Type 0} → Mover Page → ℕ → ℕ → Type 0
IsApart (moving ps) move_end move_start = move_end ≢ move_start
IsApart (putting ps) move_end move_start = move_end ≢ move_start
IsApart idle move_end move_start = Unit {0}
IsApart gone move_end move_start = Unit {0}

-- The save thread at work on the page `save_end` is not where the move thread encrypts to.
abbrev pub IsBehind : Saver → ℕ → ℕ → Type 0
IsBehind saving save_end save_start = save_end ≢ save_start
IsBehind written_out save_end save_start = save_end ≢ save_start
IsBehind waiting save_end save_start = Unit {0}
IsBehind ended save_end save_start = Unit {0}

module _ (C W Page : Type 0) (n b : ℕ) (do_encrypt : Bool) (encrypt : C → Page → Status × Page × C)
    (save_page : W → Page → Status × W) where
  -- `flush_buffer` with the threads, and `stop_threads`, which an abort leads to.
  pub data MainMove (m : Shared C W Page) : Main → Shared C W Page → Main → Type 0 where
    fill :
        (p : Page) (ps : List Page)
        → MainMove m filling
            (record m {
              write_buffers = update m.write_buffers m.move_start (p ∷ ps);
              handed = m.handed ++ (p ∷ ps);
            })
            filled
    next :
        (inc n m.move_start ≢ m.move_end) ⊎ (m.save_ret ≢ ok)
        → MainMove m filled (record m { move_start = inc n m.move_start }) (after_next m.save_ret)
    stop :
        (e : Status)
        → e ≢ ok
        → MainMove m filling (record m { save_ret = first_error m.save_ret e }) stopped

  pub data MoverMove (m : Shared C W Page)
      : Mover Page → Shared C W Page → Mover Page → Type 0 where
    take :
        m.move_end ≢ m.move_start
        → m.save_ret ≡ ok
        → MoverMove m idle m (moving (m.write_buffers m.move_end))
    leave : m.save_ret ≢ ok → MoverMove m idle m gone
    -- `encrypt_and_save_buffer`
    encrypt_page :
        {p q : Page} {ps : List Page} {c : C}
        → do_encrypt ≡ true
        → encrypt m.cipher p ≡ (ok, q, c)
        → MoverMove m
            (moving (p ∷ ps))
            (record m { encrypt_buf = update m.encrypt_buf m.save_start q; cipher = c })
            (putting ps)
    encrypt_fails :
        {p q : Page} {ps : List Page} {c : C} {e : Status}
        → do_encrypt ≡ true
        → encrypt m.cipher p ≡ (e, q, c)
        → e ≢ ok
        → MoverMove m
            (moving (p ∷ ps))
            (record m { cipher = c; save_ret = first_error m.save_ret e })
            gone
    put :
        {ps : List Page}
        → (inc b m.save_start ≢ m.save_end) ⊎ (m.save_ret ≢ ok)
        → MoverMove m (putting ps) (record m { save_start = inc b m.save_start }) (moving ps)
    -- `save_buffer`
    save_page_self :
        {p : Page} {ps : List Page} {w : W}
        → do_encrypt ≡ false
        → save_page m.writer p ≡ (ok, w)
        → MoverMove m (moving (p ∷ ps)) (record m { writer = w }) (moving ps)
    save_self_fails :
        {p : Page} {ps : List Page} {w : W} {e : Status}
        → do_encrypt ≡ false
        → save_page m.writer p ≡ (e, w)
        → e ≢ ok
        → MoverMove m
            (moving (p ∷ ps))
            (record m { writer = w; save_ret = first_error m.save_ret e })
            gone
    -- The buffer is done, or given up after an error. `save_ret` may change after a test of it, so a
    -- page may still be encrypted then.
    finish :
        m.save_ret ≡ ok → MoverMove m (moving []) (record m { move_end = inc n m.move_end }) idle
    give_up :
        {ps : List Page}
        → (do_encrypt ≡ true) ⊎ (ps ≡ [])
        → m.save_ret ≢ ok
        → MoverMove m (moving ps) m gone

  -- It is started only with encryption.
  pub data SaverMove (m : Shared C W Page) : Saver → Shared C W Page → Saver → Type 0 where
    take_page :
        do_encrypt ≡ true
        → m.save_end ≢ m.save_start
        → m.save_ret ≡ ok
        → SaverMove m waiting m saving
    exit : m.save_ret ≢ ok → SaverMove m waiting m ended
    write :
        {w : W}
        → save_page m.writer (m.encrypt_buf m.save_end) ≡ (ok, w)
        → SaverMove m saving (record m { writer = w }) written_out
    write_fails :
        {w : W} {e : Status}
        → save_page m.writer (m.encrypt_buf m.save_end) ≡ (e, w)
        → e ≢ ok
        → SaverMove m saving (record m { writer = w; save_ret = first_error m.save_ret e }) ended
    advance : SaverMove m written_out (record m { save_end = inc b m.save_end }) waiting

  pub record System : Type 0 where
    pub mem : Shared C W Page
    pub main : Main
    pub mover : Mover Page
    pub saver : Saver

  pub data Step (s : System) : System → Type 0 where
    by_main :
        {m : Shared C W Page} {p : Main}
        → MainMove s.mem s.main m p
        → Step s (record { mem = m; main = p; mover = s.mover; saver = s.saver })
    by_mover :
        {m : Shared C W Page} {p : Mover Page}
        → MoverMove s.mem s.mover m p
        → Step s (record { mem = m; main = s.main; mover = p; saver = s.saver })
    by_saver :
        {m : Shared C W Page} {p : Saver}
        → SaverMove s.mem s.saver m p
        → Step s (record { mem = m; main = s.main; mover = s.mover; saver = p })

  -- `start_threads`, with what the buffers and `save_ret` happen to hold: it does not set `save_ret`,
  -- which is 0 only in the first round.
  abbrev pub started : Status → (ℕ → List Page) → (ℕ → Page) → C → W → System
  started r wb eb c w = record {
    mem = record {
      write_buffers = wb;
      move_start = 0;
      move_end = 0;
      encrypt_buf = eb;
      save_start = 0;
      save_end = 0;
      save_ret = r;
      cipher = c;
      writer = w;
      handed = [];
    };
    main = filling;
    mover = idle;
    saver = waiting;
  }

  pub data Reach (s : System) : System → Type 0 where
    here : Reach s s
    later : {t u : System} → Reach s t → Step t u → Reach s u

  -- `wait_for_finish` returns 0.
  abbrev pub IsFinished : System → Type 0
  IsFinished s =
      (s.mem.save_end ≡ s.mem.save_start)
      × (s.mem.move_start ≡ s.mem.move_end)
      × (s.mem.save_ret ≡ ok)
      × (s.main ≡ filling)

  -- The move thread or the save thread has a step.
  abbrev pub CanGoOn : System → Type 0
  CanGoOn s =
      ((m : Shared C W Page) × (p : Mover Page) × MoverMove s.mem s.mover m p)
      ⊎ ((m : Shared C W Page) × (p : Saver) × SaverMove s.mem s.saver m p)
