-- ===== src/Threads/Tests.antt =====
-- Two pages on their way through the threads: the first is saved while the second is encrypted.
use suspend.Common.{ℕ, ◌+◌, ◌≡◌, refl, inl, ◌⊎◌, true, false, List, [], ◌∷◌, ◌++◌, arith}
use suspend.Extents.{nothing}
use suspend.Swap.{Status, ok, write_page}
use suspend.Swap.Writer.{Writer, save_page, next_swap_page, store_page}
use suspend.Swap.Run.{Saver, save_pages}
use suspend.Swap.Tests.{blocks, counter, listed, Block, bytes, always}
use suspend.Threads.{
  write_buffer_count, encrypt_buf_pages, update, filling, putting, idle, saving, waiting, System,
  fill, next, take, encrypt_page, put, finish, take_page, write, advance, by_main, by_mover,
  by_saver, started, Reach, here, later, IsFinished, IsApart, IsBehind, CanGoOn,
}
use suspend.Threads.Stream.{Prepares, Saves}
use suspend.Threads.Finish.{Reach-IsApart, finished_pages}
use suspend.Threads.Progress.{Reach-CanGoOn}
use suspend.Threads.Sequential.{finished-save_pages}

module _ (C W Page : Type 0) (encrypt : C → Page → Status × Page × C)
    (save_page : W → Page → Status × W) (wb : ℕ → List Page) (eb : ℕ → Page) (p₁ p₂ q₁ q₂ : Page)
    (c₀ c₁ c₂ : C) (w₀ w₁ w₂ : W) where
  abbrev midway : System C W Page write_buffer_count encrypt_buf_pages true encrypt save_page
  midway = record {
    mem = record {
      write_buffers = update wb 0 (p₁ ∷ p₂ ∷ []);
      move_start = 1;
      move_end = 0;
      encrypt_buf = update (update eb 0 q₁) 1 q₂;
      save_start = 1;
      save_end = 0;
      save_ret = ok;
      cipher = c₂;
      writer = w₀;
      handed = p₁ ∷ p₂ ∷ [];
    };
    main = filling;
    mover = putting [];
    saver = saving;
  }

  abbrev done : System C W Page write_buffer_count encrypt_buf_pages true encrypt save_page
  done = record {
    mem = record {
      write_buffers = update wb 0 (p₁ ∷ p₂ ∷ []);
      move_start = 1;
      move_end = 1;
      encrypt_buf = update (update eb 0 q₁) 1 q₂;
      save_start = 2;
      save_end = 2;
      save_ret = ok;
      cipher = c₂;
      writer = w₂;
      handed = p₁ ∷ p₂ ∷ [];
    };
    main = filling;
    mover = idle;
    saver = waiting;
  }

  module _ (e₁ : encrypt c₀ p₁ ≡ (ok, q₁, c₁)) (e₂ : encrypt c₁ p₂ ≡ (ok, q₂, c₂)) where
    to_midway :
        Reach C W Page write_buffer_count encrypt_buf_pages true encrypt save_page
          (started C W Page write_buffer_count encrypt_buf_pages true encrypt save_page ok wb eb c₀
            w₀)
          midway
    to_midway =
        later
          (later
            (later
              (later
                (later
                  (later (later here (by_main (fill p₁ (p₂ ∷ []))))
                    (by_main (next (inl (ground arith)))))
                  (by_mover (take (ground arith) refl)))
                (by_mover (encrypt_page refl e₁)))
              (by_mover (put (inl (ground arith)))))
            (by_saver (take_page refl (ground arith) refl)))
          (by_mover (encrypt_page refl e₂))

    to_done :
        save_page w₀ q₁ ≡ (ok, w₁)
        → save_page w₁ q₂ ≡ (ok, w₂)
        → Reach C W Page write_buffer_count encrypt_buf_pages true encrypt save_page
            (started C W Page write_buffer_count encrypt_buf_pages true encrypt save_page ok wb eb
              c₀ w₀)
            done
    to_done s₁ s₂ =
        later
          (later
            (later
              (later
                (later
                  (later (later to_midway (by_saver (write s₁)))
                    (by_mover (put (inl (ground arith)))))
                  (by_saver advance))
                (by_mover (finish refl)))
              (by_saver (take_page refl (ground arith) refl)))
            (by_saver (write s₂)))
          (by_saver advance)

abbrev shift : ℕ → ℕ → Status × ℕ × ℕ
shift c p = (ok, p + c, c + 1)

abbrev note : List ℕ → ℕ → Status × List ℕ
note w q = (ok, w ++ (q ∷ []))

abbrev no_pages : ℕ → List ℕ
no_pages i = []

abbrev zeros : ℕ → ℕ
zeros i = 0

abbrev middle : System ℕ (List ℕ) ℕ write_buffer_count encrypt_buf_pages true shift note
middle = midway ℕ (List ℕ) ℕ shift note no_pages zeros 10 20 17 28 7 8 9 [] (17 ∷ []) (17 ∷ 28 ∷ [])

abbrev end : System ℕ (List ℕ) ℕ write_buffer_count encrypt_buf_pages true shift note
end = done ℕ (List ℕ) ℕ shift note no_pages zeros 10 20 17 28 7 8 9 [] (17 ∷ []) (17 ∷ 28 ∷ [])

to_middle :
    Reach ℕ
      (List ℕ)
      ℕ
      write_buffer_count
      encrypt_buf_pages
      true
      shift
      note
      (started ℕ
        (List ℕ)
        ℕ
        write_buffer_count
        encrypt_buf_pages
        true
        shift
        note
        ok
        no_pages
        zeros
        7
        [])
      middle
to_middle =
    to_midway ℕ (List ℕ) ℕ shift note no_pages zeros 10 20 17 28 7 8 9 [] (17 ∷ []) (17 ∷ 28 ∷ [])
      refl refl

to_end :
    Reach ℕ
      (List ℕ)
      ℕ
      write_buffer_count
      encrypt_buf_pages
      true
      shift
      note
      (started ℕ
        (List ℕ)
        ℕ
        write_buffer_count
        encrypt_buf_pages
        true
        shift
        note
        ok
        no_pages
        zeros
        7
        [])
      end
to_end =
    to_done ℕ (List ℕ) ℕ shift note no_pages zeros 10 20 17 28 7 8 9 [] (17 ∷ []) (17 ∷ 28 ∷ [])
      refl refl refl refl

Reach-IsApart_example : IsApart {Page = ℕ} (putting []) 0 1 × IsBehind saving 0 1
Reach-IsApart_example =
    Reach-IsApart ℕ (List ℕ) ℕ write_buffer_count encrypt_buf_pages true shift note ok no_pages
      zeros 7 [] (omega arith) (omega arith) middle to_middle refl

Reach-CanGoOn_example :
    IsFinished ℕ (List ℕ) ℕ write_buffer_count encrypt_buf_pages true shift note middle
    ⊎ CanGoOn ℕ (List ℕ) ℕ write_buffer_count encrypt_buf_pages true shift note middle
Reach-CanGoOn_example =
    Reach-CanGoOn ℕ (List ℕ) ℕ write_buffer_count encrypt_buf_pages true shift note ok no_pages
      zeros 7 [] (omega arith) (omega arith) middle to_middle refl refl

finished_pages_example :
    (qs : List ℕ) × Prepares ℕ (List ℕ) ℕ true shift note 7 (10 ∷ 20 ∷ []) qs 9
    × Saves ℕ (List ℕ) ℕ true shift note [] qs (17 ∷ 28 ∷ [])
finished_pages_example =
    finished_pages ℕ (List ℕ) ℕ write_buffer_count encrypt_buf_pages true shift note ok no_pages
      zeros 7 [] (omega arith) (omega arith) end to_end (refl, refl, refl, refl)

-- The same with the swap writer, before the first of three pages in a row.
abbrev in_a_row : Saver listed blocks counter
in_a_row = record {
  writer = record {
    extents = record { start = 3; end = 6 } ∷ nothing ∷ nothing ∷ [];
    nr_extents = 1;
    cur_extent_idx = 0;
    cur_offset = 2;
    swap_needed = 5;
    written_data = 0;
    extents_spc = 1;
    dev = [];
    disk = record { writes = []; old = λ o. bytes 0 };
  };
  state = 7;
  encrypt_ptr = 0;
}

abbrev save_block : Writer (List ℕ) Block → Block → Status × Writer (List ℕ) Block
save_block w p = save_page listed blocks always 1 2 false w p

unfoldable once : Writer (List ℕ) Block
once = (save_block in_a_row.writer (bytes 17)).1

unfoldable twice : Writer (List ℕ) Block
twice = (save_block once (bytes 28)).1

save_once : save_block in_a_row.writer (bytes 17) ≡ (ok, once)
unfolding once save_page next_swap_page store_page write_page
save_once = refl

save_twice : save_block once (bytes 28) ≡ (ok, twice)
unfolding once twice save_page next_swap_page store_page write_page
save_twice = refl

abbrev no_blocks : ℕ → List Block
no_blocks i = []

abbrev blank : ℕ → Block
blank i = bytes 0

abbrev threads_done :
    System ℕ
      (Writer (List ℕ) Block)
      Block
      write_buffer_count
      encrypt_buf_pages
      true
      counter.encrypt
      save_block
threads_done =
    done ℕ (Writer (List ℕ) Block) Block counter.encrypt save_block no_blocks blank (bytes 10)
      (bytes 20) (bytes 17) (bytes 28) 7 8 9 in_a_row.writer once twice

finished-save_pages_example :
    (s' : Saver listed blocks counter) × (save_pages listed blocks counter always 1 2 256 false true
        in_a_row
        (bytes 10 ∷ bytes 20 ∷ [])
      ≡ (ok, s'))
    × (s'.writer ≡ twice)
    × (s'.state ≡ 9)
finished-save_pages_example =
    finished-save_pages listed blocks counter always 1 2 256 false true write_buffer_count
      encrypt_buf_pages ok no_blocks blank in_a_row (omega arith) (omega arith) threads_done
      (to_done ℕ (Writer (List ℕ) Block) Block counter.encrypt save_block no_blocks blank (bytes 10)
        (bytes 20) (bytes 17) (bytes 28) 7 8 9 in_a_row.writer once twice refl refl save_once
        save_twice)
      (refl, refl, refl, refl)
