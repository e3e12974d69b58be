-- ===== src/Memory/Tests.antt =====
-- Start-up with pages of 4096 bytes, with everything switched on, and a device with one page of swap.
use suspend.Common.{ℕ, ◌+◌, ◌≤◌, ◌≡◌, refl, true, Option, some, List, [], ◌∷◌, arith}
use suspend.Pool.{Pool, blank, getmem, next_offset, init_memalloc, round_up_page_size, page_align}
use suspend.Swap.Tests.{listed}
use suspend.SwapAlloc.{get_swap_page}
use suspend.Memory.{
  Setup, expanded_size, suspend_mem_size, resume_mem_size, take_buffers, take_read_buffers,
  init_swap_writer, free_swap_reader, is_given,
}
use suspend.Memory.Room.{HasRoom}
use suspend.Memory.Enough.{writer_size}
use suspend.Memory.Nest.{IsSame}
use suspend.Memory.Release.{AreGiven}
use suspend.Memory.Reading
use suspend.Memory.Reading.{resume_mem_size-AreGiven}
use suspend.Memory.Startup.{
  init_memalloc-HasRoom, IsOpened, init_swap_writer-IsOpened, suspend_mem_size-AreGiven,
}

abbrev all_on : Setup
all_on = record {
  page_size = 128;
  lzo_work = 1000;
  do_compress = true;
  do_encrypt = true;
  use_threads = true;
}

abbrev block : ℕ → Option ℕ
block n = some 1000

abbrev memory : Pool
memory = record {
  page_size = 128;
  mem_pool = 1152;
  pool_size = 56064;
  slots = blank ∷ blank ∷ blank ∷ blank ∷ blank ∷ blank ∷ blank ∷ blank ∷ [];
  nr_slots = 8;
  cur = 0;
}

started : init_memalloc 128 block blank 128 (suspend_mem_size all_on) ≡ some memory
unfolding init_memalloc round_up_page_size page_align suspend_mem_size expanded_size
started = refl

small : suspend_mem_size all_on + 256 ≤ 4294967296
unfolding suspend_mem_size expanded_size round_up_page_size
small = omega arith

suspend_mem_size-AreGiven_example :
    (is_given (getmem memory 128).0 ≡ true)
    × AreGiven all_on (take_buffers all_on (getmem memory 128).1).0
suspend_mem_size-AreGiven_example =
    suspend_mem_size-AreGiven all_on 4 block blank refl (omega arith) (omega arith) (omega arith)
      small started

abbrev resumed : Pool
resumed = record memory { pool_size = 9984 }

resumed_started : init_memalloc 128 block blank 128 (resume_mem_size all_on) ≡ some resumed
unfolding init_memalloc round_up_page_size page_align resume_mem_size expanded_size
resumed_started = refl

resumed_small : resume_mem_size all_on + 256 ≤ 4294967296
unfolding resume_mem_size expanded_size round_up_page_size
resumed_small = omega arith

resume_mem_size-AreGiven_example :
    (is_given (getmem resumed 128).0 ≡ true)
    × Reading.AreGiven all_on (take_read_buffers all_on (getmem resumed 128).1).0
    × IsSame (getmem resumed 128).1 (
        free_swap_reader all_on
          (take_read_buffers all_on (getmem resumed 128).1).0
          (take_read_buffers all_on (getmem resumed 128).1).1)
resume_mem_size-AreGiven_example =
    resume_mem_size-AreGiven all_on 4 block blank refl (omega arith) (omega arith) (omega arith)
      resumed_small resumed_started

room : HasRoom 128 memory (writer_size all_on) 5
unfolding next_offset expanded_size round_up_page_size
room =
    let r =
      init_memalloc-HasRoom 128 4 block blank (suspend_mem_size all_on) refl (omega arith)
        (omega arith) small started in
    record { valid = r.valid; same_page = refl; slots_left = omega arith; bytes_left = omega arith }

init_swap_writer-IsOpened_example :
    IsOpened all_on
      (List ℕ)
      (get_swap_page listed (4096 ∷ []))
      memory
      (init_swap_writer listed all_on memory (4096 ∷ []))
init_swap_writer-IsOpened_example =
    init_swap_writer-IsOpened listed all_on memory (4096 ∷ []) (omega arith) (omega arith) room
