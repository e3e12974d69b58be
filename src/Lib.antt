-- ===== src/Lib.antt =====
-- Models of the suspend tools (s2disk, resume, s2ram): how a hibernation image is stored in swap and
-- found again, and what carries it.
--
-- Parts, and how they interact:
-- Common: names of the libraries, Boolean tests on numbers, lists indexed by numbers.
-- Pool (memalloc.c): the pool that all image buffers come from. `init_memalloc`, `getmem` and
--   `freemem` under their names; `free_slot` steps back by `retreat`, the binary search of `freemem`
--   is `find`. Addresses are numbers; `malloc` is a parameter.
-- Extents (suspend.c, `alloc_swap`, and `struct extent` of swsusp.h): the array of extents.
--   `search` is the binary search, `extend_below` and `extend_above` join a page to an extent and
--   merge, `new_extent` inserts. The array is a pair of lists, the entries in use and those behind.
-- SwapAlloc (suspend.c): `get_swap_page` and `alloc_swap` over the kernel's two ioctls, which are a
--   parameter.
-- Swap (suspend.c and load.c): the swap writer and the swap reader over one device. Swap/Writer has
--   `preallocate_swap`, `save_extents`, `next_swap_page`, `save_page`; Swap/Reader has
--   `load_extents_page` and `find_next_image_page`; Swap/Run has the loops that put pages through
--   libgcrypt, a parameter, and through the device; Swap/Image has `load_buffer` and `load_image`.
--   A table of extents is a page like any other; its layout in memory is a parameter with a round
--   trip. Swap/Flush has `flush_buffer` and `save_image` without threads, and `count_pages`, the part of
--   `write_image` that finds the number of pages.
-- Threads (suspend.c): the main thread, `move_thread` and `save_thread` around the two rings of write
--   buffers and encrypted pages. `MainMove`, `MoverMove` and `SaverMove` are their steps, `Reach` any
--   interleaving of them; `started` is what `start_threads` sets up, with any `save_ret`, `IsFinished` that
--   `wait_for_finish` returns 0. The rings have `n` and `b` places, 4 and 256 in the source.
-- Memory (suspend.c, resume.c, load.c): `mem_size` of the two `main` functions, and the buffers that
--   `init_swap_writer` and `init_swap_reader` take from the pool with `getmem` and give back.
-- Suspend (suspend.c, swsusp.h): the flow of s2disk. `ioctl` and its wrappers, `mark_swap` and
--   `reset_signature` stand in Suspend; `write_image`, `suspend_shutdown` and `suspend_system` in
--   Suspend/System, its `do` loop as `rounds`. The kernel and the header page of the device are
--   parameters; the steps of `write_image` that store the image are an interface, `ImageWriter`, but
--   for `enough_swap`, which asks the kernel for the free swap.
--   A loop of `sleep` without end is the outcome `halted`.
-- Resume (resume.c): `open_resume_dev`, `read_image`, `reset_signature` and `main` from the opening
--   of the resume device on, over the kernel and the device of Suspend. `read_or_verify` of load.c is
--   an interface, `ImageReader`.
-- Ram (s2ram-x86.c, s2ram.c, s2ram-main.c): s2ram. `match` is `match_text`, `machine_match` goes over a
--   whitelist that is a parameter, a bit of `flags` is a Bool; Ram/Run has `s2ram_hacks`,
--   `s2ram_resume` and `main` after the options, over a log of what they do to the machine.
-- Key (load.c, encrypt.c): `decrypt_key` and `restore_key`. What lies before a label that gives
--   something back is the body of `held`; the passphrases typed are a list, and `ask` is none when it
--   ends before the right one. libgcrypt is a record of its answers, at each call its own, MD5 a
--   function.
-- Verify (load.c): `read_or_verify` over the header page and an interface, `ImageLoader`, for the
--   load of the image and the restored key. LZO and MD5 are parameters.
-- Config (config_parser.c): `parse_line` and `parse` on lists of bytes; `find_name` is the loop over
--   the table, and an assignment is the index of the parameter with the text.
--
-- Bounds and fuel: `alloc_loop` runs on as many rounds as bytes are asked for, and each round adds a
-- page; `find` and `search` run on the number of entries, and each round halves the interval;
-- `grow` doubles within 32 rounds, as many as an `unsigned int` has bits.
-- Offsets and sizes are natural numbers; where C subtracts, the place is noted.
--
-- Not modelled: md5.c, vbetool/, radeontool.c and dmidecode.c, which are copies of other projects;
-- splash and console output; s2ram's table of machines, vbetool and libpci behind its calls;
-- `read_password` of encrypt.c; the mutexes, conditions and signals of the threads.
pub mod Common
pub mod Config
pub mod Extents
pub mod Key
pub mod Memory
pub mod Pool
pub mod Ram
pub mod Resume
pub mod Suspend
pub mod Swap
pub mod SwapAlloc
pub mod Threads
pub mod Verify
