-- ===== src/Memory.antt =====
-- The memory that s2disk and resume set aside, and the buffers that `init_swap_writer` of suspend.c
-- and `init_swap_reader` of load.c take from it. A null pointer is `none`. The size of LZO's work
-- memory, `LZO1X_1_MEM_COMPRESS`, is a field of the set-up.
pub mod Room
pub mod Enough
pub mod Nest
pub mod Release
pub mod Startup
pub mod Reading
mod Tests
use suspend.Common.{
  ℕ, zero, suc, ◌+◌, ◌*◌, ◌/◌, ◌==◌, ◌-◌, Bool, true, false, not, Option, none, some, if◌then◌else◌,
  ltb,
}
use suspend.Pool.{Pool, getmem, freemem, buffer_pages, round_up_page_size}
use suspend.SwapAlloc.{SwapDevice, get_swap_page}
use suspend.Swap.{Status, ok, enospc}
use suspend.Threads.{write_buffer_count, encrypt_buf_pages}

pub record Setup : Type 0 where
  pub page_size : ℕ
  pub lzo_work : ℕ
  pub do_compress : Bool
  pub do_encrypt : Bool
  pub use_threads : Bool

abbrev pub buffer_size : Setup → ℕ
buffer_size s = s.page_size * buffer_pages

-- The buffer with the worst case of LZO's expansion and the size of a block in front.
unfoldable pub expanded_size : Setup → ℕ
expanded_size s = buffer_size s + round_up_page_size s.page_size (buffer_size s / 16 + 67 + 8)

-- The global variable is 0 without compression.
abbrev pub compress_buf_size : Setup → ℕ
compress_buf_size s = if s.do_compress then expanded_size s else 0

abbrev pub encrypt_buf_size : Setup → ℕ
encrypt_buf_size s = encrypt_buf_pages * s.page_size

abbrev pub thread_size : Setup → ℕ
thread_size s =
    (if ltb 0 (compress_buf_size s)
      then (write_buffer_count - 1) * compress_buf_size s
      else write_buffer_count * buffer_size s)
    + (if s.do_encrypt then 0 else write_buffer_count * buffer_size s)

-- `mem_size` in `main` of s2disk.
unfoldable pub suspend_mem_size : Setup → ℕ
suspend_mem_size s =
    2 * s.page_size
    + buffer_size s
    + (if s.do_compress then compress_buf_size s + round_up_page_size s.page_size s.lzo_work else 0)
    + (if s.do_encrypt then encrypt_buf_size s else 0)
    + (if s.use_threads then thread_size s else 0)

-- `mem_size` in `main` of resume, which does not know yet how the image was saved.
unfoldable pub resume_mem_size : Setup → ℕ
resume_mem_size s =
    2 * s.page_size
    + buffer_size s
    + s.page_size
    + (expanded_size s + round_up_page_size s.page_size s.lzo_work)

abbrev pub getmem_if : Bool → Pool → ℕ → Option ℕ × Pool
getmem_if c p size = if c then getmem p size else (none, p)

pub record Buffers : Type 0 where
  pub extents : Option ℕ
  pub buffer : Option ℕ
  pub encrypt_buffer : Option ℕ
  pub lzo_work_buffer : Option ℕ
  pub write_buffer : Option ℕ

-- One write buffer, or one for each place of the ring with the threads.
abbrev pub write_buf_size : Setup → ℕ
write_buf_size s =
    if s.use_threads
    then compress_buf_size s + (write_buffer_count - 1) * compress_buf_size s
    else compress_buf_size s

-- Without compression and threads the pages are written out of the buffer itself.
abbrev pub take_write_buffer : Setup → Option ℕ → Pool → Option ℕ × Pool
take_write_buffer s buffer p =
    if s.do_compress
    then getmem p (write_buf_size s)
    else if s.use_threads
    then getmem p (buffer_size s * write_buffer_count)
    else (buffer, p)

-- The calls of `getmem` in `init_swap_writer`.
unfoldable pub take_buffers : Setup → Pool → Buffers × Pool
take_buffers s p =
    let e = getmem p s.page_size in
    let b = getmem e.1 (buffer_size s) in
    let c = getmem_if s.do_encrypt b.1 (encrypt_buf_size s) in
    let l = getmem_if s.do_compress c.1 s.lzo_work in
    let w = take_write_buffer s b.0 l.1 in
    (
      record {
        extents = e.0;
        buffer = b.0;
        encrypt_buffer = c.0;
        lzo_work_buffer = l.0;
        write_buffer = w.0;
      },
      w.1,
    )

-- `freemem` compares addresses, and no area starts at address 0.
abbrev pub free : Option ℕ → Pool → Pool
free none p = freemem p 0
free (some a) p = freemem p a

abbrev pub free_if : Bool → Option ℕ → Pool → Pool
free_if c a p = if c then free a p else p

abbrev pub is_given : Option ℕ → Bool
is_given none = false
is_given (some a) = true

abbrev pub is_same : Option ℕ → Option ℕ → Bool
is_same none none = true
is_same (some a) (some b) = a == b
is_same none (some b) = false
is_same (some a) none = false

unfoldable pub free_swap_writer : Setup → Buffers → Pool → Pool
free_swap_writer s h p = free h.extents (
    free h.buffer (
      free_if (is_given h.encrypt_buffer) h.encrypt_buffer (
        free_if s.do_compress h.lzo_work_buffer
          (free_if (not (is_same h.write_buffer h.buffer)) h.write_buffer p))))

-- With the page that the first table of extents goes to; without one everything is given back.
unfoldable pub init_swap_writer :
    (k : SwapDevice) → Setup → Pool → k.State → Status × ℕ × Buffers × Pool × k.State
init_swap_writer k s p d =
    let (h, q) = take_buffers s p in
    let (offset, d') = get_swap_page k d in
    if offset == 0 then (enospc, 0, h, free_swap_writer s h q, d') else (ok, offset, h, q, d')

pub record ReadBuffers : Type 0 where
  pub extents : Option ℕ
  pub buffer : Option ℕ
  pub decrypt_buffer : Option ℕ
  pub read_buffer : Option ℕ
  pub lzo_work_buffer : Option ℕ

-- The calls of `getmem` in `init_swap_reader`; `do_encrypt` and `do_compress` stand for
-- `do_decrypt` and `do_decompress`.
unfoldable pub take_read_buffers : Setup → Pool → ReadBuffers × Pool
take_read_buffers s p =
    let e = getmem p s.page_size in
    let b = getmem e.1 (buffer_size s) in
    let c = getmem_if s.do_encrypt b.1 s.page_size in
    let r = if s.do_compress then getmem c.1 (expanded_size s) else (b.0, c.1) in
    let l = getmem_if s.do_compress r.1 s.lzo_work in
    (
      record {
        extents = e.0;
        buffer = b.0;
        decrypt_buffer = c.0;
        read_buffer = r.0;
        lzo_work_buffer = l.0;
      },
      l.1,
    )

unfoldable pub free_swap_reader : Setup → ReadBuffers → Pool → Pool
free_swap_reader s h p = free h.extents (
    free h.buffer (
      free_if s.do_encrypt h.decrypt_buffer
        (free_if s.do_compress h.read_buffer (free_if s.do_compress h.lzo_work_buffer p))))
