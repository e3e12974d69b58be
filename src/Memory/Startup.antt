-- ===== src/Memory/Startup.antt =====
-- The pool of s2disk from `init_memalloc` to the swap writer's buffers and back.
use suspend.Common.{
  ℕ, ◌+◌, ◌*◌, ◌/◌, ◌^◌, ◌≤◌, ◌<◌, ◌≡◌, ◌≢◌, refl, inl, inr, Bool-cases, true, false, Option, some,
  arith, ap, ◌∙◌, ◌==◌, ==→eq, ==_false→ne, ltb,
}
use suspend.Pool.{Pool, Slot, getmem, init_memalloc}
use suspend.Pool.Align.{pow-pos, pow_le}
use suspend.Pool.Startup.{init_memalloc-IsValid, init_memalloc_fields, init_memalloc_block}
use suspend.SwapAlloc.{SwapDevice, get_swap_page}
use suspend.Swap.{Status, ok, enospc}
use suspend.Memory.{
  Setup, suspend_mem_size, Buffers, take_buffers, is_given, free_swap_writer, init_swap_writer,
}
use suspend.Memory.Room.{HasRoom, getmem-IsServed, next_offset_first}
use suspend.Memory.Enough.{buffers-AreTaken, writer_size, whole, writer_size-suspend_mem_size}
use suspend.Memory.Nest.{IsSame}
use suspend.Memory.Release.{AreGiven, taken-AreGiven, free_swap_writer-IsSame}

-- A new pool has room for all that was asked for, in eight areas or more.
pub init_memalloc-HasRoom :
    (page j : ℕ) (malloc : ℕ → Option ℕ) (junk : Slot) (size : ℕ) {p : Pool}
    → page ≡ 8 * 2 ^ j
    → 4 ≤ j
    → j < 29
    → size + 2 * page ≤ 2 ^ 32
    → init_memalloc page malloc junk page size ≡ some p
    → HasRoom page p size 8
init_memalloc-HasRoom page j malloc junk size {p} e lo hi small h =
    let (block, b) = init_memalloc_block page malloc junk page size h in
    let (v, first, enough, _, _) =
      init_memalloc-IsValid page j malloc junk page size e hi small b h in
    let (same_page, nr) = init_memalloc_fields page malloc junk page size h in
    let no_area : ltb 0 p.cur ≡ false = ground (arith, first) in
    let at_start = next_offset_first p page no_area in
    let pos : 0 < page = omega (arith, e, pow-pos j) in
    let table = whole page page 1 pos (omega arith) in
    let places : p.nr_slots ≡ page / 16 = nr ∙ ap (λ x. x / 16) table in
    record {
      valid = v;
      same_page = same_page;
      slots_left = omega (arith, first, places, e, pow_le 4 j lo);
      bytes_left = omega (arith, at_start, enough);
    }

-- What `init_swap_writer` leaves where the kernel answers `got` to the request for a page of swap: the
-- buffers, and without a page an error and the pool as it was; otherwise the writer stands at the
-- page, and `free_swap_writer` gives everything back.
pub record IsOpened (s : Setup) (D : Type 0) (got : ℕ × D) (p : Pool)
    (r : Status × ℕ × Buffers × Pool × D) : Type 0 where
  pub given : AreGiven s r.2
  pub failed : got.0 ≡ 0 → (r.0 ≡ enospc) × IsSame p r.3
  pub opened : got.0 ≢ 0 → (r.0 ≡ ok) × (r.1 ≡ got.0) × IsSame p (free_swap_writer s r.2 r.3)
  pub asked_once : r.4 ≡ got.1

-- With room for its buffers in the pool `init_swap_writer` gets all that the settings ask for. It asks
-- the kernel for one page of swap. If there is none it reports -ENOSPC and the areas in use are those
-- from before; if there is one it succeeds and stands at that page, and the areas in use are those
-- from before after `free_swap_writer`.
pub init_swap_writer-IsOpened :
    (k : SwapDevice) (s : Setup) (p : Pool) (d : k.State)
    → 0 < s.page_size
    → 0 < s.lzo_work
    → HasRoom s.page_size p (writer_size s) 5
    → IsOpened s k.State (get_swap_page k d) p (init_swap_writer k s p d)
unfolding init_swap_writer
init_swap_writer-IsOpened k s p d pos lzo_pos room =
    let t = buffers-AreTaken s p pos lzo_pos room in
    let given = taken-AreGiven s p t pos in
    let back = free_swap_writer-IsSame s p t pos lzo_pos in
    elim (Bool-cases ((get_swap_page k d).0 == 0)) [
      | inl e ↦ rw e (record {
        given = given;
        failed = λ _. (refl, back);
        opened = λ h. absurd (h (==→eq _ _ e));
        asked_once = refl;
      })
      | inr e ↦ rw e (record {
        given = given;
        failed = λ h. absurd (==_false→ne _ _ e h);
        opened = λ _. (refl, refl, back);
        asked_once = refl;
      })
    ]

-- The memory that s2disk sets aside at the start is enough: the page for the header and all buffers of
-- the swap writer are there, whatever the settings.
pub suspend_mem_size-AreGiven :
    (s : Setup) (j : ℕ) (malloc : ℕ → Option ℕ) (junk : Slot) {p : Pool}
    → s.page_size ≡ 8 * 2 ^ j
    → 4 ≤ j
    → j < 29
    → 0 < s.lzo_work
    → suspend_mem_size s + 2 * s.page_size ≤ 2 ^ 32
    → init_memalloc s.page_size malloc junk s.page_size (suspend_mem_size s) ≡ some p
    → (is_given (getmem p s.page_size).0 ≡ true)
      × AreGiven s (take_buffers s (getmem p s.page_size).1).0
suspend_mem_size-AreGiven s j malloc junk {p} e lo hi lzo_pos small h =
    let page = s.page_size in
    let pos : 0 < page = omega (arith, e, pow-pos j) in
    let r = init_memalloc-HasRoom page j malloc junk (suspend_mem_size s) e lo hi small h in
    let one = whole page page 1 pos (omega arith) in
    let x =
      getmem-IsServed page p page (writer_size s) 5
        (record {
          valid = r.valid;
          same_page = r.same_page;
          slots_left = omega (arith, r.slots_left);
          bytes_left = omega (arith, r.bytes_left, one, writer_size-suspend_mem_size s pos);
        })
        pos in
    rw x.result (refl, taken-AreGiven s x.after (buffers-AreTaken s x.after pos lzo_pos x.room) pos)
