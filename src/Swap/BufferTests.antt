-- ===== src/Swap/BufferTests.antt =====
-- The run of Swap/Tests with `save_image` and `load_image`, through their buffers.
use suspend.Common.{map, ◌++◌, ℕ, ◌≡◌, refl, true, false, List, [], ◌∷◌}
use suspend.Extents.{add_page}
use suspend.SwapAlloc.{alloc_swap, get_swap_page}
use suspend.Swap.{Status, ok, write_page}
use suspend.Swap.Writer.{
  preallocate_swap, take_allocation, save_page, next_swap_page, store_page, next_table, begin_table,
  save_extents, save_table, carried,
}
use suspend.Swap.Run.{Saver, save_pages, after_pages, encrypt_and_save_page}
use suspend.Swap.Complete.{IsComplete, save_image-IsComplete}
use suspend.Swap.Flush.{
  Read, Sending, Key, page_read, end_read, flush_buffer, image_loop, save_image, write_pages,
}
use suspend.Swap.Flushed.{save_image-chunks}
use suspend.Swap.Tests.{Block, bytes, blocks, counter, listed, always, empty, image}

-- The image through buffers of two pages. Its header page is in the buffer at the start, and 4 pages are
-- left, which is what its header notes: the last page is not handed on.
abbrev no_keys : ℕ → List Key
no_keys i = []

abbrev same_pages : List Block → List Block
same_pages ps = ps

abbrev rest_of_image : List Block
rest_of_image = bytes 20 ∷ bytes 3 ∷ bytes 40 ∷ bytes 5 ∷ []

unfoldable buffered : Status × Saver listed blocks counter
buffered =
    write_pages listed blocks counter always 1 2 2 false true same_pages 2 false no_keys 4
      (map page_read rest_of_image ++ (end_read ∷ [])) (bytes 1 ∷ []) empty

save_image-chunks_example :
    save_image listed blocks counter always 1 2 2 false true same_pages 2 false no_keys 5
      (map page_read rest_of_image ++ (end_read ∷ []))
      (record { saver = empty; buffer = bytes 1 ∷ []; reboot = false })
    ≡ after_pages listed blocks counter always 1 2 2 false true
        (save_pages listed blocks counter always 1 2 2 false true empty image)
save_image-chunks_example =
    save_image-chunks listed blocks counter always 1 2 2 false true same_pages 2 5 false no_keys
      (λ i r. refl) rest_of_image []
      (record { saver = empty; buffer = bytes 1 ∷ []; reboot = false })

abbrev begun : Sending listed blocks counter always 1 2 2 false true same_pages
begun = record {
  saver = record empty {
    writer = record (preallocate_swap listed blocks always 1 2 false empty.writer).1 {
      cur_offset = 2;
    };
  };
  buffer = bytes 1 ∷ [];
  reboot = false;
}

abbrev all_reads : List (Read Block)
all_reads = map page_read rest_of_image ++ (end_read ∷ [])

begun_ok :
    (save_image listed blocks counter always 1 2 2 false true same_pages 2 true no_keys 5 all_reads
      begun).0
    ≡ ok
unfolding save_image image_loop flush_buffer preallocate_swap take_allocation alloc_swap
    get_swap_page add_page save_pages encrypt_and_save_page save_page next_swap_page store_page
    write_page next_table begin_table save_extents save_table carried
begun_ok = refl

save_image-IsComplete_example : IsComplete all_reads
save_image-IsComplete_example =
    save_image-IsComplete listed blocks counter always 1 2 2 false true same_pages 2 true no_keys 5
      all_reads begun begun_ok
