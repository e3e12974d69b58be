-- ===== src/Swap/Tests.antt =====
-- A run of `save_all` and `load_all` of five pages through three tables of two extents each, over
-- a kernel that hands out pages from a list and a cipher that adds a counter.
use suspend.Common.{
  none, ℕ, ◌+◌, ◌-◌, ◌≤◌, ◌≡◌, refl, inl, inr, Bool, true, false, not, ◌&&◌, Bool-cases, List, [],
  ◌∷◌, arith, ◌==◌, ==_false→ne, ap, ◌∙◌, sym,
}
use suspend.Extents.{Extent, nothing, add_page}
use suspend.SwapAlloc.{Reply, granted, refused, unsupported, SwapDevice, alloc_swap, get_swap_page}
use suspend.Swap.{Status, ok, Format, Disk, write_page, read_page}
use suspend.Swap.Writer.{
  preallocate_swap, take_allocation, save_page, next_swap_page, store_page, next_table, begin_table,
  save_extents, save_table, carried,
}
use suspend.Swap.Reader.{Reader, find_next_image_page, load_extents_page}
use suspend.Swap.Log.{IsUnwritten, IsDistinct}
use suspend.Swap.Run.{
  Cipher, Saver, Loader, save_all, load_all, save_pages, encrypt_and_save_page, load_pages,
  load_and_decrypt_page,
}
use suspend.Swap.RoundTrip.{load_all-save_all}
use suspend.Swap.Image.{load_image}
use suspend.Swap.Buffered.{load_image-load_pages}

pub data Block : Type 0 where
  table : List Extent → Block
  bytes : ℕ → Block

abbrev table_of : Block → List Extent
table_of (table t) = t
table_of (bytes n) = []

abbrev pub blocks : Format
blocks = record {
  Page = Block;
  of_table = table;
  to_table = table_of;
  to_table-of_table = λ t. refl;
}

abbrev add_counter : ℕ → Block → Status × Block × ℕ
add_counter c (bytes n) = (ok, bytes (n + c), c + 1)
add_counter c (table t) = (ok, table t, c + 1)

abbrev take_counter : ℕ → Block → Status × Block × ℕ
take_counter c (bytes n) = (ok, bytes (n - c), c + 1)
take_counter c (table t) = (ok, table t, c + 1)

pub take_counter-add_counter :
    (c : ℕ) (p q : Block) (c' : ℕ) → add_counter c p ≡ (ok, q, c') → take_counter c q ≡ (ok, p, c')
take_counter-add_counter c (bytes n) q c' e =
    ap (take_counter c) (sym (ap (λ x. x.1) e))
    ∙ (λ i. (ok, bytes (added i), c + 1))
    ∙ (λ i. (ok, bytes n, (e i).2))
  where
    added : (n + c) - c ≡ n
    added = omega arith
take_counter-add_counter c (table t) q c' e =
    ap (take_counter c) (sym (ap (λ x. x.1) e)) ∙ (λ i. (ok, table t, (e i).2))

abbrev pub counter : Cipher Block
counter = record {
  State = ℕ;
  encrypt = add_counter;
  decrypt = take_counter;
  decrypt-encrypt = take_counter-add_counter;
}

abbrev from_list : List ℕ → Reply × List ℕ
from_list [] = (refused, [])
from_list (o ∷ os) = (granted o, os)

abbrev pub listed : SwapDevice
listed = record {
  State = List ℕ;
  alloc_swap_page = from_list;
  old_get_swap_page = λ l. (unsupported, l);
}

abbrev pub empty : Saver listed blocks counter
empty = record {
  writer = record {
    extents = nothing ∷ nothing ∷ nothing ∷ [];
    nr_extents = 0;
    cur_extent_idx = 0;
    cur_offset = 0;
    swap_needed = 5;
    written_data = 0;
    extents_spc = 1;
    dev = 3 ∷ 5 ∷ 7 ∷ 9 ∷ 11 ∷ 13 ∷ 15 ∷ 17 ∷ 19 ∷ [];
    disk = record { writes = []; old = λ o. bytes 0 };
  };
  state = 7;
  encrypt_ptr = 0;
}

abbrev pub image : List Block
image = bytes 1 ∷ bytes 20 ∷ bytes 3 ∷ bytes 40 ∷ bytes 5 ∷ []

abbrev pub always : ℕ → Bool
always o = true

unfoldable pub run : Status × Saver listed blocks counter
run = save_all listed blocks counter always 1 2 2 false true empty image

abbrev pub unwritten : List (ℕ × Block) → ℕ → Bool
unwritten [] offset = true
unwritten ((o, q) ∷ ws) offset = not (o == offset) && unwritten ws offset

abbrev pub each_once : List (ℕ × Block) → Bool
each_once [] = true
each_once ((o, q) ∷ ws) = unwritten ws o && each_once ws

unwritten-IsUnwritten : (ws : List (ℕ × Block)) (o : ℕ) → unwritten ws o ≡ true → IsUnwritten ws o
unwritten-IsUnwritten [] o h = tt
unwritten-IsUnwritten ((x, q) ∷ ws) o h = elim (Bool-cases (x == o)) [
  | inl t ↦ let e : false ≡ true = rw t at h in absurd (cc)
  | inr t ↦ (==_false→ne x o t, unwritten-IsUnwritten ws o (rw t at h))
]

pub each_once-IsDistinct : (ws : List (ℕ × Block)) → each_once ws ≡ true → IsDistinct ws
each_once-IsDistinct [] h = tt
each_once-IsDistinct ((x, q) ∷ ws) h = elim (Bool-cases (unwritten ws x)) [
  | inl t ↦ (unwritten-IsUnwritten ws x t, each_once-IsDistinct ws (rw t at h))
  | inr t ↦ let e : false ≡ true = rw t at h in absurd (cc)
]

save_all_ok : run.0 ≡ ok
unfolding run save_all preallocate_swap take_allocation alloc_swap get_swap_page add_page save_pages
    encrypt_and_save_page save_page next_swap_page store_page write_page next_table begin_table
    save_extents save_table carried
save_all_ok = refl

pub run_each_once : each_once run.1.writer.disk.writes ≡ true
unfolding run save_all preallocate_swap take_allocation alloc_swap get_swap_page add_page save_pages
    encrypt_and_save_page save_page next_swap_page store_page write_page next_table begin_table
    save_extents save_table carried
run_each_once = refl

pub one_page : 1 ≤ (preallocate_swap listed blocks always 1 2 false empty.writer).0
unfolding preallocate_swap take_allocation alloc_swap get_swap_page add_page
one_page = omega arith

abbrev pub final : Disk Block
final = run.1.writer.disk

abbrev pub first_table : Reader
first_table = record {
  extents = [];
  cur_extent_idx = 0;
  cur_offset = 0;
  next_extents = 1;
  total_size = 5;
}

load_all-save_all_example :
    ((load_all listed blocks counter always 1 2 true final 5
        (record { reader = first_table; state = 7 })
        (bytes 0)).0
      ≡ ok)
    × ((load_all listed blocks counter always 1 2 true final 5
          (record { reader = first_table; state = 7 })
          (bytes 0)).1
        ≡ image)
unfolding run
load_all-save_all_example =
    load_all-save_all listed blocks counter always always 1 2 2 false true final
      (each_once-IsDistinct final.writes run_each_once) (λ o. refl) (omega arith) (omega arith)
      empty image first_table (bytes 0) refl refl refl one_page save_all_ok refl

-- Three pages in a row, read through a buffer of two.
abbrev in_a_row : Loader listed blocks counter
in_a_row = record {
  reader = record {
    extents = record { start = 3; end = 6 } ∷ nothing ∷ nothing ∷ [];
    cur_extent_idx = 0;
    cur_offset = 3;
    next_extents = 0;
    total_size = 3;
  };
  state = 7;
}

abbrev three : Disk Block
three = record { writes = (5, bytes 30) ∷ (4, bytes 20) ∷ (3, bytes 10) ∷ []; old = λ o. bytes 0 }

abbrev in_turn : Status × List Block × Loader listed blocks counter
in_turn = load_pages listed blocks counter always 1 2 true three 3 in_a_row (bytes 0)

in_turn_ok : in_turn.0 ≡ ok
unfolding load_pages load_and_decrypt_page read_page find_next_image_page load_extents_page
in_turn_ok = refl

in_turn_pages : in_turn.1 ≡ bytes 3 ∷ bytes 12 ∷ bytes 21 ∷ []
unfolding load_pages load_and_decrypt_page read_page find_next_image_page load_extents_page
in_turn_pages = refl

load_image-load_pages_example :
    load_image listed blocks counter always 1 2 true three 2 false
      (λ p. 0)
      (λ ps. none)
      (bytes 0)
      false
      (λ p. true)
      3
      in_a_row
    ≡ (ok, in_turn.1)
load_image-load_pages_example =
    load_image-load_pages listed blocks counter always 1 2 true three 2 (λ p. 0) (λ ps. none)
      (bytes 0) false (λ p. true) (λ p. refl) (omega arith) (omega arith) 3 in_a_row (omega arith)
      (omega arith) in_turn_ok
