-- ===== src/Buddy/Index.antt =====
-- Page offsets, buddies and places in the bitmap, of kernel/include/mm/buddy_alloc.h and
-- kernel/src/mm/buddy_alloc.c.
pub mod Places
pub mod Buddies
use learning_os.Base.{
  ℕ, zero, suc, ◌+◌, ◌-◌, ◌*◌, ◌%◌, ◌^◌, bit_and, bit_or, Bool, true, false, ◌&&◌, Option, none,
  some, List, [], ◌∷◌, ltb, leb, ◌==◌, if◌then◌else◌, ◌>>=◌, get_elem?, set, Mem, u8, u32, u64,
  sub64, not64, int_bit, ◌<<<◌, ◌>>>◌, min,
}
use learning_os.Math.{mask_for_first_n_bits, round_up_shift_right}

abbrev pub max_order : ℕ
max_order = 7

abbrev pub page_offset_oob : ℕ
page_offset_oob = 0xFFFFFFFFFFFFFFFF

abbrev pub max_block_bits : ℕ
max_block_bits = int_bit (max_order + 1) - 1

unfoldable pub buddy_bmp_index_of : ℕ → ℕ → ℕ
buddy_bmp_index_of page_offset order =
    let max_block_offset = page_offset >>> (max_order + 1) in
    let mask_test = mask_for_first_n_bits (max_order + 1) in
    let max_block_remainder = bit_and page_offset mask_test in
    let bit_offset =
      bit_or (bit_and max_block_remainder (not64 (mask_for_first_n_bits order))) (int_bit order) in
    max_block_offset * max_block_bits + bit_offset - 1

unfoldable pub buddy_bmp_size_bits : ℕ → ℕ
buddy_bmp_size_bits num_pages = round_up_shift_right num_pages (max_order + 1) * max_block_bits

unfoldable pub buddy_page_offset : ℕ → ℕ → ℕ
buddy_page_offset page_offset order =
    let alignment_mask = mask_for_first_n_bits (order + 1) in
    if bit_and page_offset alignment_mask == 0
    then page_offset + int_bit order
    else if ltb page_offset (int_bit order)
    then page_offset + 2 ^ 64 - int_bit order
    else page_offset - int_bit order
