-- ===== src/Buddy/Shrink.antt =====
-- `buddy_shrink_block` of kernel/src/mm/buddy_alloc.c.
pub mod Pages
use learning_os.Base.{
  ℕ, zero, suc, ◌+◌, ◌-◌, ◌*◌, ◌%◌, ◌^◌, bit_and, bit_or, Bool, true, false, ◌&&◌, Option, none,
  some, List, [], ◌∷◌, ltb, leb, ◌==◌, if◌then◌else◌, ◌>>=◌, get_elem?, set, Mem, u8, u32, u64,
  sub64, not64, int_bit, ◌<<<◌, ◌>>>◌, min,
}
use learning_os.Math.{trunc_n_bits}
use learning_os.BootMmap.{page_order}
use learning_os.Buddy.Index.{max_order, buddy_bmp_index_of}
use learning_os.Buddy.State.{BuddyAllocator, allocate_freelist_entry, set_pair}

-- The loop of `buddy_shrink_block`, with the number of pages that it ends on. `num_pages` and
-- `split_order` are bytes, so behind 0 comes 255.
unfoldable pub shrink_loop : ℕ → BuddyAllocator → ℕ → ℕ → ℕ → Option (ℕ × BuddyAllocator)
shrink_loop zero a block_offset num_pages split_order = none
shrink_loop (suc k) a block_offset num_pages split_order =
    let bmp_index = buddy_bmp_index_of block_offset split_order in
    let right : Option (ℕ × BuddyAllocator) =
      shrink_loop k (set_pair a bmp_index 0) (block_offset + int_bit split_order)
        (num_pages - int_bit split_order) (u8 (split_order + 255)) in
    let left : Option (ℕ × BuddyAllocator) = (do
      a' ← allocate_freelist_entry a (block_offset + int_bit split_order) split_order
      shrink_loop k (set_pair a' bmp_index 1) block_offset num_pages (u8 (split_order + 255))) in
    if num_pages == int_bit (split_order + 1)
    then some (num_pages, a)
    else if ltb (int_bit split_order) num_pages
    then right
    else left

-- The first page of the block that holds an address.
unfoldable pub block_offset_of : BuddyAllocator → ℕ → ℕ → ℕ
block_offset_of a block_base block_order =
    trunc_n_bits (sub64 block_base a.base_addr >>> page_order) block_order

unfoldable pub buddy_shrink_block : BuddyAllocator → ℕ → ℕ → ℕ → Option BuddyAllocator
buddy_shrink_block a block_base block_order num_pages = do
  (left, a') ←
      shrink_loop (max_order + 2) a (block_offset_of a block_base block_order) num_pages
        (u8 (block_order + 255))
  let bytes_freed = sub64 (1 <<< block_order) left <<< page_order
  some (record a' {
    free_space_bytes = u64 (a'.free_space_bytes + bytes_freed);
    allocated_bytes = sub64 a'.allocated_bytes bytes_freed;
  })
