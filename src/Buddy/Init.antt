-- ===== src/Buddy/Init.antt =====
-- `buddy_estimate_pool_size`, `__populate_initial_freelists` and `buddy_init` of
-- kernel/src/mm/buddy_alloc.c. Of the entries' slab cache the number of free objects is kept. An
-- entry takes 8 bytes, so that a slab has 1021 of them.
pub mod Populate
use learning_os.Base.{
  ℕ, zero, suc, ◌+◌, ◌-◌, ◌*◌, ◌/◌, Bool, true, false, Option, none, some, List, [], ◌∷◌, ltb,
  if◌then◌else◌, ◌>>=◌, replicate, Mem, u8, u16, u32, u64, sub64, int_bit, ◌<<<◌, ◌>>>◌,
}
use learning_os.Math.{round_up_shift_right}
use learning_os.Bitmap.{bmp_init}
use learning_os.BootMmap.{PhysmemRegion, page_order, is_block_usable}
use learning_os.Buddy.Index.{max_order, buddy_bmp_size_bits}
use learning_os.Buddy.State.{BuddyAllocator, allocate_freelist_entry}

abbrev pub entries_per_slab : ℕ
entries_per_slab = 1021

-- `buddy_prealloc_vector`
pub record PreallocVector : Type 0 where
  pub bitmap_and_struct_pages : ℕ
  pub freelist_pool_slabs : ℕ

unfoldable pub buddy_estimate_pool_size : ℕ → PreallocVector
buddy_estimate_pool_size num_pages =
    let bitmap_struct_bytes = buddy_bmp_size_bits num_pages >>> 3 in
    let num_max_blocks = round_up_shift_right num_pages max_order in
    let freelist_nodes_estimate = num_max_blocks + 3 * (max_order + 1) in
    record {
      bitmap_and_struct_pages = u16 (round_up_shift_right bitmap_struct_bytes page_order);
      freelist_pool_slabs =
          u16 ((freelist_nodes_estimate + entries_per_slab - 1) / entries_per_slab);
    }

-- The inner loop, over the orders from `k - 1` down to 0.
unfoldable pub populate_block :
    List PhysmemRegion → ℕ → BuddyAllocator → ℕ → ℕ → Option BuddyAllocator
populate_block regions zero a cursor_page_offset inner_page_offset = some a
populate_block regions (suc order) a cursor_page_offset inner_page_offset =
    let curr_offset = inner_page_offset + cursor_page_offset in
    let block_start = u64 (a.base_addr + (curr_offset <<< page_order)) in
    elim (ltb inner_page_offset (int_bit max_order)) [
      | false ↦ some a
      | true ↦ elim (is_block_usable regions block_start (int_bit (12 + order))) [
        | false ↦ populate_block regions order a cursor_page_offset inner_page_offset
        | true ↦ do
          a' ← allocate_freelist_entry a curr_offset order
          let a'' = record a' {
            free_space_bytes = u64 (a'.free_space_bytes + int_bit (12 + order));
          }
          populate_block regions order a'' cursor_page_offset (inner_page_offset + int_bit order)
      ]
    ]

-- The outer loop, with a round for each block of the largest order.
unfoldable pub populate_from : List PhysmemRegion → ℕ → BuddyAllocator → ℕ → Option BuddyAllocator
populate_from regions zero a cursor_page_offset = some a
populate_from regions (suc k) a cursor_page_offset = do
  a' ← populate_block regions (max_order + 1) a cursor_page_offset 0
  populate_from regions k a' (cursor_page_offset + int_bit max_order)

unfoldable pub populate_initial_freelists :
    List PhysmemRegion → BuddyAllocator → Option BuddyAllocator
populate_initial_freelists regions a =
    let max_page_offset = sub64 a.end_addr a.base_addr >>> page_order in
    populate_from regions ((max_page_offset + int_bit max_order - 1) / int_bit max_order) a 0

-- `bitmap_base` and `pool_slabs` are the pool. `slab_cache_prealloc` takes the number of slabs as
-- a byte.
unfoldable pub buddy_init : List PhysmemRegion → Mem → ℕ → ℕ → ℕ → ℕ → Option BuddyAllocator
buddy_init regions mem bitmap_base pool_slabs base_addr end_addr =
    let region_size_pages = sub64 end_addr base_addr >>> page_order in
    let (bitmap, mem') = bmp_init mem bitmap_base (buddy_bmp_size_bits region_size_pages) in
    populate_initial_freelists regions (record {
      buddy_state_map = bitmap;
      mem = mem';
      total_free_objects = u32 (u8 pool_slabs * entries_per_slab);
      freelists = replicate (max_order + 1) [];
      base_addr = base_addr;
      end_addr = end_addr;
      free_space_bytes = 0;
      allocated_bytes = 0;
    })
