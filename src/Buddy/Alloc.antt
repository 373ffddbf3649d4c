-- ===== src/Buddy/Alloc.antt =====
-- `buddy_alloc_block` and `__find_or_split_block` of kernel/src/mm/buddy_alloc.c.
pub mod Split
pub mod Pages
use learning_os.Base.{
  ℕ, zero, suc, ◌+◌, ◌-◌, ◌*◌, ◌%◌, ◌^◌, bit_and, bit_or, Bool, true, false, ◌&&◌, Option, none,
  some, List, [], ◌∷◌, ltb, leb, ◌==◌, if◌then◌else◌, ◌>>=◌, get_elem?, set, Mem, u8, u32, u64,
  sub64, not64, int_bit, ◌<<<◌, ◌>>>◌, min,
}
use learning_os.BootMmap.{page_order}
use learning_os.Buddy.Index.{max_order, page_offset_oob, buddy_bmp_index_of}
use learning_os.Buddy.State.{
  BuddyAllocator, allocate_freelist_entry, release_freelist_entry, toggle_pair,
}

-- The loop that looks for a free block, from `order` up, with the order it stops at; each order
-- up to `max_order + 1` takes one round.
unfoldable pub find_order : ℕ → List (List ℕ) → ℕ → Option ℕ
find_order zero freelists order = none
find_order (suc k) freelists order = do
  free_block ← get_elem? freelists order
  elim free_block [
    | [] ↦ if ltb order max_order then find_order k freelists (order + 1) else some (order + 1)
    | p ∷ rest ↦ some order
  ]

-- The loop over the orders from `target_order + levels` down to `target_order + 1`, which frees
-- the upper half of the block at each.
unfoldable pub split_levels : BuddyAllocator → ℕ → ℕ → ℕ → Option BuddyAllocator
split_levels a page_offset target_order zero = some a
split_levels a page_offset target_order (suc levels) = do
  let order = target_order + suc levels
  a' ← allocate_freelist_entry a (page_offset + int_bit order) order
  split_levels (toggle_pair a' (buddy_bmp_index_of page_offset order)) page_offset target_order
      levels

-- The tail of `__find_or_split_block`, once the list of `order` has given its head.
unfoldable pub split_block : BuddyAllocator → ℕ → ℕ → ℕ → Option (ℕ × BuddyAllocator)
split_block a page_offset order target_order = do
  let a1 = toggle_pair a (buddy_bmp_index_of page_offset order)
  a2 ← split_levels a1 page_offset target_order (order - 1 - target_order)
  entries ← get_elem? a2.freelists target_order
  let a3 = record a2 { freelists = set a2.freelists target_order (page_offset ∷ entries) }
  some (
    page_offset + int_bit target_order,
    toggle_pair a3 (buddy_bmp_index_of page_offset target_order),
  )

unfoldable pub find_or_split_block : BuddyAllocator → ℕ → Option (ℕ × BuddyAllocator)
find_or_split_block a target_order = do
  order ← find_order (max_order + 1) a.freelists (u8 (target_order + 1))
  if ltb max_order order then some (page_offset_oob, a) else do
    entries ← get_elem? a.freelists order
    elim entries [
      | [] ↦ none
      | page_offset ∷ rest ↦
          split_block (record a { freelists = set a.freelists order rest }) page_offset order
            target_order
    ]

-- The block that `buddy_alloc_block` takes, as a page offset.
unfoldable pub take_block : BuddyAllocator → ℕ → Option (ℕ × BuddyAllocator)
take_block a order = do
  entries ← get_elem? a.freelists order
  elim entries [
    | [] ↦ find_or_split_block a order
    | page_offset ∷ rest ↦ some (
      page_offset,
      toggle_pair (release_freelist_entry (record a { freelists = set a.freelists order rest }))
          (buddy_bmp_index_of page_offset order),
    )
  ]

unfoldable pub buddy_alloc_block : BuddyAllocator → ℕ → Option (ℕ × BuddyAllocator)
buddy_alloc_block a order = do
  (page_offset, a') ← take_block a order
  let bytes = int_bit (order + page_order)
  some (
    u64 (a'.base_addr + (page_offset <<< page_order)),
    record a' {
      free_space_bytes = sub64 a'.free_space_bytes bytes;
      allocated_bytes = u64 (a'.allocated_bytes + bytes);
    },
  )
