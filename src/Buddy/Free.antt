-- ===== src/Buddy/Free.antt =====
-- `buddy_free_block`, `__can_coalesce` and `__pop_freelist_entry` of kernel/src/mm/buddy_alloc.c.
pub mod Unlink
pub mod Pages
pub mod Tells
pub mod Returns
use learning_os.Base.{
  ℕ, zero, suc, ◌+◌, ◌-◌, ◌*◌, ◌%◌, ◌^◌, bit_and, bit_or, Bool, true, false, ◌&&◌, Option, none,
  some, List, [], ◌∷◌, ltb, leb, ◌==◌, if◌then◌else◌, ◌>>=◌, get_elem?, set, Mem, u8, u32, u64,
  sub64, not64, int_bit, ◌<<<◌, ◌>>>◌, min,
}
use learning_os.Bitmap.{bmp_get_bit}
use learning_os.BootMmap.{PhysmemRegion, is_block_usable, page_order}
use learning_os.Buddy.Index.{max_order, buddy_bmp_index_of, buddy_page_offset}
use learning_os.Buddy.State.{
  BuddyAllocator, allocate_freelist_entry, release_freelist_entry, set_pair, toggle_pair,
}

-- The walk of `__pop_freelist_entry`: the list less the first entry at `page_offset`.
unfoldable pub unlink_entry : List ℕ → ℕ → Option (List ℕ)
unlink_entry [] page_offset = none
unlink_entry (entry ∷ entries) page_offset = elim (entry == page_offset) [
  | true ↦ some entries
  | false ↦ do rest ← unlink_entry entries page_offset; some (entry ∷ rest)
]

-- A result NULL is a fault, since both callers access the entry.
unfoldable pub pop_freelist_entry : BuddyAllocator → ℕ → ℕ → Option BuddyAllocator
pop_freelist_entry a page_offset order = do
  entries ← get_elem? a.freelists order
  rest ← unlink_entry entries page_offset
  some (record a { freelists = set a.freelists order rest })

unfoldable pub can_coalesce : List PhysmemRegion → BuddyAllocator → ℕ → ℕ → Bool
can_coalesce regions a coalesced_offset order =
    let bmp_index = buddy_bmp_index_of coalesced_offset order in
    let buddy_pair_state = bmp_get_bit a.mem a.buddy_state_map bmp_index in
    let buddy_offset = buddy_page_offset coalesced_offset order in
    let buddy_addr = u64 (a.base_addr + (buddy_offset <<< page_order)) in
    buddy_pair_state == 1 && is_block_usable regions buddy_addr (int_bit (page_order + order))

-- What the coalescing loop leaves: the block, and the index that was last computed.
pub record Coalesced : Type 0 where
  pub state : BuddyAllocator
  pub offset : ℕ
  pub order : ℕ
  pub bmp_index : ℕ

-- The buddy of the block leaves the list of its order, and the pair becomes one block.
unfoldable pub merge : Coalesced → Option Coalesced
merge c = do
  let bmp_index = buddy_bmp_index_of c.offset c.order
  let buddy_offset = buddy_page_offset c.offset c.order
  a ← pop_freelist_entry c.state buddy_offset c.order
  some (record {
    state = set_pair (release_freelist_entry a) bmp_index 0;
    offset = min c.offset buddy_offset;
    order = c.order + 1;
    bmp_index = bmp_index;
  })

-- The loop of `buddy_free_block`, behind `++coalesced_order`. Each order below `max_order` takes
-- one round. `__can_coalesce` leaves the index of the pair that it looked at.
unfoldable pub coalesce : ℕ → List PhysmemRegion → Coalesced → Option Coalesced
coalesce zero regions c = none
coalesce (suc k) regions c = elim (ltb c.order max_order) [
  | false ↦ some c
  | true ↦ elim (can_coalesce regions c.state c.offset c.order) [
    | true ↦ merge c >>= coalesce k regions
    | false ↦ some (record c { bmp_index = buddy_bmp_index_of c.offset c.order })
  ]
]

-- The entry of the buddy moves to the list of the order that was reached.
unfoldable pub insert_coalesced : Coalesced → Option BuddyAllocator
insert_coalesced c = do
  let a = c.state
  entries ← get_elem? a.freelists c.order
  some (
      toggle_pair (record a { freelists = set a.freelists c.order ((c.offset % 2 ^ 24) ∷ entries) })
        c.bmp_index)

-- `buddy_free_block` without its accounting, for a block at a page offset.
unfoldable pub give_block : List PhysmemRegion → BuddyAllocator → ℕ → ℕ → Option BuddyAllocator
give_block regions a block_base order =
    let page_offset = sub64 block_base a.base_addr >>> page_order in
    let order_bytes = 1 <<< (page_order + order) in
    let bmp_index = buddy_bmp_index_of page_offset order in
    let buddy_pair_state = bmp_get_bit a.mem a.buddy_state_map bmp_index in
    let buddy_offset = buddy_page_offset page_offset order in
    if buddy_pair_state == 1 && is_block_usable regions (u64 (block_base + order_bytes)) order_bytes
    then (do
      a' ← pop_freelist_entry a buddy_offset order
      c ← coalesce (max_order + 1) regions (record {
        state = set_pair a' bmp_index 0;
        offset = min page_offset buddy_offset;
        order = order + 1;
        bmp_index = bmp_index;
      })
      insert_coalesced c)
    else (do a' ← allocate_freelist_entry a page_offset order; some (set_pair a' bmp_index 1))

unfoldable pub buddy_free_block :
    List PhysmemRegion → BuddyAllocator → ℕ → ℕ → Option BuddyAllocator
buddy_free_block regions a block_base order = do
  a' ← give_block regions a block_base order
  let bytes = 1 <<< (order + page_order)
  some (record a' {
    free_space_bytes = u64 (a'.free_space_bytes + bytes);
    allocated_bytes = sub64 a'.allocated_bytes bytes;
  })
