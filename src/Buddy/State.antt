-- ===== src/Buddy/State.antt =====
-- The state of `buddy_allocator_t` in kernel/include/mm/buddy_alloc.h, and the steps that the
-- operations share. A free list is the list of the page offsets along its chain of entries, head
-- first. Of the slab cache that holds the entries the allocator reads `total_free_objects` alone.
-- A result `none` is behaviour that C leaves undefined: an access past the end of `freelists`, or
-- through a NULL entry.
pub mod Frame
use learning_os.Base.{
  ℕ, zero, suc, ◌+◌, ◌-◌, ◌*◌, ◌%◌, ◌^◌, bit_and, bit_or, Bool, true, false, ◌&&◌, Option, none,
  some, List, [], ◌∷◌, ltb, leb, ◌==◌, if◌then◌else◌, ◌>>=◌, get_elem?, set, Mem, u8, u32, u64,
  sub64, not64, int_bit, ◌<<<◌, ◌>>>◌, min,
}
use learning_os.Bitmap.{Bitmap, bmp_set_bit, bmp_toggle_bit}

pub record BuddyAllocator : Type 0 where
  pub buddy_state_map : Bitmap
  pub mem : Mem
  pub total_free_objects : ℕ
  pub freelists : List (List ℕ)
  pub base_addr : ℕ
  pub end_addr : ℕ
  pub free_space_bytes : ℕ
  pub allocated_bytes : ℕ

-- `slab_alloc` of an entry, by the count of the free ones. With none left it maps a slab by
-- `vm_alloc_block`, which enters this allocator again in the middle of the operation: this is not
-- followed, and gives `none`.
unfoldable pub take_object : ℕ → Option ℕ
take_object zero = none
take_object (suc total_free_objects) = some total_free_objects

-- An entry taken from the slab cache goes to the head of the list of its order. Its page offset
-- is a bit field of 24 bits.
unfoldable pub allocate_freelist_entry : BuddyAllocator → ℕ → ℕ → Option BuddyAllocator
allocate_freelist_entry a page_offset order = do
  total ← take_object a.total_free_objects
  entries ← get_elem? a.freelists order
  some (record a {
    freelists = set a.freelists order ((page_offset % 2 ^ 24) ∷ entries);
    total_free_objects = total;
  })

-- `slab_free` of an entry
unfoldable pub release_freelist_entry : BuddyAllocator → BuddyAllocator
release_freelist_entry a = record a { total_free_objects = u32 (a.total_free_objects + 1) }

unfoldable pub set_pair : BuddyAllocator → ℕ → ℕ → BuddyAllocator
set_pair a bmp_index value = record a {
  mem = (bmp_set_bit a.mem a.buddy_state_map bmp_index value).1;
}

unfoldable pub toggle_pair : BuddyAllocator → ℕ → BuddyAllocator
toggle_pair a bmp_index = record a { mem = (bmp_toggle_bit a.mem a.buddy_state_map bmp_index).1 }
