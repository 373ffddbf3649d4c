-- ===== src/Tests/Merges.antt =====
-- Merging in `buddy_free_block` of kernel/src/mm/buddy_alloc.c at concrete states.
use learning_os.Base.{
  ℕ, zero, suc, ◌+◌, ◌/◌, ◌<◌, ◌≡◌, refl, Option, none, some, [], ◌∷◌, arith, ◌==◌, store,
  if◌then◌else◌, ◌>>=◌, inl, u64, sub64, ◌<<<◌,
}
use learning_os.BootMmap.{is_block_usable}
use learning_os.Bitmap.{bmp_get_bit, bmp_set_bit, bmp_toggle_bit}
use learning_os.Buddy.Index.{buddy_bmp_index_of, buddy_page_offset, max_order}
use learning_os.Buddy.State.{
  BuddyAllocator, set_pair, toggle_pair, release_freelist_entry, allocate_freelist_entry,
  take_object,
}
use learning_os.Buddy.Pages.{covers, free_pages}
use learning_os.Buddy.Alloc.{
  buddy_alloc_block, take_block, find_or_split_block, find_order, split_block, split_levels,
}
use learning_os.Buddy.Free.{
  pop_freelist_entry, unlink_entry, can_coalesce, merge, coalesce, insert_coalesced, give_block,
  buddy_free_block,
}
use learning_os.Buddy.Free.Pages.{offset_of}
use learning_os.Buddy.Free.Tells.{Tells, Listed, block_start}
use learning_os.Buddy.Free.Returns.{free_block-returns}
use learning_os.Buddy.Valid.{IsValid}
use learning_os.Tests.States.{allocator, half_pair, half_pair-IsValid, whole_region}

small_index : (k : ℕ) → k < max_order → buddy_bmp_index_of 0 k / 8 < 32
unfolding buddy_bmp_index_of
small_index zero h = omega arith
small_index (suc zero) h = omega arith
small_index (suc (suc zero)) h = omega arith
small_index (suc (suc (suc zero))) h = omega arith
small_index (suc (suc (suc (suc zero)))) h = omega arith
small_index (suc (suc (suc (suc (suc zero))))) h = omega arith
small_index (suc (suc (suc (suc (suc (suc zero)))))) h = omega arith
small_index (suc (suc (suc (suc (suc (suc (suc k))))))) h = absurd (omega arith)

only_first :
    (k : ℕ)
    → k < max_order
    → bmp_get_bit half_pair.mem half_pair.buddy_state_map (buddy_bmp_index_of 0 k) ≡ 1
    → Listed half_pair k (buddy_page_offset (block_start 0 k) k)
unfolding bmp_get_bit buddy_bmp_index_of buddy_page_offset
only_first zero h on = (1 ∷ [], refl, refl)
only_first (suc zero) h on = absurd (omega arith)
only_first (suc (suc zero)) h on = absurd (omega arith)
only_first (suc (suc (suc zero))) h on = absurd (omega arith)
only_first (suc (suc (suc (suc zero)))) h on = absurd (omega arith)
only_first (suc (suc (suc (suc (suc zero))))) h on = absurd (omega arith)
only_first (suc (suc (suc (suc (suc (suc zero)))))) h on = absurd (omega arith)
only_first (suc (suc (suc (suc (suc (suc (suc k))))))) h on = absurd (omega arith)

half_pair-Tells : Tells half_pair 0 0
half_pair-Tells = record {
  lists = refl;
  bytes = λ x. ground arith;
  in_range = λ k above below. small_index k below;
  free = λ k above below on. only_first k below on;
}

free_block-returns_example :
    (a' : BuddyAllocator) × (buddy_free_block whole_region half_pair 0x100000 0 ≡ some a')
    × IsValid a'
    × ((x : ℕ)
        → free_pages a'.freelists x
          ≡ free_pages half_pair.freelists x + covers 0 (offset_of half_pair 0x100000) x)
    × (a'.free_space_bytes ≡ u64 (half_pair.free_space_bytes + (1 <<< 12)))
    × (a'.allocated_bytes ≡ sub64 half_pair.allocated_bytes (1 <<< 12))
free_block-returns_example =
    free_block-returns whole_region half_pair 0x100000 0 half_pair-IsValid
      (omega arith, refl, omega arith) (inl (omega arith)) (omega arith) (λ x lo hi. ground arith)
      half_pair-Tells (omega arith)

-- Pages 64 to 127 are a free block of order 6, and the bit of its pair is on.
abbrev half_largest : BuddyAllocator
half_largest =
    allocator ([] ∷ [] ∷ [] ∷ [] ∷ [] ∷ [] ∷ (64 ∷ []) ∷ [] ∷ []) (λ a. if a == 7 then 128 else 0)

-- The lower half is freed, and both halves are allocated.
abbrev both_halves : Option BuddyAllocator
both_halves = do
  whole ← buddy_free_block whole_region half_largest 0x100000 6
  (upper, one) ← buddy_alloc_block whole 6
  (lower, two) ← buddy_alloc_block one 6
  some two

-- Freeing one of them looks for the entry of the other one, which is in use.
stale_bit :
    (a : BuddyAllocator) × (both_halves ≡ some a)
    × (buddy_free_block whole_region a 0x100000 6 ≡ none)
unfolding buddy_free_block give_block coalesce merge can_coalesce pop_freelist_entry unlink_entry
    insert_coalesced set_pair toggle_pair bmp_get_bit bmp_set_bit bmp_toggle_bit buddy_bmp_index_of
    buddy_page_offset is_block_usable release_freelist_entry store buddy_alloc_block take_block
    find_or_split_block find_order split_block split_levels allocate_freelist_entry take_object
stale_bit = (_, refl, refl)
