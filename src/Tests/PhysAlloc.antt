-- ===== src/Tests/PhysAlloc.antt =====
-- The theorems on kernel/src/mm/phys_alloc.c at concrete states.
use learning_os.Base.{
  ℕ, ◌+◌, ◌-◌, ◌/◌, ◌%◌, ◌^◌, ◌≤◌, ◌<◌, ◌≡◌, ◌≢◌, refl, Option, none, some, [], ◌∷◌, ◌>>=◌, u64,
  ◌<<<◌, store, arith,
}
use learning_os.Math.{bit_order, clz_from, trunc_n_bits, round_up_shift_right}
use learning_os.Bitmap.{bmp_get_bit, bmp_set_bit}
use learning_os.Buddy.Index.{max_order, buddy_bmp_index_of, buddy_bmp_size_bits}
use learning_os.Buddy.Index.Places.{index-lt-size}
use learning_os.Buddy.Free.Tells.{Tells}
use learning_os.Buddy.State.{BuddyAllocator, set_pair, allocate_freelist_entry, take_object}
use learning_os.Buddy.Free.{give_block, buddy_free_block}
use learning_os.Buddy.Shrink.{shrink_loop, block_offset_of, buddy_shrink_block}
use learning_os.Buddy.Pages.{span, free_pages}
use learning_os.Buddy.Valid.{IsValid}
use learning_os.Tests.States.{
  one_block, one_block-IsValid, one_block-HasBlock, all_used, all_used-IsValid, whole_region,
}
use learning_os.PhysAlloc.{freespace_check, phys_alloc, phys_block_shrink, phys_free, shrink_orders}
use learning_os.PhysAlloc.Alloc.{phys_alloc_lem}
use learning_os.PhysAlloc.Runs.{Frees, address_of}
use learning_os.PhysAlloc.Cuts.{phys_block_shrink-returns}
use learning_os.PhysAlloc.Ends.{phys_free-returns}

-- A kernel that maps the slab without taking a page of the allocator.
abbrev maps_nothing : BuddyAllocator → Option BuddyAllocator
maps_nothing a = some a

order_of_five : bit_order 5 ≡ 3
unfolding bit_order clz_from
order_of_five = refl

phys_alloc_example :
    (off : ℕ) × (a2 : BuddyAllocator) × (phys_alloc 170 maps_nothing one_block 5 ≡ (
      freespace_check 170 maps_nothing a2 >>= λ a3.
      some (u64 (one_block.base_addr + (off <<< 12)), a3)))
    × IsValid a2
    × ((x : ℕ) → free_pages a2.freelists x + span off 5 x ≡ free_pages one_block.freelists x)
    × (off % 2 ^ bit_order 5 ≡ 0)
    × (off + 2 ^ bit_order 5 ≤ 2 ^ 24)
phys_alloc_example =
    phys_alloc_lem 170 maps_nothing one_block 5 one_block-IsValid (omega arith) (omega arith)
      (one_block-HasBlock (bit_order 5) (rw order_of_five (omega arith))) (omega arith, omega arith)

abbrev or_same : BuddyAllocator → Option BuddyAllocator → BuddyAllocator
or_same a none = a
or_same a (some b) = b

abbrev shrunk : BuddyAllocator
shrunk = or_same all_used (phys_block_shrink 170 maps_nothing whole_region all_used 0x100000 5 2)

shrunk_lists : shrunk.freelists ≡ (4 ∷ []) ∷ (2 ∷ []) ∷ [] ∷ [] ∷ [] ∷ [] ∷ [] ∷ [] ∷ []
unfolding phys_block_shrink shrink_orders bit_order clz_from buddy_shrink_block shrink_loop
    allocate_freelist_entry take_object buddy_free_block give_block bmp_get_bit set_pair
    buddy_bmp_index_of bmp_set_bit block_offset_of trunc_n_bits store freespace_check
shrunk_lists = refl

no_bit : (i : ℕ) → bmp_get_bit all_used.mem all_used.buddy_state_map i ≢ 1
unfolding bmp_get_bit
no_bit i on = absurd (ground arith)

has_room : (k : ℕ) → k < max_order → buddy_bmp_index_of 4 k / 8 < 32
unfolding buddy_bmp_size_bits round_up_shift_right
has_room k small =
    let rounded : buddy_bmp_size_bits 256 ≡ 255 = refl in
    omega (arith, rounded, index-lt-size 4 256 k (omega arith) (omega arith) (omega arith))

all_used-Tells : Tells all_used 4 0
all_used-Tells = record {
  lists = refl;
  bytes = λ x. omega arith;
  in_range = λ k lo hi. has_room k hi;
  free = λ k lo hi on. absurd (no_bit (buddy_bmp_index_of 4 k) on);
}

phys_free_example :
    (b : BuddyAllocator) × (phys_free 170 maps_nothing whole_region all_used
        (address_of all_used 0)
        5
      ≡ freespace_check 170 maps_nothing b)
    × Frees all_used 0 5 b
phys_free_example =
    phys_free-returns 170 maps_nothing whole_region all_used 0 5 0 all_used-IsValid (omega arith)
      (omega arith) (rw order_of_five refl) (omega arith) (λ x lo hi. ground arith) (omega arith)
      (omega arith) all_used-Tells (omega arith)

phys_block_shrink_example :
    (b : BuddyAllocator) × (phys_block_shrink 170 maps_nothing whole_region all_used
        (address_of all_used 0)
        5
        2
      ≡ freespace_check 170 maps_nothing b)
    × Frees all_used (0 + 2) (5 - 2) b
phys_block_shrink_example =
    phys_block_shrink-returns 170 maps_nothing whole_region all_used 0 5 2 0 all_used-IsValid
      (omega arith) (rw order_of_five refl) (omega arith) (omega arith) (omega arith)
      (λ x lo hi. ground arith) (omega arith) (omega arith) all_used-Tells (omega arith)
