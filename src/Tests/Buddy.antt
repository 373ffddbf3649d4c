-- ===== src/Tests/Buddy.antt =====
-- The theorems on kernel/src/mm/buddy_alloc.c at concrete states.
use learning_os.Base.{
  ℕ, zero, suc, ◌+◌, ◌-◌, ◌/◌, ◌%◌, ◌^◌, ◌≤◌, ◌<◌, ◌≡◌, ◌↔◌, refl, none, some, [], get_elem?, true,
  false, arith, ◌==◌, if◌then◌else◌, u64, sub64, ◌<<<◌,
}
use learning_os.BootMmap.{is_block_usable}
use learning_os.Math.{trunc_n_bits}
use learning_os.Bitmap.{bmp_get_bit}
use learning_os.Buddy.Index.{buddy_bmp_index_of, max_order, buddy_bmp_size_bits}
use learning_os.Buddy.Index.Places.{index_iff, index-lt-size}
use learning_os.Buddy.State.{BuddyAllocator}
use learning_os.Buddy.Pages.{covers, span, free_pages}
use learning_os.Buddy.Alloc.{buddy_alloc_block}
use learning_os.Buddy.Alloc.Pages.{alloc_block_exhausted}
use learning_os.Buddy.Free.{buddy_free_block}
use learning_os.Buddy.Free.Pages.{merges, free_largest_faults}
use learning_os.Buddy.Shrink.{buddy_shrink_block, block_offset_of}
use learning_os.Buddy.Shrink.Pages.{bytes_freed}
use learning_os.Buddy.Valid.{IsValid, alloc_block-IsValid, shrink_block-IsValid}
use learning_os.Tests.States.{
  one_block, one_block-IsValid, one_block-HasBlock, all_used, all_used-IsValid, whole_region,
  allocator,
}

alloc_block_example :
    (off : ℕ) × (a' : BuddyAllocator) × (buddy_alloc_block one_block 3
      ≡ some (u64 (0x100000 + (off <<< 12)), a'))
    × IsValid a'
    × (off % 2 ^ 3 ≡ 0)
    × (off + 2 ^ 3 ≤ 2 ^ 24)
    × ((x : ℕ) → free_pages a'.freelists x + covers 3 off x ≡ free_pages one_block.freelists x)
    × (a'.free_space_bytes ≡ sub64 one_block.free_space_bytes (2 ^ (3 + 12)))
    × (a'.allocated_bytes ≡ u64 (one_block.allocated_bytes + 2 ^ (3 + 12)))
    × (a'.base_addr ≡ one_block.base_addr)
    × (one_block.total_free_objects ≤ a'.total_free_objects + (6 - 3))
alloc_block_example =
    alloc_block-IsValid one_block 3 one_block-IsValid (omega arith)
      (one_block-HasBlock 3 (omega arith)) (omega arith, omega arith)

first_block : block_offset_of all_used 0x100000 3 + 2 ^ 3 ≤ 2 ^ 24
unfolding block_offset_of trunc_n_bits
first_block = omega arith

shrink_block_example :
    (a' : BuddyAllocator) × (left : ℕ) × (buddy_shrink_block all_used 0x100000 3 5 ≡ some a')
    × IsValid a'
    × ((x : ℕ)
        → free_pages a'.freelists x
          ≡ free_pages all_used.freelists x
            + span (block_offset_of all_used 0x100000 3 + 5) (2 ^ 3 - 5) x)
    × (a'.free_space_bytes ≡ u64 (all_used.free_space_bytes + bytes_freed 3 left))
    × ((e : ℕ) × (left ≡ 2 ^ e))
    × (left ≤ 5)
    × ((e : ℕ) → 5 ≡ 2 ^ e → left ≡ 5)
    × (a'.base_addr ≡ all_used.base_addr)
    × (all_used.total_free_objects ≤ a'.total_free_objects + 3)
shrink_block_example =
    shrink_block-IsValid all_used 0x100000 3 5 all_used-IsValid (omega arith) (omega arith)
      (omega arith) first_block (λ x lo hi. ground arith) (omega arith)

abbrev order_one : ℕ
order_one = 1

index_iff_example :
    (buddy_bmp_index_of 4 1 ≡ buddy_bmp_index_of 6 1)
    ↔ ((order_one ≡ order_one) × (4 / 2 ^ 2 ≡ 6 / 2 ^ 2))
index_iff_example = index_iff 4 6 1 1 (omega arith) (omega arith)

index-lt-size_example : buddy_bmp_index_of 255 7 < buddy_bmp_size_bits 256
index-lt-size_example = index-lt-size 255 256 7 (omega arith) (omega arith) (omega arith)

not_merged : merges whole_region all_used 0x100000 3 ≡ false
unfolding bmp_get_bit buddy_bmp_index_of is_block_usable
not_merged = refl

-- The bit of the pair of the two blocks of 128 pages is on.
abbrev largest_pair : BuddyAllocator
largest_pair = allocator one_block.freelists (λ a. if a == 15 then 128 else 0)

largest_merged : merges whole_region largest_pair 0x100000 max_order ≡ true
unfolding bmp_get_bit buddy_bmp_index_of is_block_usable
largest_merged = refl

free_largest_faults_example : buddy_free_block whole_region largest_pair 0x100000 max_order ≡ none
free_largest_faults_example =
    free_largest_faults whole_region largest_pair 0x100000 refl largest_merged

none_free : (i : ℕ) → 3 ≤ i → i ≤ max_order → get_elem? all_used.freelists i ≡ some []
none_free zero lo hi = absurd (omega arith)
none_free (suc zero) lo hi = absurd (omega arith)
none_free (suc (suc zero)) lo hi = absurd (omega arith)
none_free (suc (suc (suc zero))) lo hi = refl
none_free (suc (suc (suc (suc zero)))) lo hi = refl
none_free (suc (suc (suc (suc (suc zero))))) lo hi = refl
none_free (suc (suc (suc (suc (suc (suc zero)))))) lo hi = refl
none_free (suc (suc (suc (suc (suc (suc (suc zero))))))) lo hi = refl
none_free (suc (suc (suc (suc (suc (suc (suc (suc i)))))))) lo hi = absurd (omega arith)

alloc_block_exhausted_example :
    buddy_alloc_block all_used 3
    ≡ some (
      sub64 all_used.base_addr 4096,
      record all_used {
        free_space_bytes = sub64 all_used.free_space_bytes (2 ^ (3 + 12));
        allocated_bytes = u64 (all_used.allocated_bytes + 2 ^ (3 + 12));
      },
    )
alloc_block_exhausted_example = alloc_block_exhausted all_used 3 refl (omega arith) none_free
