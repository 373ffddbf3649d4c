-- ===== src/Tests/Init.antt =====
-- `buddy_init` of kernel/src/mm/buddy_alloc.c for the megabyte at 1 MB.
use learning_os.Base.{
  ℕ, ◌+◌, ◌^◌, ◌<◌, ◌≡◌, refl, Option, none, some, List, [], ◌∷◌, sub64, ◌>>>◌, arith,
}
use learning_os.Math.{next_power_of_two}
use learning_os.Bitmap.{bmp_init}
use learning_os.BootMmap.{page_order, is_block_usable}
use learning_os.Buddy.Index.{max_order}
use learning_os.Buddy.State.{BuddyAllocator, allocate_freelist_entry, take_object}
use learning_os.Buddy.Pages.{free_pages}
use learning_os.Buddy.Valid.{IsValid}
use learning_os.Buddy.Init.{populate_block, populate_from, populate_initial_freelists, buddy_init}
use learning_os.Buddy.Init.Populate.{buddy_init-IsValid}
use learning_os.Tests.States.{whole_region}

abbrev lists_of : Option BuddyAllocator → List (List ℕ)
lists_of none = []
lists_of (some a) = a.freelists

-- Both blocks of 128 pages are free.
init_lists :
    lists_of (buddy_init whole_region (λ a. 0) 0x5000 1 0x100000 0x200000)
    ≡ [] ∷ [] ∷ [] ∷ [] ∷ [] ∷ [] ∷ [] ∷ (128 ∷ 0 ∷ []) ∷ []
unfolding buddy_init populate_initial_freelists populate_from populate_block is_block_usable
    allocate_freelist_entry take_object bmp_init
init_lists = refl

buddy_init_example :
    (a : BuddyAllocator) × (buddy_init whole_region (λ a. 0) 0x5000 1 0x100000 0x200000 ≡ some a)
    × IsValid a
    × ((x : ℕ)
        → 0 < free_pages a.freelists x
        → x < (sub64 0x200000 0x100000 >>> page_order) + 2 ^ max_order)
buddy_init_example =
    buddy_init-IsValid whole_region (λ a. 0) 0x5000 1 0x100000 0x200000 (omega arith) (omega arith)
      (omega arith)

next_power : next_power_of_two 100 ≡ 128
unfolding next_power_of_two
next_power = refl

same_power : next_power_of_two 64 ≡ 64
unfolding next_power_of_two
same_power = refl
