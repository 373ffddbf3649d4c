-- ===== src/Tests/States.antt =====
-- States of the buddy allocator of kernel/src/mm/buddy_alloc.c: a region of 256 pages at 1 MB, with
-- its bitmap in memory that is zero but for the bits of free halves of pairs.
use learning_os.Base.{
  ℕ, zero, suc, ◌+◌, ◌≤◌, ◌≡◌, refl, Option, none, some, List, [], ◌∷◌, get_elem?, Mem, store,
  arith, ◌==◌, subst, eq_of_some, if◌then◌else◌,
}
use learning_os.BootMmap.{PhysmemRegion, is_block_usable}
use learning_os.Bitmap.{bmp_get_bit, bmp_set_bit, bmp_toggle_bit}
use learning_os.Buddy.Index.{buddy_bmp_index_of, buddy_page_offset}
use learning_os.Buddy.State.{BuddyAllocator, set_pair, toggle_pair, release_freelist_entry}
use learning_os.Buddy.Alloc.Pages.{HasBlock}
use learning_os.Buddy.Aligned.{AlignedList, AlignedLists}
use learning_os.Buddy.Free.{
  pop_freelist_entry, unlink_entry, can_coalesce, merge, coalesce, insert_coalesced, give_block,
  buddy_free_block,
}
use learning_os.Buddy.Valid.{IsValid}

-- The lists from an order on are aligned.
abbrev AlignedFrom : ℕ → List (List ℕ) → Type 0
AlignedFrom order [] = Unit {0}
AlignedFrom order (l ∷ ls) = AlignedList order l × AlignedFrom (suc order) ls

aligned_at :
    (order i : ℕ) (ls : List (List ℕ)) (l : List ℕ)
    → AlignedFrom order ls
    → get_elem? ls i ≡ some l
    → AlignedList (order + i) l
aligned_at order i [] l h e = ground arith
aligned_at order zero (k ∷ ls) l (first, rest) e =
    let here : order + 0 ≡ order = omega arith in rw (here, ← eq_of_some e) first
aligned_at order (suc i) (k ∷ ls) l (first, rest) e =
    let next : order + suc i ≡ suc order + i = omega arith in
    rw next (aligned_at (suc order) i ls l rest e)

lists_aligned : (ls : List (List ℕ)) → AlignedFrom 0 ls → AlignedLists ls
lists_aligned ls h i l e =
    let here : 0 + i ≡ i = omega arith in
    subst (λ o. AlignedList o l) here (aligned_at 0 i ls l h e)

abbrev pub allocator : List (List ℕ) → Mem → BuddyAllocator
allocator freelists mem = record {
  buddy_state_map = record { base = 0; size_bytes = 32 };
  mem = mem;
  total_free_objects = 100;
  freelists = freelists;
  base_addr = 0x100000;
  end_addr = 0x200000;
  free_space_bytes = 0x80000;
  allocated_bytes = 0x80000;
}

-- A single free block of 128 pages.
abbrev pub one_block : BuddyAllocator
one_block = allocator ([] ∷ [] ∷ [] ∷ [] ∷ [] ∷ [] ∷ [] ∷ (0 ∷ []) ∷ []) (λ a. 0)

pub one_block-IsValid : IsValid one_block
one_block-IsValid = record {
  lists = refl;
  inside = λ x h. ground arith;
  aligned =
      lists_aligned one_block.freelists (tt, (tt, (tt, (tt, (tt, (tt, (tt, ((refl, tt), tt))))))));
  once = λ x. ground arith;
  base = omega arith;
}

pub one_block-HasBlock : (order : ℕ) → order ≤ 7 → HasBlock one_block order
one_block-HasBlock order h = (7, 0, [], h, omega arith, refl)

-- No page is free.
abbrev pub all_used : BuddyAllocator
all_used = allocator ([] ∷ [] ∷ [] ∷ [] ∷ [] ∷ [] ∷ [] ∷ [] ∷ []) (λ a. 0)

pub all_used-IsValid : IsValid all_used
all_used-IsValid = record {
  lists = refl;
  inside = λ x h. ground arith;
  aligned = lists_aligned all_used.freelists (tt, (tt, (tt, (tt, (tt, (tt, (tt, (tt, tt))))))));
  once = λ x. ground arith;
  base = omega arith;
}

-- Page 1 is free, and the bit of the pair of pages 0 and 1 is on.
abbrev pub half_pair : BuddyAllocator
half_pair =
    allocator ((1 ∷ []) ∷ [] ∷ [] ∷ [] ∷ [] ∷ [] ∷ [] ∷ [] ∷ []) (λ a. if a == 0 then 1 else 0)

pub half_pair-IsValid : IsValid half_pair
half_pair-IsValid = record {
  lists = refl;
  inside = λ x h. ground arith;
  aligned =
      lists_aligned half_pair.freelists ((refl, tt), (tt, (tt, (tt, (tt, (tt, (tt, (tt, tt))))))));
  once = λ x. ground arith;
  base = omega arith;
}

abbrev pub whole_region : List PhysmemRegion
whole_region = record { free_start = 0x100000; region_end = 0x200000 } ∷ []

abbrev state_of : BuddyAllocator → Option BuddyAllocator → BuddyAllocator
state_of a none = a
state_of a (some b) = b

abbrev joined : BuddyAllocator
joined = state_of half_pair (buddy_free_block whole_region half_pair 0x100000 0)

-- Freeing page 0 joins it with page 1 to a block of order 1.
joined_lists : joined.freelists ≡ [] ∷ (0 ∷ []) ∷ [] ∷ [] ∷ [] ∷ [] ∷ [] ∷ [] ∷ []
unfolding buddy_free_block give_block coalesce merge can_coalesce pop_freelist_entry unlink_entry
    insert_coalesced set_pair toggle_pair bmp_get_bit bmp_set_bit bmp_toggle_bit buddy_bmp_index_of
    buddy_page_offset is_block_usable release_freelist_entry store
joined_lists = refl
