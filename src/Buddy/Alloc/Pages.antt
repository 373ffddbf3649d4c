-- ===== src/Buddy/Alloc/Pages.antt =====
-- `buddy_alloc_block` of kernel/src/mm/buddy_alloc.c, by the pages that it moves.
use learning_os.Base.{
  ℕ, suc, ◌+◌, ◌-◌, ◌^◌, ◌≤◌, ◌<◌, ◌≡◌, ◌≢◌, refl, ◌∙◌, ap, Option, some, List, [], ◌∷◌, get_elem?,
  set, length-set, get_elem?_lt, nil-ne-cons, arith, int_bit, ltb, u8, u64, sub64, ◌<<<◌, false,
}
use native.Mathlib.Nat.{mod-eq_of_lt}
use learning_os.Buddy.Index.{buddy_bmp_index_of, max_order, page_offset_oob}
use learning_os.Buddy.Pages.{covers, free_pages, free_pages-set}
use learning_os.Buddy.State.{BuddyAllocator, toggle_pair, release_freelist_entry}
use learning_os.Buddy.State.Frame.{
  HasLists, InField, HasEntries, SameFrame, SameFrame-trans, head-InField,
}
use learning_os.Buddy.Alloc.{
  find_order, split_block, find_or_split_block, take_block, buddy_alloc_block,
}
use learning_os.Buddy.Alloc.Split.{
  Search, found, exhausted, find_order_lem, split_block_lem, toggle_pair-SameFrame,
  toggle_pair-freelists, toggle_pair-total,
}

-- The block `off` of order `order` has been taken from the free pages of `a`.
pub record Taken (a : BuddyAllocator) (order off : ℕ) (a' : BuddyAllocator) : Type 0 where
  pub frame : SameFrame a a'
  pub stock : a.total_free_objects ≤ a'.total_free_objects + (6 - order)
  pub pages : (x : ℕ) → free_pages a'.freelists x + covers order off x ≡ free_pages a.freelists x

-- What `__find_or_split_block` returns: a block, or the offset out of bounds if no larger block is
-- free.
pub data Split (a : BuddyAllocator) (target : ℕ) (r : Option (ℕ × BuddyAllocator)) : Type 0 where
  block :
      (off : ℕ) (a' : BuddyAllocator)
      → r ≡ some (off, a')
      → Taken a target off a'
      → Split a target r
  out_of_memory :
      r ≡ some (page_offset_oob, a)
      → ((i : ℕ) → target < i → i ≤ max_order → get_elem? a.freelists i ≡ some [])
      → Split a target r

found_lem :
    (a : BuddyAllocator) (target o p : ℕ) (rest : List ℕ)
    → HasLists a
    → InField a
    → target < o
    → o ≤ max_order
    → get_elem? a.freelists o ≡ some (p ∷ rest)
    → max_order ≤ a.total_free_objects
    → Split a target (split_block (record a { freelists = set a.freelists o rest }) p o target)
found_lem a target o p rest lists inside above small at stock =
    let a1 = record a { freelists = set a.freelists o rest } in
    let frame1 : SameFrame a a1 = record {
      lists = length-set a.freelists o rest;
      base = refl;
      end = refl;
      free_space = refl;
      allocated = refl;
      bitmap = refl;
    } in
    let (a', returns, frame, used, pages) =
      split_block_lem a1 p o target (frame1.lists ∙ lists) above small
        (head-InField a o p rest inside at) (omega arith) in
    block (p + 2 ^ target) a' returns (record {
      frame = SameFrame-trans frame1 frame;
      stock = omega (arith, used);
      pages = λ x. omega (arith, pages x, free_pages-set o a.freelists (p ∷ rest) rest x at);
    })

search_lem :
    (a : BuddyAllocator) (target : ℕ)
    → HasLists a
    → InField a
    → target < max_order
    → max_order ≤ a.total_free_objects
    → Search a.freelists (suc target) (find_order 8 a.freelists (suc target))
    → Split a target (find_or_split_block a target)
unfolding find_or_split_block
search_lem a target lists inside small stock (found o p rest e lo hi at) =
    let order : u8 (target + 1) ≡ suc target = omega arith in
    let in_range : ltb max_order o ≡ false = ground arith in
    rw (order, e, in_range, at) (found_lem a target o p rest lists inside lo hi at stock)
search_lem a target lists inside small stock (exhausted e all) =
    let order : u8 (target + 1) ≡ suc target = omega arith in rw (order, e) (out_of_memory refl all)

pub find_or_split_lem :
    (a : BuddyAllocator) (target : ℕ)
    → HasLists a
    → InField a
    → target < max_order
    → max_order ≤ a.total_free_objects
    → Split a target (find_or_split_block a target)
find_or_split_lem a target lists inside small stock =
    search_lem a target lists inside small stock
      (find_order_lem 8 a.freelists (suc target) lists small (omega arith))

take_head :
    (a : BuddyAllocator) (order p : ℕ) (rest : List ℕ)
    → get_elem? a.freelists order ≡ some (p ∷ rest)
    → a.total_free_objects + 1 < 2 ^ 32
    → (a' : BuddyAllocator) × (take_block a order ≡ some (p, a')) × Taken a order p a'
unfolding take_block release_freelist_entry
take_head a order p rest at stock =
    let a1 = release_freelist_entry (record a { freelists = set a.freelists order rest }) in
    let index = buddy_bmp_index_of p order in
    rw at (
      toggle_pair a1 index,
      refl,
      record {
        frame =
            SameFrame-trans
              (record {
                lists = length-set a.freelists order rest;
                base = refl;
                end = refl;
                free_space = refl;
                allocated = refl;
                bitmap = refl;
              })
              (toggle_pair-SameFrame a1 index);
        stock = omega (arith, toggle_pair-total a1 index);
        pages = λ x. omega (
          arith,
          free_pages-set order a.freelists (p ∷ rest) rest x at,
          ap (λ (ls : List (List ℕ)). free_pages ls x) (toggle_pair-freelists a1 index),
        );
      },
    )

take_empty :
    (a : BuddyAllocator) (order : ℕ)
    → get_elem? a.freelists order ≡ some []
    → take_block a order ≡ find_or_split_block a order
unfolding take_block
take_empty a order at = rw at

-- Whether some list from `order` up has a block.
abbrev pub HasBlock : BuddyAllocator → ℕ → Type 0
HasBlock a order =
    (i : ℕ) × (p : ℕ) × (rest : List ℕ) × (order ≤ i)
    × (i ≤ max_order)
    × (get_elem? a.freelists i ≡ some (p ∷ rest))

take_from :
    (a : BuddyAllocator) (order : ℕ) (l : List ℕ)
    → HasLists a
    → InField a
    → order ≤ max_order
    → HasBlock a order
    → HasEntries a max_order
    → get_elem? a.freelists order ≡ some l
    → (off : ℕ) × (a' : BuddyAllocator) × (take_block a order ≡ some (off, a'))
      × Taken a order off a'
take_from a order (p ∷ rest) lists inside small has (stock, room) at =
    let (a', returns, taken) = take_head a order p rest at room in (p, a', returns, taken)
take_from a order [] lists inside small (i, p, rest, lo, hi, there) (stock, room) at =
    let above : order < i = omega (arith, differ) in
    let split = find_or_split_lem a order lists inside (omega arith) stock in
    rw (take_empty a order at) (given above split)
  where
    differ : order ≢ i
    differ e = let both = ap (get_elem? a.freelists) e in cc (at, there, both)

    given :
        order < i
        → Split a order (find_or_split_block a order)
        → (off : ℕ) × (a' : BuddyAllocator) × (find_or_split_block a order ≡ some (off, a'))
          × Taken a order off a'
    given above (block off a' returns taken) = (off, a', returns, taken)
    given above (out_of_memory returns all) =
        let none_there = all i above hi in cc (there, none_there)

-- Where a block of the order or of a larger one is free, a block is taken from the free pages.
pub take_block_lem :
    (a : BuddyAllocator) (order : ℕ)
    → HasLists a
    → InField a
    → order ≤ max_order
    → HasBlock a order
    → HasEntries a max_order
    → (off : ℕ) × (a' : BuddyAllocator) × (take_block a order ≡ some (off, a'))
      × Taken a order off a'
take_block_lem a order lists inside small has entries =
    let (l, at) = get_elem?_lt a.freelists order (omega arith) in
    take_from a order l lists inside small has entries at

no_block_lem :
    (a : BuddyAllocator) (order : ℕ)
    → HasLists a
    → order < max_order
    → ((i : ℕ) → order ≤ i → i ≤ max_order → get_elem? a.freelists i ≡ some [])
    → Search a.freelists (suc order) (find_order 8 a.freelists (suc order))
    → find_or_split_block a order ≡ some (page_offset_oob, a)
unfolding find_or_split_block
no_block_lem a order lists small none_free (found o p rest e lo hi at) =
    absurd (nil-ne-cons (none_free o (omega arith) hi) at)
no_block_lem a order lists small none_free (exhausted e all) =
    let next : u8 (order + 1) ≡ suc order = omega arith in rw (next, e)

-- With no free block of an order below the largest or of a larger one, `buddy_alloc_block` does
-- not report failure: it returns the address one page below the region, modulo 2^64, and counts
-- the block as allocated.
pub alloc_block_exhausted :
    (a : BuddyAllocator) (order : ℕ)
    → HasLists a
    → order < max_order
    → ((i : ℕ) → order ≤ i → i ≤ max_order → get_elem? a.freelists i ≡ some [])
    → buddy_alloc_block a order
      ≡ some (
        sub64 a.base_addr 4096,
        record a {
          free_space_bytes = sub64 a.free_space_bytes (2 ^ (order + 12));
          allocated_bytes = u64 (a.allocated_bytes + 2 ^ (order + 12));
        },
      )
unfolding buddy_alloc_block
alloc_block_exhausted a order lists small none_free =
    let search = find_order_lem 8 a.freelists (suc order) lists small (omega arith) in
    let bit : int_bit (order + 12) ≡ 2 ^ (order + 12) =
      ap (λ (t : ℕ). 2 ^ t) (mod-eq_of_lt (omega arith)) in
    let address : u64 (a.base_addr + (page_offset_oob <<< 12)) ≡ sub64 a.base_addr 4096 =
      omega arith in
    rw (
      take_empty a order (none_free order (omega arith) (omega arith)),
      no_block_lem a order lists small none_free search,
      bit,
      address,
    )
