-- ===== src/Buddy/Valid.antt =====
-- The representation invariant of `buddy_allocator_t`, and that the operations of
-- kernel/src/mm/buddy_alloc.c keep it.
use learning_os.Base.{
  ℕ, ◌+◌, ◌-◌, ◌/◌, ◌%◌, ◌^◌, ◌≤◌, ◌<◌, ◌≡◌, ◌≢◌, refl, ◌∙◌, ap, subst, some, List, arith,
  >>=-eq-some, eq_of_some, u8, u64, int_bit, sub64, ◌<<<◌,
}
use native.Mathlib.Nat.{one-le-pow, mod-eq_of_lt, mul-mod_left}
use learning_os.Math.Round.{trunc_n_bits_lem}
use learning_os.BootMmap.{PhysmemRegion}
use learning_os.Buddy.Index.{max_order, page_offset_oob}
use learning_os.Buddy.Pages.{covers, span, free_pages}
use learning_os.Buddy.State.{BuddyAllocator}
use learning_os.Buddy.State.Frame.{HasLists, InField, HasEntries}
use learning_os.Buddy.Alloc.{buddy_alloc_block}
use learning_os.Buddy.Alloc.Pages.{HasBlock, take_block_lem}
use learning_os.Buddy.Free.{give_block, buddy_free_block}
use learning_os.Buddy.Free.Pages.{offset_of, IsBlock, give_block_lem}
use learning_os.Buddy.Shrink.{shrink_loop, block_offset_of, buddy_shrink_block}
use learning_os.Buddy.Shrink.Pages.{bytes_freed, shrink_block_lem}
use learning_os.Buddy.Aligned.{IsAligned}
use learning_os.Buddy.Aligned.Taking.{take_block-IsAligned}
use learning_os.Buddy.Aligned.Giving.{give_block-IsAligned, shrink_loop-IsAligned}

-- There is a list for each order, every free block starts at a multiple of its size and has page
-- numbers that fit the field of an entry, and no page is free twice.
pub record IsValid (a : BuddyAllocator) : Type 0 where
  pub lists : HasLists a
  pub inside : InField a
  pub aligned : IsAligned a
  pub once : (x : ℕ) → free_pages a.freelists x ≤ 1
  pub base : a.base_addr < 2 ^ 64

-- None of the `n` pages from `off` on is free.
abbrev pub InUse : BuddyAllocator → ℕ → ℕ → Type 0
InUse a off n = (x : ℕ) → off ≤ x → x < off + n → free_pages a.freelists x ≡ 0

taken-fits :
    (a : BuddyAllocator) (order off : ℕ) (after : ℕ → ℕ)
    → InField a
    → ((x : ℕ) → after x + covers order off x ≡ free_pages a.freelists x)
    → off + 2 ^ order ≤ 2 ^ 24
taken-fits a order off after inside pages =
    let last = off + 2 ^ order - 1 in ground (arith, one-le-pow order 2, pages last, inside last)

-- `buddy_alloc_block` of an order up to 7, on a valid allocator with a free block of the order or
-- of a larger one, whose cache has at least 7 free entries and fewer than 2^32 - 1, takes at most
-- `6 - order` of them and returns the address of an aligned block whose pages were free and no
-- longer are, changes no other page, moves the size of the block between the two counters, and
-- leaves a valid allocator.
pub alloc_block-IsValid :
    (a : BuddyAllocator) (order : ℕ)
    → IsValid a
    → order ≤ max_order
    → HasBlock a order
    → HasEntries a max_order
    → (off : ℕ) × (a' : BuddyAllocator) × (buddy_alloc_block a order
        ≡ some (u64 (a.base_addr + (off <<< 12)), a'))
      × IsValid a'
      × (off % 2 ^ order ≡ 0)
      × (off + 2 ^ order ≤ 2 ^ 24)
      × ((x : ℕ) → free_pages a'.freelists x + covers order off x ≡ free_pages a.freelists x)
      × (a'.free_space_bytes ≡ sub64 a.free_space_bytes (2 ^ (order + 12)))
      × (a'.allocated_bytes ≡ u64 (a.allocated_bytes + 2 ^ (order + 12)))
      × (a'.base_addr ≡ a.base_addr)
      × (a.total_free_objects ≤ a'.total_free_objects + (6 - order))
unfolding buddy_alloc_block
alloc_block-IsValid a order v small has entries =
    let (off, b, took, taken) = take_block_lem a order v.lists v.inside small has entries in
    let fits = taken-fits a order off (free_pages b.freelists) v.inside taken.pages in
    let in_field : off ≢ page_offset_oob = omega (arith, one-le-pow order 2) in
    let (aligned, here) =
      take_block-IsAligned a b order off v.lists v.inside small v.aligned in_field took in
    let bit : int_bit (order + 12) ≡ 2 ^ (order + 12) =
      ap (λ (t : ℕ). 2 ^ t) (mod-eq_of_lt (omega arith)) in
    let frame = taken.frame in
    rw (took, bit, frame.base, frame.free_space, frame.allocated)
      (
        off,
        _,
        refl,
        record {
          lists = frame.lists ∙ v.lists;
          inside = λ x h. v.inside x (omega (arith, taken.pages x));
          aligned = aligned;
          once = λ x. omega (arith, taken.pages x, v.once x);
          base = v.base;
        },
        here,
        fits,
        taken.pages,
        refl,
        refl,
        refl,
        taken.stock,
      )

-- `buddy_free_block` of an aligned block with no free page, whenever it ends without an undefined
-- access, leaves a valid allocator in which just the pages of the block have become free.
pub free_block-IsValid :
    (regions : List PhysmemRegion) (a a' : BuddyAllocator) (block_base order : ℕ)
    → IsValid a
    → IsBlock a block_base order
    → offset_of a block_base + 2 ^ order ≤ 2 ^ 24
    → InUse a (offset_of a block_base) (2 ^ order)
    → buddy_free_block regions a block_base order ≡ some a'
    → IsValid a'
      × ((x : ℕ)
          → free_pages a'.freelists x
            ≡ free_pages a.freelists x + covers order (offset_of a block_base) x)
      × (a'.free_space_bytes ≡ u64 (a.free_space_bytes + (1 <<< (order + 12))))
      × (a'.base_addr ≡ a.base_addr)
unfolding buddy_free_block
free_block-IsValid regions a a' block_base order v block fits used h =
    let (b, gave, h1) = >>=-eq-some (give_block regions a block_base order) _ h in
    let given = give_block_lem regions a b block_base order v.lists block gave in
    let frame = given.frame in
    let aligned = give_block-IsAligned regions a b block_base order block v.aligned gave in
    rw (← eq_of_some h1) (
      record {
        lists = frame.lists ∙ v.lists;
        inside = λ x p. ground (arith, given.pages x, v.inside x);
        aligned = aligned;
        once = λ x. ground (arith, given.pages x, v.once x, used x);
        base = omega (arith, frame.base, v.base);
      },
      given.pages,
      ap (λ (n : ℕ). u64 (n + (1 <<< (order + 12)))) frame.free_space,
      frame.base,
    )

shrunk-IsAligned :
    (a a' : BuddyAllocator) (block_base order num_pages : ℕ)
    → IsAligned a
    → order ≤ max_order
    → 0 < num_pages
    → num_pages ≤ 2 ^ order
    → block_offset_of a block_base order + 2 ^ order ≤ 2 ^ 24
    → block_offset_of a block_base order % 2 ^ order ≡ 0
    → buddy_shrink_block a block_base order num_pages ≡ some a'
    → IsAligned a'
unfolding buddy_shrink_block
shrunk-IsAligned a a' block_base order num_pages aligned small pos size fits here h =
    let off = block_offset_of a block_base order in
    let ((left, b), looped, h1) =
      >>=-eq-some (shrink_loop 9 a off num_pages (u8 (order + 255))) _ h in
    subst IsAligned (eq_of_some h1)
      (shrink_loop-IsAligned 9 order a b off num_pages left small pos size fits here aligned looped)

-- `buddy_shrink_block` on a valid allocator, for a block of at most 2^7 pages that lies within the
-- 2^24 pages of the region's field, to its first `num_pages`, at least one, where the pages behind
-- them are in use, and the cache has a free entry for each order below that of the block: it ends
-- without an undefined access, frees exactly those pages and leaves a valid allocator. Its
-- accounting subtracts from the block not `num_pages` but a power of two `left`, at most
-- `num_pages`, which is `num_pages` where that is itself a power of two.
pub shrink_block-IsValid :
    (a : BuddyAllocator) (block_base order num_pages : ℕ)
    → IsValid a
    → order ≤ max_order
    → 0 < num_pages
    → num_pages ≤ 2 ^ order
    → block_offset_of a block_base order + 2 ^ order ≤ 2 ^ 24
    → InUse a (block_offset_of a block_base order + num_pages) (2 ^ order - num_pages)
    → order ≤ a.total_free_objects
    → (a' : BuddyAllocator) × (left : ℕ) × (buddy_shrink_block a block_base order num_pages
        ≡ some a')
      × IsValid a'
      × ((x : ℕ)
          → free_pages a'.freelists x
            ≡ free_pages a.freelists x
              + span (block_offset_of a block_base order + num_pages) (2 ^ order - num_pages) x)
      × (a'.free_space_bytes ≡ u64 (a.free_space_bytes + bytes_freed order left))
      × ((e : ℕ) × (left ≡ 2 ^ e))
      × (left ≤ num_pages)
      × ((e : ℕ) → num_pages ≡ 2 ^ e → left ≡ num_pages)
      × (a'.base_addr ≡ a.base_addr)
      × (a.total_free_objects ≤ a'.total_free_objects + order)
unfolding block_offset_of
shrink_block-IsValid a block_base order num_pages v small pos size fits used stock =
    let off = block_offset_of a block_base order in
    let (a', left, returns, pages, counted, power, at_most, exact, lists, base, left_over) =
      shrink_block_lem a block_base order num_pages v.lists small pos size fits stock in
    let here : off % 2 ^ order ≡ 0 =
      rw (trunc_n_bits_lem (offset_of a block_base) order (omega arith) (omega arith))
        (mul-mod_left (offset_of a block_base / 2 ^ order) (2 ^ order)) in
    let aligned =
      shrunk-IsAligned a a' block_base order num_pages v.aligned small pos size fits here returns in
    (
      a',
      left,
      returns,
      record {
        lists = lists;
        inside = λ x p. ground (arith, pages x, v.inside x);
        aligned = aligned;
        once = λ x. ground (arith, pages x, v.once x, used x);
        base = omega (arith, base, v.base);
      },
      pages,
      counted,
      power,
      at_most,
      exact,
      base,
      left_over,
    )
