-- ===== src/PhysAlloc/Alloc.antt =====
-- `phys_alloc` of kernel/src/mm/phys_alloc.c gives out runs of pages.
use learning_os.Base.{
  ℕ, ◌+◌, ◌-◌, ◌*◌, ◌/◌, ◌%◌, ◌^◌, ◌≤◌, ◌<◌, ◌≡◌, refl, ◌∙◌, ap, Option, some, arith, eq_of_some,
  >>=-eq-some, ◌>>=◌, u64, ◌<<<◌, ltb, false, int_bit,
}
use native.Mathlib.Nat.{div-add-mod', one-le-pow}
use learning_os.Math.{bit_order}
use learning_os.Math.Order.{bit_order_lem}
use learning_os.Math.Round.{trunc_n_bits_lem}
use learning_os.Buddy.Index.{max_order}
use learning_os.Buddy.Pages.{span, free_pages}
use learning_os.Buddy.State.{BuddyAllocator}
use learning_os.Buddy.State.Frame.{HasEntries}
use learning_os.Buddy.Alloc.{buddy_alloc_block}
use learning_os.Buddy.Alloc.Pages.{HasBlock}
use learning_os.Buddy.Free.Pages.{offset_of}
use learning_os.Buddy.Shrink.{block_offset_of, buddy_shrink_block}
use learning_os.Buddy.Valid.{IsValid, InUse, alloc_block-IsValid, shrink_block-IsValid}
use learning_os.PhysAlloc.{freespace_check, phys_alloc}

-- The address of a page of the region leads back to the page.
pub offset_of_address :
    (a : BuddyAllocator) (off : ℕ)
    → a.base_addr < 2 ^ 64
    → off < 2 ^ 24
    → offset_of a (u64 (a.base_addr + (off <<< 12))) ≡ off
offset_of_address a off base small = omega arith

aligned_trunc : (off order : ℕ) → off % 2 ^ order ≡ 0 → off / 2 ^ order * 2 ^ order ≡ off
aligned_trunc off order h = omega (arith, div-add-mod' off (2 ^ order))

pub block_offset_of_address :
    (a : BuddyAllocator) (off order : ℕ)
    → a.base_addr < 2 ^ 64
    → order ≤ max_order
    → off < 2 ^ 24
    → off % 2 ^ order ≡ 0
    → block_offset_of a (u64 (a.base_addr + (off <<< 12))) order ≡ off
unfolding block_offset_of
block_offset_of_address a off order base small fits here =
    rw (offset_of_address a off base fits)
      (trunc_n_bits_lem off order (omega arith) (omega arith) ∙ aligned_trunc off order here)

pub order-le-max : (n : ℕ) → 0 < n → n ≤ 128 → (bit_order n ≤ max_order) × (n ≤ 2 ^ bit_order n)
order-le-max n pos small =
    let (enough, least) = bit_order_lem n pos (omega arith) in (least 7 (omega arith), enough)

-- Taking a block and shrinking it to `num_pages`.
abbrev take_pages : BuddyAllocator → ℕ → Option (ℕ × BuddyAllocator)
take_pages a num_pages = do
  (block_base, a1) ← buddy_alloc_block a (bit_order num_pages)
  a2 ← buddy_shrink_block a1 block_base (bit_order num_pages) num_pages
  some (block_base, a2)

take_pages_lem :
    (a : BuddyAllocator) (n : ℕ)
    → IsValid a
    → 0 < n
    → n ≤ 128
    → HasBlock a (bit_order n)
    → HasEntries a max_order
    → (off : ℕ) × (a2 : BuddyAllocator) × (take_pages a n
        ≡ some (u64 (a.base_addr + (off <<< 12)), a2))
      × IsValid a2
      × ((x : ℕ) → free_pages a2.freelists x + span off n x ≡ free_pages a.freelists x)
      × (off % 2 ^ bit_order n ≡ 0)
      × (off + 2 ^ bit_order n ≤ 2 ^ 24)
take_pages_lem a n v pos small has entries =
    let order = bit_order n in
    let (in_range, enough) = order-le-max n pos small in
    let (off, a1, took, v1, here, fits, pages1, counted, given, base1, entries1) =
      alloc_block-IsValid a order v in_range has entries in
    let address = u64 (a.base_addr + (off <<< 12)) in
    let size : 1 ≤ 2 ^ order = one-le-pow order 2 (omega arith) in
    let at : block_offset_of a1 address order ≡ off =
      rw (← base1) (block_offset_of_address a1 off order v1.base in_range (omega arith) here) in
    let used : InUse a1 (block_offset_of a1 address order + n) (2 ^ order - n) =
      rw at (λ x lo hi. ground (arith, pages1 x, v.once x)) in
    let (a2, left, shrunk, v2, pages2, counted2, power, at_most, exact, base2, entries2) =
      shrink_block-IsValid a1 address order n v1 in_range pos enough (rw at fits) used
        (omega (arith, entries.0, entries1)) in
    let pages : (x : ℕ)
        → free_pages a2.freelists x ≡ free_pages a1.freelists x + span (off + n) (2 ^ order - n) x =
      rw at at pages2 in
    rw (took, shrunk) (off, a2, refl, v2, λ x. ground (arith, pages1 x, pages x), here, fits)

module _ (objs_per_slab : ℕ) (vm_alloc_block : BuddyAllocator → Option BuddyAllocator) where
  -- `phys_alloc` of 1 to 128 pages, on a valid allocator with a free block of the order that the
  -- size rounds up to or of a larger one, whose cache has at least 7 free entries and fewer than
  -- 2^32 - 1: it takes exactly `n` consecutive pages out of the free
  -- pages, from an aligned page on, and hands its valid state to `__freespace_check`, whose state
  -- is the one that the call leaves behind the address of the first page.
  pub phys_alloc_lem :
      (a : BuddyAllocator) (n : ℕ)
      → IsValid a
      → 0 < n
      → n ≤ 128
      → HasBlock a (bit_order n)
      → HasEntries a max_order
      → (off : ℕ) × (a2 : BuddyAllocator) × (phys_alloc objs_per_slab vm_alloc_block a n ≡ (
          freespace_check objs_per_slab vm_alloc_block a2 >>= λ a3.
          some (u64 (a.base_addr + (off <<< 12)), a3)))
        × IsValid a2
        × ((x : ℕ) → free_pages a2.freelists x + span off n x ≡ free_pages a.freelists x)
        × (off % 2 ^ bit_order n ≡ 0)
        × (off + 2 ^ bit_order n ≤ 2 ^ 24)
  unfolding phys_alloc
  phys_alloc_lem a n v pos small has entries =
      let (off, a2, taken, v2, pages, here, fits) = take_pages_lem a n v pos small has entries in
      let within : ltb (int_bit max_order) n ≡ false = ground arith in
      let (r, took, rest) = >>=-eq-some (buddy_alloc_block a (bit_order n)) _ taken in
      let (b, shrunk, last) = >>=-eq-some (buddy_shrink_block r.1 r.0 (bit_order n) n) _ rest in
      let results = eq_of_some last in
      let address = ap (λ (p : ℕ × BuddyAllocator). p.0) results in
      let state = ap (λ (p : ℕ × BuddyAllocator). p.1) results in
      (off, a2, rw (within, took, shrunk, state, address), v2, pages, here, fits)
