-- ===== src/Buddy/Init/Populate.antt =====
-- The free lists that `buddy_init` of kernel/src/mm/buddy_alloc.c sets up.
use learning_os.Base.{
  ℕ, zero, suc, ◌+◌, ◌-◌, ◌*◌, ◌/◌, ◌%◌, ◌^◌, ◌≤◌, ◌<◌, ◌≡◌, refl, ap, ◌∙◌, subst, some, List, [],
  ltb, true, false, Bool-cases, inl, inr, eq_of_some, replicate, Mem, get_elem?, arith, int_bit,
  u64, u32, u8, sub64, ◌<<<◌, ◌>>>◌,
}
use native.Mathlib.Nat.{mod-eq_of_lt, one-le-pow}
use learning_os.Base.Powers.{double_pow}
use learning_os.Bitmap.{bmp_init}
use learning_os.BootMmap.{PhysmemRegion, page_order, is_block_usable}
use learning_os.Buddy.Index.{max_order, buddy_bmp_size_bits}
use learning_os.Buddy.State.{BuddyAllocator, allocate_freelist_entry}
use learning_os.Buddy.State.Frame.{HasLists, allocate_lem}
use learning_os.Buddy.Pages.{free_pages}
use learning_os.Buddy.Aligned.{
  AlignedList, AlignedLists, IsAligned, aligned_halves, allocate-IsAligned,
}
use learning_os.Buddy.Valid.{IsValid}
use learning_os.Buddy.Init.{
  populate_block, populate_from, populate_initial_freelists, buddy_init, entries_per_slab,
}

-- A valid state whose free pages all lie below a bound.
record Below (a : BuddyAllocator) (bound : ℕ) : Type 0 where
  lists : HasLists a
  aligned : IsAligned a
  once : (x : ℕ) → free_pages a.freelists x ≤ 1
  base : a.base_addr < 2 ^ 64
  below : (x : ℕ) → 0 < free_pages a.freelists x → x < bound

Below-more : (a : BuddyAllocator) (bound more : ℕ) → bound ≤ more → Below a bound → Below a more
Below-more a bound more le b = record {
  lists = b.lists;
  aligned = b.aligned;
  once = b.once;
  base = b.base;
  below = λ x h. omega (arith, b.below x h);
}

-- The state behind a block that the loop adds.
abbrev counted : BuddyAllocator → ℕ → BuddyAllocator
counted a order = record a { free_space_bytes = u64 (a.free_space_bytes + int_bit (12 + order)) }

-- A block that starts at the bound moves the bound behind the block.
add_block :
    (a : BuddyAllocator) (off order : ℕ)
    → order ≤ max_order
    → off < 2 ^ 24
    → off % 2 ^ order ≡ 0
    → Below a off
    → 0 < a.total_free_objects
    → (a' : BuddyAllocator) × (allocate_freelist_entry a off order ≡ some a')
      × Below (counted a' order) (off + 2 ^ order)
      × (suc a'.total_free_objects ≡ a.total_free_objects)
add_block a off order small fits here b stock =
    let (a', returns, frame, used, pages) = allocate_lem a off order b.lists small fits stock in
    (
      a',
      returns,
      record {
        lists = frame.lists ∙ b.lists;
        aligned = allocate-IsAligned a a' off order fits here b.aligned returns;
        once = λ x. ground (arith, pages x, b.once x, b.below x);
        base = omega (arith, frame.base, b.base);
        below = λ x h. ground (arith, pages x, b.below x, one-le-pow order 2);
      },
      used,
    )

populate_skip :
    (regions : List PhysmemRegion) (order : ℕ) (a : BuddyAllocator) (cursor inner : ℕ)
    → inner < 2 ^ max_order
    → is_block_usable regions
        (u64 (a.base_addr + ((inner + cursor) <<< page_order)))
        (int_bit (12 + order))
      ≡ false
    → populate_block regions (suc order) a cursor inner
      ≡ populate_block regions order a cursor inner
unfolding populate_block
populate_skip regions order a cursor inner more unusable =
    let inside : ltb inner (int_bit max_order) ≡ true = ground arith in
    rw (inside, unusable, populate_block) refl

populate_take :
    (regions : List PhysmemRegion) (order : ℕ) (a a' : BuddyAllocator) (cursor inner : ℕ)
    → inner < 2 ^ max_order
    → is_block_usable regions
        (u64 (a.base_addr + ((inner + cursor) <<< page_order)))
        (int_bit (12 + order))
      ≡ true
    → allocate_freelist_entry a (inner + cursor) order ≡ some a'
    → populate_block regions (suc order) a cursor inner
      ≡ populate_block regions order (counted a' order) cursor (inner + int_bit order)
unfolding populate_block
populate_take regions order a a' cursor inner more usable allocated =
    let inside : ltb inner (int_bit max_order) ≡ true = ground arith in
    rw (inside, usable, allocated, populate_block) refl

rest_of_block :
    (regions : List PhysmemRegion) (k : ℕ) (a : BuddyAllocator) (cursor inner : ℕ)
    → k ≤ max_order
    → (inner + cursor) % 2 ^ k ≡ 0
    → inner + 2 ^ k ≤ 2 ^ max_order
    → cursor + 2 ^ max_order ≤ 2 ^ 24
    → Below a (inner + cursor)
    → k ≤ a.total_free_objects
    → (a' : BuddyAllocator) × (populate_block regions k a cursor inner ≡ some a')
      × Below a' (cursor + 2 ^ max_order)
      × (a.total_free_objects ≤ a'.total_free_objects + k)
rest_of_block regions zero a cursor inner small here room fits b stock = (
  a,
  unfold populate_block in refl,
  Below-more a (inner + cursor) (cursor + 2 ^ max_order) (omega arith) b,
  omega arith,
)
rest_of_block regions (suc order) a cursor inner small here room fits b stock =
    let (low, high) = aligned_halves (inner + cursor) order (omega arith) here in
    let size = one-le-pow order 2 (omega arith) in
    let bit : int_bit order ≡ 2 ^ order = ap (λ (t : ℕ). 2 ^ t) (mod-eq_of_lt (omega arith)) in
    elim (Bool-cases (
      is_block_usable regions (u64 (a.base_addr + ((inner + cursor) <<< page_order)))
        (int_bit (12 + order)))) [
          | inr unusable ↦
              rw
                (populate_skip regions order a cursor inner (omega (arith, double_pow order))
                  unusable)
                (let (a', rest, b', used) =
                    rest_of_block regions order a cursor inner (omega arith) low
                      (omega (arith, double_pow order)) fits b (omega arith) in
                  (a', rest, b', omega (arith, used)))
          | inl usable ↦
              let (a', allocated, b', used) =
                add_block a (inner + cursor) order (omega arith) (omega (arith, double_pow order))
                  low b (omega arith) in
              let next : inner + int_bit order + cursor ≡ inner + cursor + 2 ^ order =
                omega (arith, bit) in
              let (a'', rest, b'', used') =
                rest_of_block regions order (counted a' order) cursor (inner + int_bit order)
                  (omega arith) (rw next high) (omega (arith, bit, double_pow order)) fits
                  (Below-more (counted a' order) (inner + cursor + 2 ^ order)
                    (inner + int_bit order + cursor) (omega (arith, bit)) b')
                  (omega (arith, used)) in
              (
                a'',
                populate_take regions order a a' cursor inner (omega (arith, double_pow order))
                      usable allocated
                    ∙ rest,
                b'',
                omega (arith, used, used'),
              )
        ]

whole_block :
    (regions : List PhysmemRegion) (a : BuddyAllocator) (cursor : ℕ)
    → cursor % 2 ^ max_order ≡ 0
    → cursor + 2 ^ max_order ≤ 2 ^ 24
    → Below a cursor
    → 7 ≤ a.total_free_objects
    → (a' : BuddyAllocator) × (populate_block regions (max_order + 1) a cursor 0 ≡ some a')
      × Below a' (cursor + 2 ^ max_order)
      × (a.total_free_objects ≤ a'.total_free_objects + 7)
whole_block regions a cursor here fits b stock =
    let from : 0 + cursor ≡ cursor = omega arith in
    let from_b : Below a (0 + cursor) = rw from b in
    elim (Bool-cases (
      is_block_usable regions (u64 (a.base_addr + ((0 + cursor) <<< page_order)))
        (int_bit (12 + max_order)))) [
          | inr unusable ↦ rw (populate_skip regions max_order a cursor 0 (omega arith) unusable) (
              rest_of_block regions max_order a cursor 0 (omega arith) (rw from here) (omega arith)
                fits from_b stock)
          | inl usable ↦
              let (a', allocated, b', used) =
                add_block a (0 + cursor) max_order (omega arith) (omega arith) (rw from here) from_b
                  (omega arith) in
              let full : populate_block regions max_order (counted a' max_order) cursor
                    (0 + int_bit max_order)
                  ≡ some (counted a' max_order) =
                unfold populate_block in refl in
              (
                counted a' max_order,
                populate_take regions max_order a a' cursor 0 (omega arith) usable allocated ∙ full,
                Below-more (counted a' max_order) (0 + cursor + 2 ^ max_order)
                    (cursor + 2 ^ max_order) (omega arith) b',
                omega (arith, used),
              )
        ]

from_lem :
    (regions : List PhysmemRegion) (k : ℕ) (a : BuddyAllocator) (cursor : ℕ)
    → cursor % 2 ^ max_order ≡ 0
    → cursor + k * 2 ^ max_order ≤ 2 ^ 24
    → Below a cursor
    → 7 * k ≤ a.total_free_objects
    → (a' : BuddyAllocator) × (populate_from regions k a cursor ≡ some a')
      × Below a' (cursor + k * 2 ^ max_order)
unfolding populate_from
from_lem regions zero a cursor here fits b stock =
    (a, refl, Below-more a cursor (cursor + 0) (omega arith) b)
from_lem regions (suc k) a cursor here fits b stock =
    let (a', returns, b', used) = whole_block regions a cursor here (omega arith) b (omega arith) in
    let (a'', rest, b'') =
      from_lem regions k a' (cursor + 2 ^ max_order) (omega arith) (omega arith) b'
        (omega (arith, used)) in
    rw (returns, rest) (a'', refl, Below-more a'' _ _ (omega arith) b'')

no_entries : (x : ℕ) → free_pages (replicate (max_order + 1) []) x ≡ 0
no_entries x = refl

all_empty : (n i : ℕ) (l : List ℕ) → get_elem? (replicate n []) i ≡ some l → [] ≡ l
all_empty zero i l at = cc
all_empty (suc n) zero l at = eq_of_some at
all_empty (suc n) (suc i) l at = all_empty n i l at

no_blocks : AlignedLists (replicate (max_order + 1) [])
no_blocks i l at = subst (AlignedList i) (all_empty (max_order + 1) i l at) tt

-- `buddy_init` for a region of at most 2^24 pages less a block, at a 64-bit address, where the
-- slabs of the pool, counted in a byte, have 7 entries for each 128 pages that are begun, ends
-- without an undefined access, in a valid state whose free pages lie within the region rounded up
-- to blocks of the largest order.
pub buddy_init-IsValid :
    (regions : List PhysmemRegion) (mem : Mem) (bitmap_base pool_slabs base_addr end_addr : ℕ)
    → base_addr < 2 ^ 64
    → (sub64 end_addr base_addr >>> page_order) + 2 ^ max_order ≤ 2 ^ 24
    → 7 * (((sub64 end_addr base_addr >>> page_order) + 127) / 128)
      ≤ u8 pool_slabs * entries_per_slab
    → (a : BuddyAllocator) × (buddy_init regions mem bitmap_base pool_slabs base_addr end_addr
        ≡ some a)
      × IsValid a
      × ((x : ℕ)
          → 0 < free_pages a.freelists x
          → x < (sub64 end_addr base_addr >>> page_order) + 2 ^ max_order)
unfolding buddy_init populate_initial_freelists
buddy_init-IsValid regions mem bitmap_base pool_slabs base_addr end_addr base fits stock =
    let pages = sub64 end_addr base_addr >>> page_order in
    let (bitmap, mem') = bmp_init mem bitmap_base (buddy_bmp_size_bits pages) in
    let empty : BuddyAllocator = record {
      buddy_state_map = bitmap;
      mem = mem';
      total_free_objects = u32 (u8 pool_slabs * entries_per_slab);
      freelists = replicate (max_order + 1) [];
      base_addr = base_addr;
      end_addr = end_addr;
      free_space_bytes = 0;
      allocated_bytes = 0;
    } in
    let k = (pages + int_bit max_order - 1) / int_bit max_order in
    let nothing : Below empty 0 = record {
      lists = refl;
      aligned = no_blocks;
      once = λ x. omega (arith, no_entries x);
      base = base;
      below = λ x h. omega (arith, no_entries x);
    } in
    let (a, returns, b) =
      from_lem regions k empty 0 (omega arith) (omega arith) nothing (omega arith) in
    (
      a,
      returns,
      record {
        lists = b.lists;
        inside = λ x h. omega (arith, b.below x h);
        aligned = b.aligned;
        once = b.once;
        base = b.base;
      },
      λ x h. omega (arith, b.below x h),
    )
