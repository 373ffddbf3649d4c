-- ===== src/PhysAlloc.antt =====
-- kernel/src/mm/phys_alloc.c: the physical page allocator in front of the buddy allocator.
-- `_allocator` is the state. The code prints while it initialises, which is left out.
pub mod Alloc
pub mod Runs
pub mod Rounds
pub mod Shrink
pub mod Returns
pub mod LastBlock
pub mod Ends
pub mod Keeps
pub mod Cuts
use learning_os.Base.{
  ℕ, zero, suc, ◌+◌, ◌-◌, ◌*◌, ◌/◌, ◌%◌, ◌^◌, bit_and, Bool, true, false, Option, none, some, List,
  [], ◌∷◌, ltb, leb, ◌==◌, if◌then◌else◌, ◌>>=◌, u8, u32, u64, sub64, Mem, int_bit, ◌>>>◌,
}
use learning_os.Math.{bit_order}
use learning_os.Buddy.Init.{buddy_estimate_pool_size, buddy_init}
use learning_os.BootMmap.{reserve_physmem_region, PhysmemRegion, page_order}
use learning_os.Buddy.Index.{max_order}
use learning_os.Buddy.State.{BuddyAllocator}
use learning_os.Buddy.Alloc.{buddy_alloc_block}
use learning_os.Buddy.Free.{buddy_free_block}
use learning_os.Buddy.Shrink.{buddy_shrink_block}

abbrev pub freelist_expansion_threshold : ℕ
freelist_expansion_threshold = max_order + 1

-- `_alloc_bounds_t`
pub record AllocBounds : Type 0 where
  pub start : ℕ
  pub end : ℕ

-- The first region from 1 MB up, and those behind it.
unfoldable pub regions_from_1mb : List PhysmemRegion → List PhysmemRegion
regions_from_1mb [] = []
regions_from_1mb (region ∷ regions) = elim (ltb region.free_start 0x100000) [
  | true ↦ regions_from_1mb regions
  | false ↦ region ∷ regions
]

-- The end of the last of a chain of regions.
unfoldable pub last_end : PhysmemRegion → List PhysmemRegion → ℕ
last_end region [] = region.region_end
last_end region (next ∷ regions) = last_end next regions

-- With no region from 1 MB up the code reads through a NULL pointer.
unfoldable pub find_allocatable_region : List PhysmemRegion → Option AllocBounds
find_allocatable_region regions = elim (regions_from_1mb regions) [
  | [] ↦ none
  | region ∷ rest ↦ some (record { start = region.free_start; end = last_end region rest })
]

-- `buddy_freelist_pool_expand` prepares one slab of `objs_per_slab` entries.
unfoldable pub buddy_freelist_pool_expand : ℕ → BuddyAllocator → BuddyAllocator
buddy_freelist_pool_expand objs_per_slab a = record a {
  total_free_objects = u32 (a.total_free_objects + objs_per_slab);
}

-- `KPHYS_ADDR` of kernel/include/mm.h: the kernel sees physical memory from `KERNEL_VMA` on.
abbrev pub kphys_addr : ℕ → ℕ
kphys_addr addr = u64 (0xFFFFFFFF80000000 + addr)

-- The slabs behind the first; `vm_alloc_early`, which maps each, takes pages of the regions.
unfoldable pub map_slabs :
    (List PhysmemRegion → ℕ × List PhysmemRegion) → ℕ → List PhysmemRegion → List PhysmemRegion
map_slabs vm_alloc_early zero regions = regions
map_slabs vm_alloc_early (suc k) regions = map_slabs vm_alloc_early k (vm_alloc_early regions).1

-- `buddy_memory_pool`
pub record MemoryPool : Type 0 where
  pub bitmap_and_struct_pool : ℕ
  pub freelist_pool : ℕ
  pub freelist_pool_slabs : ℕ

-- The loop counts the slabs in a byte, and does not end for 256 of them or more.
unfoldable pub prealloc_buddy_pool :
    (List PhysmemRegion → ℕ × List PhysmemRegion)
    → List PhysmemRegion
    → AllocBounds
    → Option (MemoryPool × List PhysmemRegion)
prealloc_buddy_pool vm_alloc_early regions bounds =
    let num_pages = sub64 bounds.end bounds.start >>> page_order in
    let pool_size_vector = buddy_estimate_pool_size num_pages in
    let (bmp_phys, regions1) =
      reserve_physmem_region regions pool_size_vector.bitmap_and_struct_pages in
    let (slab, regions2) = vm_alloc_early regions1 in
    let slabs = pool_size_vector.freelist_pool_slabs in
    let pool : MemoryPool = record {
      bitmap_and_struct_pool = kphys_addr bmp_phys;
      freelist_pool = slab;
      freelist_pool_slabs = slabs;
    } in
    if leb 256 slabs then none else some (pool, map_slabs vm_alloc_early (slabs - 1) regions2)

unfoldable pub phys_alloc_init :
    (List PhysmemRegion → ℕ × List PhysmemRegion)
    → List PhysmemRegion
    → Mem
    → Option (BuddyAllocator × List PhysmemRegion)
phys_alloc_init vm_alloc_early regions mem = do
  bounds ← find_allocatable_region regions
  (pool, regions1) ← prealloc_buddy_pool vm_alloc_early regions bounds
  bounds1 ← find_allocatable_region regions1
  a ←
      buddy_init regions1 mem pool.bitmap_and_struct_pool pool.freelist_pool_slabs bounds1.start
        bounds1.end
  some (a, regions1)

-- `vm_alloc_block` maps a slab for entries, for which it may take pages of this allocator: it is
-- an argument, and may fault.
module _ (objs_per_slab : ℕ) (vm_alloc_block : BuddyAllocator → Option BuddyAllocator) where
  unfoldable pub freespace_check : BuddyAllocator → Option BuddyAllocator
  freespace_check a =
      if ltb a.total_free_objects freelist_expansion_threshold
      then (do a' ← vm_alloc_block a; some (buddy_freelist_pool_expand objs_per_slab a'))
      else some a

  -- The first part of the result is the address, 0 for NULL.
  unfoldable pub phys_alloc : BuddyAllocator → ℕ → Option (ℕ × BuddyAllocator)
  phys_alloc a num_pages = if ltb (int_bit max_order) num_pages then some (0, a) else do
    let alloc_order = bit_order num_pages
    (block_base, a1) ← buddy_alloc_block a alloc_order
    a2 ← buddy_shrink_block a1 block_base alloc_order num_pages
    a3 ← freespace_check a2
    some (block_base, a3)

  module _ (regions : List PhysmemRegion) where
    -- The loop of `phys_block_shrink` over the orders from `k - 1` down to 0.
    unfoldable pub shrink_orders : ℕ → BuddyAllocator → ℕ → ℕ → ℕ → Option BuddyAllocator
    shrink_orders zero a block_addr block_size target_size = some a
    shrink_orders (suc order) a block_addr block_size target_size =
        let next = u64 (block_addr + int_bit (order + page_order)) in
        if bit_and (block_size >>> order) 1 == 0
        then shrink_orders order a block_addr block_size target_size
        else elim (target_size == 0) [
          | true ↦ do
            a' ← buddy_free_block regions a block_addr order
            shrink_orders order a' next block_size 0
          | false ↦ elim (leb target_size (int_bit order)) [
            | true ↦ do
              a' ← buddy_shrink_block a block_addr order target_size
              shrink_orders order a' next block_size 0
            | false ↦ shrink_orders order a next block_size (target_size - int_bit order)
          ]
        ]

    unfoldable pub phys_block_shrink : BuddyAllocator → ℕ → ℕ → ℕ → Option BuddyAllocator
    phys_block_shrink a block_addr block_size target_size = do
      a' ← shrink_orders (bit_order block_size + 1) a block_addr block_size target_size
      freespace_check a'

    unfoldable pub phys_free : BuddyAllocator → ℕ → ℕ → Option BuddyAllocator
    phys_free a block_addr num_pages = phys_block_shrink a block_addr num_pages 0
