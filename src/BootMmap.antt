-- ===== src/BootMmap.antt =====
-- kernel/src/mm/boot_mmap.c and kernel/include/mm/boot_mmap.h: the usable regions of physical
-- memory, reservations from them, and the test of a block. The list of regions is the chain of
-- `next_region` pointers. `__KERNEL_PHYSICAL_START` and `__KERNEL_PHYSICAL_END` come from the
-- linker script and the memory map from the boot loader: all three are arguments.
pub mod Reserve
pub mod Usable
use learning_os.Base.{
  ℕ, suc, ◌+◌, ◌-◌, ◌*◌, bit_and, Bool, true, false, ◌&&◌, Option, none, some, List, [], ◌∷◌, ltb,
  leb, ◌==◌, if◌then◌else◌, length, u64, sub64, not64,
}
use learning_os.Math.{mask_for_first_n_bits}

abbrev pub page_size : ℕ
page_size = 0x1000

abbrev pub page_order : ℕ
page_order = 12

abbrev pub e820_usable_ram : ℕ
e820_usable_ram = 1

-- `struct multiboot_mmap_entry`
pub record MmapEntry : Type 0 where
  pub addr : ℕ
  pub len : ℕ
  pub kind : ℕ

pub record PhysmemRegion : Type 0 where
  pub free_start : ℕ
  pub region_end : ℕ

unfoldable pub clamp_up_to_page : ℕ → ℕ
clamp_up_to_page addr =
    bit_and (u64 (addr + page_size - 1)) (not64 (mask_for_first_n_bits page_order))

-- The region that the loop of `load_physmem_regions` makes of a usable entry.
unfoldable pub region_for : ℕ → ℕ → MmapEntry → PhysmemRegion
unfolding clamp_up_to_page
region_for kernel_start kernel_end entry =
    let region_base = if ltb page_size entry.addr then entry.addr else page_size in
    record {
      free_start =
          if leb kernel_start region_base && leb region_base kernel_end
          then clamp_up_to_page kernel_start
          else region_base;
      region_end = u64 (entry.addr + entry.len);
    }

unfoldable pub regions_for : ℕ → ℕ → List MmapEntry → List PhysmemRegion
unfolding region_for
regions_for kernel_start kernel_end [] = []
regions_for kernel_start kernel_end (entry ∷ entries) =
    let rest = regions_for kernel_start kernel_end entries in
    if entry.kind == e820_usable_ram then region_for kernel_start kernel_end entry ∷ rest else rest

-- `cached` is the static `regions`. The pool has twelve places, the last of which is cleared
-- behind the regions, and the code writes in front of the pool if there is no region.
unfoldable pub load_physmem_regions :
    ℕ → ℕ → List MmapEntry → Option (List PhysmemRegion) → Option (List PhysmemRegion)
unfolding regions_for clamp_up_to_page
load_physmem_regions start kernel_end entries (some regions) = some regions
load_physmem_regions start kernel_end entries none =
    let regions = regions_for (clamp_up_to_page start) kernel_end entries in
    if length regions == 0 then none else if ltb 11 (length regions) then none else some regions

-- A result of 0 is NULL.
unfoldable pub reserve_physmem_region : List PhysmemRegion → ℕ → ℕ × List PhysmemRegion
reserve_physmem_region [] num_pages = (0, [])
reserve_physmem_region (region ∷ regions) num_pages =
    let reservation_size = u64 (num_pages * page_size) in
    let (start, regions') = reserve_physmem_region regions num_pages in
    if leb (sub64 region.region_end region.free_start) reservation_size
    then (start, region ∷ regions')
    else (
      region.free_start,
      record region { free_start = u64 (region.free_start + reservation_size) } ∷ regions,
    )

unfoldable pub is_block_usable : List PhysmemRegion → ℕ → ℕ → Bool
is_block_usable [] block_base num_bytes = false
is_block_usable (region ∷ regions) block_base num_bytes =
    let block_end = u64 (block_base + num_bytes) in
    if leb region.free_start block_base && leb block_end region.region_end
    then true
    else is_block_usable regions block_base num_bytes
