-- ===== src/Vm/Zone.antt =====
-- The zones of virtual memory, of kernel/src/mm/vmzone.c and kernel/src/mm/vm.c. The physical
-- memory that they map comes from kernel/src/mm/boot_mmap.c and kernel/src/mm/phys_alloc.c, which
-- enter as an interface. A result `none` is a fault: an access through NULL, or a fault there.
pub mod Contiguous
pub mod Blocks
pub mod Space
pub mod Reuse
use learning_os.Base.{
  ℕ, zero, suc, ◌+◌, ◌-◌, ◌*◌, ◌/◌, bit_and, bit_or, Bool, true, false, not, ◌&&◌, Option, none,
  some, List, [], ◌∷◌, ltb, leb, ◌==◌, if◌then◌else◌, ◌>>=◌, Mem, store, get_elem?, set, u8, u16,
  u64, sub64, not64, ◌<<<◌, ◌>>>◌,
}
use learning_os.Math.{aligndown}
use learning_os.BootMmap.{page_order, page_size}
use learning_os.Vm.Entry.{
  has, or_if, kphys_addr, kphys_addr_for_entry, phys_addr_for_entry, phys_addr_for_kphys,
  vm_pt_entry_create, next_free_entry, data_alloc_flags, pt_alloc_flags, pt_offset, pdpt_offset,
  pml4t_offset, height_offset, pt_present, pt_page_ahead, pt_page_behind, pt_early_alloc,
  pt_data_page_behind, pt_data_early_alloc, pt_offset_negative, vm_allow_write, vm_allow_exec,
  vm_alloc_early, vm_hugepage, err_vm_unmapped, err_vm_contiguous, entry_addr_mask,
}
use learning_os.Vm.Walk.{
  entry_at, map_phys_page, Walk, traverse, find_pt_or_null, clear_table, vm_space_pt_init,
}

abbrev pub vmzflag_contiguous : ℕ
vmzflag_contiguous = 1

abbrev pub vmzflag_block_alloc : ℕ
vmzflag_block_alloc = 1 <<< 1

abbrev pub vmzflag_allow_execute : ℕ
vmzflag_allow_execute = 1 <<< 5

abbrev pub vmzflag_initialized : ℕ
vmzflag_initialized = 1 <<< 6

abbrev pub kernel_normal_mem : ℕ
kernel_normal_mem = 0xFFFFFF0000000000

abbrev pub kernel_sensitive_mem : ℕ
kernel_sensitive_mem = 0xFFFFFF8000000000

pub record Zone : Type 0 where
  pub start_address : ℕ
  pub end_address : ℕ
  pub cursor_addr : ℕ
  pub vm_flags : ℕ
  pub block_order : ℕ
  pub flags : ℕ

-- `__define_vmzone`
unfoldable pub define_vmzone : ℕ → ℕ → ℕ → ℕ → Zone
define_vmzone base zone_size_gb flags block_order = record {
  start_address = base;
  end_address = u64 (base + (zone_size_gb <<< 30));
  cursor_addr = base;
  vm_flags = or_if (has flags vmzflag_allow_execute) vm_allow_exec vm_allow_write;
  block_order = block_order;
  flags = flags;
}

-- The zones in the order of their numbers: heap, stack, user shared, slab and buddy memory. A slab
-- takes `2 ^ slab_order` pages.
unfoldable pub vmzone_init : ℕ → List Zone
vmzone_init slab_order =
    define_vmzone kernel_sensitive_mem 8 vmzflag_contiguous 0
    ∷ define_vmzone kernel_normal_mem 128 vmzflag_block_alloc 1
    ∷ define_vmzone (kernel_normal_mem + (256 <<< 30)) 256 vmzflag_allow_execute 0
    ∷ define_vmzone (kernel_sensitive_mem + (8 <<< 30)) 8 vmzflag_block_alloc slab_order
    ∷ define_vmzone (kernel_normal_mem + (128 <<< 30)) 1 vmzflag_block_alloc 1
    ∷ []

-- The allocators of physical memory that the zones use. They get at neither the zones nor the
-- tables: where the allocator of kernel/src/mm/phys_alloc.c has fewer than 8 entries of free lists
-- left, its `__freespace_check` maps a slab in one of these zones, which is not followed and counts
-- as a fault, `none`.
pub record PhysicalMemory (A : Type 0) : Type 0 where
  pub reserve_physmem_region : ℕ → A → Option (ℕ × A)
  pub phys_alloc : ℕ → A → Option (ℕ × A)
  pub phys_free : ℕ → ℕ → A → Option A
  pub phys_block_shrink : ℕ → ℕ → ℕ → A → Option A

pub record Vm (A : Type 0) : Type 0 where
  pub mem : Mem
  pub pool : A
  pub zones : List Zone

-- `entries[0]` of the `i`-th of the tables that were allocated together
unfoldable pub first_entry : ℕ → ℕ → ℕ → ℕ
first_entry flags num_pages i =
    or_if (ltb i (num_pages - 1)) pt_page_ahead
      (or_if (ltb 0 i) pt_page_behind (or_if (has flags vm_alloc_early) pt_early_alloc 0))

-- The loop of `_alloc_page_tables`, for the tables below the number given.
unfoldable pub mark_tables : Mem → ℕ → ℕ → ℕ → ℕ → Mem
mark_tables m page_tables flags num_pages zero = m
mark_tables m page_tables flags num_pages (suc i) =
    store (mark_tables m page_tables flags num_pages i) (page_tables + i * 4096)
      (first_entry flags num_pages i)

-- The loop of `_prepare_block_pt`, over `rounds` blocks from entry `i` on.
unfoldable pub prepare_blocks : Mem → ℕ → ℕ → ℕ → ℕ → Mem
prepare_blocks m pt block_pages i zero = m
prepare_blocks m pt block_pages i (suc rounds) =
    let at = entry_at pt i in
    prepare_blocks (store m at (bit_or (m at) (block_pages <<< 12))) pt block_pages
      (i + block_pages) rounds

-- A block of 2^8 pages or more has none in the byte that counts them.
unfoldable pub prepare_block_pt : Mem → Zone → ℕ → Mem
prepare_block_pt m zone pt =
    let block_pages = u8 (1 <<< zone.block_order) in
    prepare_blocks m pt block_pages 0 ((512 + block_pages - 1) / block_pages)

module _ {A : Type 0} (physical : PhysicalMemory A) where
  -- `__alloc_phys_block`
  unfoldable pub alloc_phys_block : ℕ → ℕ → A → Option (ℕ × A)
  alloc_phys_block num_pages flags pool =
      if has flags vm_alloc_early
      then physical.reserve_physmem_region num_pages pool
      else physical.phys_alloc num_pages pool

  -- `__free_phys_block`
  unfoldable pub free_phys_block : ℕ → ℕ → A → Option A
  free_phys_block base_entry num_pages pool =
      if has base_entry pt_data_early_alloc
      then some pool
      else physical.phys_free (phys_addr_for_entry base_entry) num_pages pool

  -- `__shrink_phys_block`, which passes on the entry in place of its address
  unfoldable pub shrink_phys_block : ℕ → ℕ → ℕ → A → Option A
  shrink_phys_block base_entry block_size target_size pool =
      if has base_entry pt_data_early_alloc
      then some pool
      else physical.phys_block_shrink base_entry block_size target_size pool

  unfoldable pub alloc_page_tables : ℕ → ℕ → Mem → A → Option (ℕ × Mem × A)
  alloc_page_tables num_pages flags m pool = do
    (alloc_base, pool') ← alloc_phys_block num_pages flags pool
    let page_tables = kphys_addr alloc_base
    let cleared = clear_table m page_tables (512 * num_pages)
    some (alloc_base, mark_tables cleared page_tables flags num_pages num_pages, pool')

  -- The loop of `__find_or_allocate_pt`, from the height given down to the page table.
  unfoldable pub allocate_levels : ℕ → ℕ → ℕ → ℕ → Mem → A → Option (ℕ × Mem × A)
  allocate_levels zero virt_addr flags parent m pool = some (parent, m, pool)
  allocate_levels (suc height) virt_addr flags parent m pool = do
    (table, m', pool') ← alloc_page_tables 1 flags m pool
    let linked = map_phys_page m' parent (height_offset virt_addr (suc height)) table flags
    allocate_levels height virt_addr flags (kphys_addr table) linked pool'

  -- The page table, how many tables were allocated, and the state. The callers access the table
  -- also where the walk ended with another error and the result is NULL.
  unfoldable pub find_or_allocate_pt : ℕ → ℕ → ℕ → Mem → A → Option (ℕ × ℕ × Mem × A)
  find_or_allocate_pt pml4t virt_addr flags m pool =
      let walk = traverse m pml4t virt_addr flags in
      if walk.error == err_vm_unmapped
      then (do
        (pt, m', pool') ← allocate_levels walk.depth virt_addr flags walk.table m pool
        some (pt, walk.depth, m', pool'))
      else if walk.error == 0
      then some (walk.table, 0, m, pool)
      else none
