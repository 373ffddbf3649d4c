-- ===== src/Vm/Zone/Space.antt =====
-- `vmspace_init` of kernel/src/mm/vmzone.c and `vm_init` of kernel/src/mm/vm.c: the tables for the
-- zones and for the last 2 GB of addresses.
use learning_os.Base.{
  ℕ, zero, suc, ◌+◌, ◌*◌, bit_and, bit_or, Option, none, some, List, [], ◌∷◌, if◌then◌else◌, ◌>>=◌,
  Mem, store, u64, ◌<<<◌,
}
use learning_os.BootMmap.{page_order, page_size}
use learning_os.Vm.Entry.{
  has, kphys_addr, kphys_addr_for_entry, phys_addr_for_kphys, vm_pt_entry_create, pdpt_offset,
  pml4t_offset, pt_present, vm_allow_write, vm_allow_exec, vm_alloc_early, vm_hugepage,
}
use learning_os.Vm.Walk.{entry_at, vm_space_pt_init}
use learning_os.Vm.Zone.{
  Zone, PhysicalMemory, Vm, vmzflag_block_alloc, vmzflag_initialized, kernel_normal_mem,
  kernel_sensitive_mem, alloc_page_tables, prepare_block_pt, vmzone_init,
}

-- `vmspace_init`, with the two tables that it keeps between calls.
pub record Space (A : Type 0) : Type 0 where
  pub vm : Vm A
  pub sensitive_mem_pdpt : Option ℕ
  pub normal_mem_pdpt : Option ℕ

-- `entries[offset] |= value`
unfoldable pub or_entry : Mem → ℕ → ℕ → ℕ → Mem
or_entry m table offset value =
    store m (entry_at table offset) (bit_or (m (entry_at table offset)) value)

-- The huge pages of the last 2 GB, below the number given.
unfoldable pub map_huge : Mem → ℕ → ℕ → Mem
map_huge m pt zero = m
map_huge m pt (suc i) =
    let flags = bit_or (bit_or vm_allow_write vm_allow_exec) vm_hugepage in
    or_entry (map_huge m pt i) pt i (vm_pt_entry_create (i * (512 <<< page_order)) flags)

module _ {A : Type 0} (physical : PhysicalMemory A) where
  -- The table of one of the two halves: the one that is kept, the one in the top table, or a new
  -- one. Then the top table gets an entry for it if it has none.
  unfoldable pub link_half : ℕ → ℕ → ℕ → Option ℕ → Mem → A → Option (ℕ × Mem × A)
  link_half pml4t offset flags kept m pool = do
    let entry = m (entry_at pml4t offset)
    (pdpt, m', pool') ← elim kept [
      | some table ↦ some (table, m, pool)
      | none ↦ if has entry pt_present then some (kphys_addr_for_entry entry, m, pool) else (do
        (base, m1, pool1) ← alloc_page_tables physical 1 (bit_and flags vm_alloc_early) m pool
        some (kphys_addr base, m1, pool1))
    ]
    let created =
        vm_pt_entry_create (phys_addr_for_kphys pdpt) (bit_or vm_allow_exec vm_allow_write)
    let linked = or_entry m' pml4t offset created
    let is_present = has (m' (entry_at pml4t offset)) pt_present
    some (pdpt, (if is_present then m' else linked), pool')

  -- The map of the last 2 GB of addresses, unless it is there.
  unfoldable pub map_kernel : ℕ → ℕ → ℕ → Mem → A → Option (Mem × A)
  map_kernel pml4t flags sensitive m pool =
      if has (m (entry_at sensitive 511)) pt_present then some (m, pool) else (do
        (base, m1, pool1) ← alloc_page_tables physical 1 (bit_and flags vm_alloc_early) m pool
        let pt = kphys_addr base
        let all = bit_or vm_allow_write vm_allow_exec
        let (error, m2) = vm_space_pt_init m1 pml4t pt 0xFFFFFFFF80000000 all 2
        some (map_huge m2 pt 512, pool1))

  -- The tables for the start of a zone.
  unfoldable pub init_zone : ℕ → ℕ → Zone → Mem → A → Option (Zone × Mem × A)
  init_zone pml4t flags zone m pool =
      if has zone.flags vmzflag_initialized then some (zone, m, pool) else (do
        (pdt_phys, m1, pool1) ← alloc_page_tables physical 2 (bit_and flags vm_alloc_early) m pool
        let pdt = kphys_addr pdt_phys
        let m2 = or_entry m1 pdt 0 (vm_pt_entry_create (u64 (pdt_phys + page_size)) zone.vm_flags)
        let m3 =
            if has zone.flags vmzflag_block_alloc then prepare_block_pt m2 zone (pdt + 4096) else m2
        let top = m3 (entry_at pml4t (pml4t_offset zone.start_address))
        let linked =
            or_entry m3 (kphys_addr_for_entry top) (pdpt_offset zone.start_address)
              (vm_pt_entry_create pdt_phys zone.vm_flags)
        some (record zone { flags = bit_or zone.flags vmzflag_initialized }, linked, pool1))

  unfoldable pub init_zones : ℕ → ℕ → List Zone → Mem → A → Option (List Zone × Mem × A)
  init_zones pml4t flags [] m pool = some ([], m, pool)
  init_zones pml4t flags (zone ∷ zones) m pool = do
    (zone', m1, pool1) ← init_zone pml4t flags zone m pool
    (zones', m2, pool2) ← init_zones pml4t flags zones m1 pool1
    some (zone' ∷ zones', m2, pool2)

  unfoldable pub vmspace_init : ℕ → ℕ → Space A → Option (Space A)
  vmspace_init pml4t flags s = do
    (sensitive, m1, pool1) ←
        link_half pml4t (pml4t_offset kernel_sensitive_mem) flags s.sensitive_mem_pdpt s.vm.mem
          s.vm.pool
    (normal, m2, pool2) ←
        link_half pml4t (pml4t_offset kernel_normal_mem) flags s.normal_mem_pdpt m1 pool1
    (m3, pool3) ← map_kernel pml4t flags sensitive m2 pool2
    (zones, m4, pool4) ← init_zones pml4t flags s.vm.zones m3 pool3
    some (record {
      vm = record { mem = m4; pool = pool4; zones = zones };
      sensitive_mem_pdpt = some sensitive;
      normal_mem_pdpt = some normal;
    })

  -- `vm_init`
  unfoldable pub vm_init : ℕ → ℕ → Mem → A → Option (Space A)
  vm_init slab_order cr3 m pool = vmspace_init (kphys_addr cr3) vm_alloc_early (record {
    vm = record { mem = m; pool = pool; zones = vmzone_init slab_order };
    sensitive_mem_pdpt = none;
    normal_mem_pdpt = none;
  })
