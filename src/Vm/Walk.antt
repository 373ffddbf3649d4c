-- ===== src/Vm/Walk.antt =====
-- The walks over the page tables and the mappings of kernel/src/mm/vm.c and kernel/src/mm.c. Memory
-- is a 64-bit word at each address that is a multiple of 8, at the addresses at which the kernel
-- sees it (`KPHYS_ADDR`); a table is the address of its first entry. `cr3` is an argument.
use learning_os.Base.{
  ℕ, zero, suc, ◌+◌, ◌-◌, ◌*◌, bit_and, not, Option, none, some, ltb, ◌==◌, if◌then◌else◌, Mem,
  store, u16, u64, not64, ◌<<<◌, ◌>>>◌,
}
use learning_os.BootMmap.{page_order}
use learning_os.Vm.Entry.{
  has, kphys_addr, kphys_addr_for_entry, phys_addr_for_entry, phys_addr_for_kphys, mapped_entry,
  vm_check_status, pt_offset, pdt_offset, pdpt_offset, pml4t_offset, pt_present, pt_hugepage,
  vm_write_guard, vm_allow_write, err_vm_boundary, err_vm_already_mapped,
}

-- The address of `table->entries[offset]`.
abbrev pub entry_at : ℕ → ℕ → ℕ
entry_at table offset = table + 8 * offset

unfoldable pub check_vm_region_boundary : ℕ → ℕ → ℕ → ℕ
check_vm_region_boundary virt_base pages flags =
    let guarded = if has flags vm_write_guard then u16 (pages + 1) else pages in
    let virt_end = u64 (virt_base + (guarded <<< page_order)) in
    let offset_mask = 0x8FFFFFF <<< (12 + 9) in
    if ltb 512 guarded
    then err_vm_boundary
    else if bit_and virt_base offset_mask == bit_and virt_end offset_mask
    then 0
    else err_vm_boundary

-- `__map_phys_page`
unfoldable pub map_phys_page : Mem → ℕ → ℕ → ℕ → ℕ → Mem
map_phys_page m pt offset phys_addr flags =
    store m (entry_at pt offset) (mapped_entry (m (entry_at pt offset)) phys_addr flags)

-- What a walk leaves: the table that it reached, the levels that are left, and the error.
pub record Walk : Type 0 where
  pub table : ℕ
  pub depth : ℕ
  pub error : ℕ

-- `__traverse_with_status` at a table whose entries stand for `2 ^ current_shift` bytes each. The
-- callers start with a depth of 3, so that the loop ends at 0.
unfoldable pub traverse_with_status : Mem → ℕ → ℕ → ℕ → ℕ → ℕ → Walk
traverse_with_status m virt_addr flags zero current_shift table = record {
  table = table;
  depth = 0;
  error = 0;
}
traverse_with_status m virt_addr flags (suc depth) current_shift table =
    let current_offset = bit_and (virt_addr >>> current_shift) 0x1FF in
    let entry = m (entry_at table current_offset) in
    let error = vm_check_status entry flags in
    let rest =
      traverse_with_status m virt_addr flags depth (current_shift - 9)
        (kphys_addr_for_entry entry) in
    if error == 0 then rest else record { table = table; depth = suc depth; error = error }

unfoldable pub traverse : Mem → ℕ → ℕ → ℕ → Walk
traverse m pml4t virt_addr flags = traverse_with_status m virt_addr flags 3 (12 + 27) pml4t

-- The loop of `__find_pt_or_null`; `none` is NULL.
unfoldable pub find_from : Mem → ℕ → ℕ → ℕ → ℕ → Option ℕ
find_from m virt_addr zero current_shift table = some table
find_from m virt_addr (suc rounds) current_shift table =
    let entry = m (entry_at table (bit_and (virt_addr >>> current_shift) 0x1FF)) in
    let rest = find_from m virt_addr rounds (current_shift - 9) (kphys_addr_for_entry entry) in
    if not (has entry pt_present) then none else rest

unfoldable pub find_pt_or_null : Mem → ℕ → ℕ → Option ℕ
find_pt_or_null m pml4t virt_addr = find_from m virt_addr 3 (page_order + 27) pml4t

-- The loop of `vm_map_pages`, for the pages below the number given.
unfoldable pub map_region : Mem → ℕ → ℕ → ℕ → ℕ → ℕ → Mem
map_region m pt start_offset phys_base flags zero = m
map_region m pt start_offset phys_base flags (suc page) =
    let m' = map_region m pt start_offset phys_base flags page in
    map_phys_page m' pt (start_offset + page) (u64 (phys_base + (page <<< 12))) flags

-- `flags &= ~VM_ALLOW_WRITE` on a byte
abbrev pub read_only : ℕ → ℕ
read_only flags = bit_and flags (not64 vm_allow_write)

-- The error of the walk is not looked at.
unfoldable pub vm_map_pages : Mem → ℕ → ℕ → ℕ → ℕ → ℕ → ℕ × Mem
vm_map_pages m cr3 phys_base pages virt_base flags =
    let pt = (traverse m (kphys_addr cr3) virt_base flags).table in
    let start_offset = pt_offset virt_base in
    let mapped = map_region m pt start_offset phys_base flags pages in
    let guarded =
      map_phys_page mapped pt (start_offset + pages) (u64 (phys_base + (pages <<< 12)))
        (read_only flags) in
    if 0 == check_vm_region_boundary virt_base pages flags
    then (0, if has flags vm_write_guard then guarded else mapped)
    else (err_vm_boundary, m)

-- `memset` of a table to 0, by its entries
unfoldable pub clear_table : Mem → ℕ → ℕ → Mem
clear_table m pt zero = m
clear_table m pt (suc entries) = store (clear_table m pt entries) (entry_at pt entries) 0

-- The `switch` of `vm_space_pt_init` on a height from 1 to 3.
unfoldable pub offset_for : ℕ → ℕ → ℕ
offset_for height addr =
    if height == 1
    then pdt_offset addr
    else if height == 2
    then pdpt_offset addr
    else pml4t_offset addr

unfoldable pub vm_space_pt_init : Mem → ℕ → ℕ → ℕ → ℕ → ℕ → ℕ × Mem
vm_space_pt_init m pml4t pt path_offset flags max_depth =
    let walk = traverse m pml4t path_offset flags in
    let reached_depth = 4 - walk.depth in
    let offset = offset_for walk.depth path_offset in
    let linked = map_phys_page m walk.table offset (phys_addr_for_kphys pt) flags in
    if walk.error == 0
    then (err_vm_already_mapped, m)
    else if ltb max_depth reached_depth
    then (err_vm_already_mapped, m)
    else (0, clear_table linked pt 512)

unfoldable pub vm_pt_init : Mem → ℕ → ℕ → ℕ → ℕ → ℕ × Mem
vm_pt_init m cr3 pt path_offset flags = vm_space_pt_init m (kphys_addr cr3) pt path_offset flags 3

-- `virt_to_phys` of kernel/src/mm.c, which walks from the table at 0x1000; a result of 0 is NULL.
-- For a page of 4096 bytes it gives the address at which the kernel sees the page.
unfoldable pub virt_to_phys : Mem → ℕ → ℕ
virt_to_phys m virt_addr =
    let pml4t_entry = m (entry_at (kphys_addr 0x1000) (pml4t_offset virt_addr)) in
    let pdpt_entry = m (entry_at (kphys_addr_for_entry pml4t_entry) (pdpt_offset virt_addr)) in
    let pdt_entry = m (entry_at (kphys_addr_for_entry pdpt_entry) (pdt_offset virt_addr)) in
    let pt_entry = m (entry_at (kphys_addr_for_entry pdt_entry) (pt_offset virt_addr)) in
    if not (has pml4t_entry pt_present)
    then 0
    else if not (has pdpt_entry pt_present)
    then 0
    else if not (has pdt_entry pt_present)
    then 0
    else if has pdt_entry pt_hugepage
    then u64 (phys_addr_for_entry pdt_entry + bit_and virt_addr 0x1FFFFF)
    else if not (has pt_entry pt_present)
    then 0
    else u64 (kphys_addr_for_entry pt_entry + bit_and virt_addr 0xFFF)

abbrev pub phys_to_kvirt : ℕ → ℕ
phys_to_kvirt phys_addr = kphys_addr phys_addr
