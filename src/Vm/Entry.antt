-- ===== src/Vm/Entry.antt =====
-- The entries of page tables, of kernel/include/mm.h, kernel/include/mm/vm.h and
-- kernel/src/mm/vm.c. An entry is a number below 2^64, and so are the addresses.
use learning_os.Base.{
  ℕ, ◌+◌, ◌-◌, ◌*◌, bit_and, bit_or, Bool, not, ◌&&◌, ltb, if◌then◌else◌, u64, sub64, not64, ◌<<<◌,
  ◌>>>◌,
}
use learning_os.Math.{mask_for_first_n_bits}
pub use learning_os.PhysAlloc.{kphys_addr}

abbrev pub kernel_vma : ℕ
kernel_vma = 0xFFFFFFFF80000000

abbrev pub entry_addr_mask : ℕ
entry_addr_mask = not64 ((0xFFF <<< 52) + 0xFFF)

abbrev pub pt_present : ℕ
pt_present = 1

abbrev pub pt_writable : ℕ
pt_writable = 1 <<< 1

abbrev pub pt_user_accessible : ℕ
pt_user_accessible = 1 <<< 2

abbrev pub pt_hugepage : ℕ
pt_hugepage = 1 <<< 7

abbrev pub pt_no_execute : ℕ
pt_no_execute = 1 <<< 63

abbrev pub pt_page_ahead : ℕ
pt_page_ahead = 1 <<< 9

abbrev pub pt_page_behind : ℕ
pt_page_behind = 1 <<< 10

abbrev pub pt_early_alloc : ℕ
pt_early_alloc = 1 <<< 11

abbrev pub pt_data_page_ahead : ℕ
pt_data_page_ahead = 1 <<< 54

abbrev pub pt_data_page_behind : ℕ
pt_data_page_behind = 1 <<< 55

abbrev pub pt_data_early_alloc : ℕ
pt_data_early_alloc = 1 <<< 56

abbrev pub pt_offset_negative : ℕ
pt_offset_negative = 1 <<< 58

abbrev pub vm_allow_write : ℕ
vm_allow_write = 1

abbrev pub vm_allow_exec : ℕ
vm_allow_exec = 1 <<< 1

abbrev pub vm_allow_user : ℕ
vm_allow_user = 1 <<< 2

abbrev pub vm_write_guard : ℕ
vm_write_guard = 1 <<< 3

abbrev pub vm_alloc_early : ℕ
vm_alloc_early = 1 <<< 4

abbrev pub vm_hugepage : ℕ
vm_hugepage = 1 <<< 7

abbrev pub err_vm_unmapped : ℕ
err_vm_unmapped = 1

abbrev pub err_vm_privilege : ℕ
err_vm_privilege = 2

abbrev pub err_vm_boundary : ℕ
err_vm_boundary = 3

abbrev pub err_vm_already_mapped : ℕ
err_vm_already_mapped = 4

abbrev pub err_vm_contiguous : ℕ
err_vm_contiguous = 5

abbrev pub page_address_mask : ℕ
page_address_mask = mask_for_first_n_bits 40 <<< 12

abbrev pub mask_unreserved_bits : ℕ
mask_unreserved_bits =
    not64 (bit_or (bit_or page_address_mask (1 <<< 63)) (mask_for_first_n_bits 9))

-- `value & flag` as a test
abbrev pub has : ℕ → ℕ → Bool
has value flag = ltb 0 (bit_and value flag)

unfoldable pub pt_alloc_flags : ℕ → ℕ
pt_alloc_flags entry = bit_and entry (bit_or (bit_or pt_page_ahead pt_page_behind) pt_early_alloc)

unfoldable pub phys_addr_for_entry : ℕ → ℕ
phys_addr_for_entry entry = bit_and entry entry_addr_mask

unfoldable pub kphys_addr_for_entry : ℕ → ℕ
unfolding phys_addr_for_entry
kphys_addr_for_entry entry = kphys_addr (phys_addr_for_entry entry)

unfoldable pub phys_addr_for_kphys : ℕ → ℕ
phys_addr_for_kphys addr = if ltb addr kernel_vma then 0 else addr - kernel_vma

unfoldable pub next_free_entry : ℕ → ℕ → ℕ
next_free_entry free_entry entry_addr =
    let offset = bit_and free_entry entry_addr_mask in
    if has free_entry pt_offset_negative then sub64 entry_addr offset else u64 (entry_addr + offset)

abbrev pub pml4t_offset : ℕ → ℕ
pml4t_offset addr = bit_and (addr >>> (12 + 27)) 0x1FF

abbrev pub pdpt_offset : ℕ → ℕ
pdpt_offset addr = bit_and (addr >>> (12 + 18)) 0x1FF

abbrev pub pdt_offset : ℕ → ℕ
pdt_offset addr = bit_and (addr >>> (12 + 9)) 0x1FF

abbrev pub pt_offset : ℕ → ℕ
pt_offset addr = bit_and (addr >>> 12) 0x1FF

abbrev pub height_offset : ℕ → ℕ → ℕ
height_offset addr height = bit_and (addr >>> (12 + height * 9)) 0x1FF

-- A result of 0 is success.
unfoldable pub vm_check_status : ℕ → ℕ → ℕ
vm_check_status entry flags =
    if not (has entry pt_present)
    then err_vm_unmapped
    else if has flags vm_allow_write && not (has entry pt_writable)
    then err_vm_privilege
    else if has flags vm_allow_user && not (has entry pt_user_accessible)
    then err_vm_privilege
    else 0

-- `if (test) entry |= flag`
abbrev pub or_if : Bool → ℕ → ℕ → ℕ
or_if test flag entry = if test then bit_or entry flag else entry

unfoldable pub vm_pt_entry_create : ℕ → ℕ → ℕ
vm_pt_entry_create phys_addr flags =
    let writable = or_if (has flags vm_allow_write) pt_writable pt_present in
    let user = or_if (has flags vm_allow_user) pt_user_accessible writable in
    let protected = or_if (not (has flags vm_allow_exec)) pt_no_execute user in
    let huge = or_if (has flags vm_hugepage) pt_hugepage protected in
    bit_or huge (bit_and phys_addr page_address_mask)

-- What `__map_phys_page` makes of an entry: the bits that are not reserved stay.
unfoldable pub mapped_entry : ℕ → ℕ → ℕ → ℕ
mapped_entry old phys_addr flags =
    bit_or (bit_and old mask_unreserved_bits) (vm_pt_entry_create phys_addr flags)

unfoldable pub data_alloc_flags : ℕ → ℕ → ℕ → ℕ
data_alloc_flags index_in_alloc alloc_size flags =
    let early = or_if (has flags vm_alloc_early) pt_data_early_alloc 0 in
    let behind = or_if (ltb 0 index_in_alloc) pt_data_page_behind early in
    or_if (ltb index_in_alloc (sub64 alloc_size 1)) pt_data_page_ahead behind
