-- ===== src/Page.antt =====
-- kernel/include/mm/page.h and kernel/src/mm/page.c: the page infos of the physical pages. A
-- pointer to a page info is its index in `global_page_map`, and NULL is `none`. Of the union in a
-- page info, `link` is the pointer that `freelist_info` and `buddy_alloc_info` begin with; the slab
-- header is not used here. The addresses of the linker script are arguments, as is the memory map.
pub mod References
pub mod Flags
use learning_os.Base.{
  ℕ, zero, suc, ◌+◌, ◌-◌, ◌*◌, Option, none, some, List, [], ◌∷◌, bit_and, bit_or, ◌==◌, ltb, leb,
  if◌then◌else◌, ◌>>=◌, length, ◌&&◌, Bool, u64, sub64, not64, u16, ◌<<<◌, ◌>>>◌, int_bit,
}
use learning_os.Atomic.{Operation, increment, retry_loop}
use learning_os.BootMmap.{MmapEntry, page_order, page_size, e820_usable_ram}

abbrev pub page_unusable : ℕ
page_unusable = 1

abbrev pub page_kernel : ℕ
page_kernel = int_bit 1

abbrev pub page_readonly : ℕ
page_readonly = int_bit 2

abbrev pub page_buddy : ℕ
page_buddy = int_bit 3

abbrev pub page_freelist : ℕ
page_freelist = int_bit 4

pub record PageInfo : Type 0 where
  pub flags : ℕ
  pub refcount : ℕ
  pub link : Option ℕ
  pub free_count : ℕ

-- `global_page_map`
abbrev pub PageMap : Type 0
PageMap = ℕ → PageInfo

abbrev pub cleared : PageInfo
cleared = record { flags = 0; refcount = 0; link = none; free_count = 0 }

unfoldable pub put_info : PageMap → ℕ → PageInfo → PageMap
put_info map page info i = if i == page then info else map i

-- `flags |= …` of one page
unfoldable pub or_flags : PageMap → ℕ → ℕ → PageMap
unfolding put_info
or_flags map page flags =
    let info = map page in put_info map page (record info { flags = bit_or info.flags flags })

abbrev pub page_info : ℕ → ℕ
page_info addr = addr >>> page_order

abbrev pub page_address_from_info : ℕ → ℕ
page_address_from_info page = u64 (page <<< page_order)

-- The first loop of `init_global_page_map`: the end of the last usable entry, or what `mem_end`
-- had before.
unfoldable pub memory_end : Option ℕ → List MmapEntry → Option ℕ
memory_end before [] = before
memory_end before (entry ∷ entries) =
    memory_end
      (if entry.kind == e820_usable_ram then some (u64 (entry.addr + entry.len)) else before)
      entries

-- `count` pages from `start` on are marked with PAGE_UNUSABLE and with nothing else.
unfoldable pub mark_unusable : ℕ → ℕ → PageMap → PageMap
unfolding put_info
mark_unusable zero start map = map
mark_unusable (suc count) start map =
    let map' = mark_unusable count start map in
    let info = map' (start + count) in
    put_info map' (start + count) (record info { flags = page_unusable })

-- The second loop, over the entries that are not usable.
unfoldable pub mark_holes : ℕ → List MmapEntry → PageMap → PageMap
mark_holes mem_end [] map = map
mark_holes mem_end (entry ∷ entries) map =
    let end_addr = if ltb entry.addr 0x100000 then 0x100000 else entry.addr in
    let num_pages = sub64 end_addr entry.addr >>> page_order in
    let marked = mark_unusable num_pages (entry.addr >>> page_order) map in
    let is_usable = entry.kind == e820_usable_ram in
    mark_holes mem_end entries
      (if is_usable then map else if ltb entry.addr mem_end then marked else map)

-- One round of the last loop: a page of the kernel, or of the page map behind it.
unfoldable pub mark_kernel_page : ℕ → ℕ → PageMap → ℕ → PageMap
mark_kernel_page rodata_start rodata_end map idx =
    let map' = or_flags (or_flags map idx page_kernel) idx page_unusable in
    let page_addr = u64 (idx <<< page_order) in
    if ltb rodata_start page_addr && ltb page_addr rodata_end
    then or_flags map' idx page_readonly
    else map'

-- The last loop, over the `count` pages from `idx` on.
unfoldable pub mark_kernel : ℕ → ℕ → ℕ → ℕ → PageMap → PageMap
mark_kernel rodata_start rodata_end zero idx map = map
mark_kernel rodata_start rodata_end (suc count) idx map =
    mark_kernel rodata_start rodata_end count (idx + 1)
      (mark_kernel_page rodata_start rodata_end map idx)

pub record LinkerSymbols : Type 0 where
  pub rodata_start : ℕ
  pub rodata_end : ℕ
  pub physical_start : ℕ
  pub physical_end : ℕ

pub record GlobalPageMap : Type 0 where
  pub pages : PageMap
  pub start_address : ℕ
  pub num_pages : ℕ
  pub last_kernel_page : ℕ

-- `init_global_page_map` behind its first loop. A page info takes `info_bytes` bytes and is aligned
-- to 8.
unfoldable pub map_pages : LinkerSymbols → ℕ → List MmapEntry → ℕ → GlobalPageMap
map_pages symbols info_bytes entries mem_end =
    let physmem_pages = mem_end >>> page_order in
    let gpm_size = u64 (physmem_pages * info_bytes) in
    let start = bit_and (u64 (symbols.physical_end + 8 - 1)) (not64 (8 - 1)) in
    let first = put_info (λ i. cleared) 0 (record cleared { flags = page_unusable }) in
    let holes = mark_holes mem_end entries first in
    let kernel_start_idx = symbols.physical_start >>> page_order in
    let gpm_end_idx = u64 (start + gpm_size + page_size - 1) >>> page_order in
    record {
      pages =
          mark_kernel symbols.rodata_start symbols.rodata_end (gpm_end_idx + 1 - kernel_start_idx)
            kernel_start_idx holes;
      start_address = start;
      num_pages = physmem_pages;
      last_kernel_page = u64 (gpm_end_idx <<< page_order);
    }

-- `mem_end` has no value where no entry of the memory map is usable, and the code then goes on with
-- an undefined one. For 256 entries or more the loops, whose counter is a byte, do not end: `none`
-- as well.
unfoldable pub init_global_page_map : LinkerSymbols → ℕ → List MmapEntry → Option GlobalPageMap
init_global_page_map symbols info_bytes entries =
    if leb 256 (length entries)
    then none
    else (memory_end none entries >>= λ mem_end.
        some (map_pages symbols info_bytes entries mem_end))

-- The increment of a counter that no other processor changes ends in two rounds.
abbrev pub increment_counter : ℕ → ℕ → Option (ℕ × ℕ)
increment_counter increment_by counter = retry_loop 2 (increment increment_by) counter counter

unfoldable pub reference_page : PageMap → ℕ → Option (ℕ × PageMap)
reference_page map page = do
  (new_count, counter) ← increment_counter 1 (map page).refcount
  some (new_count, put_info map page (record (map page) { refcount = counter }))

-- A page of a block of the buddy allocator is free: the count of the block's base goes down.
unfoldable pub drop_block_page : PageMap → Option ℕ → Option PageMap
drop_block_page map none = none
drop_block_page map (some base) = do
  (new_free_count, count) ← increment_counter 0xFFFF (map base).free_count
  some (put_info map base (record (map base) { free_count = count }))

-- The increment is -1. A base block that is NULL is a fault.
unfoldable pub drop_page_reference : PageMap → ℕ → Option (ℕ × PageMap)
drop_page_reference map page = do
  (new_ref_count, counter) ← increment_counter 0xFFFF (map page).refcount
  let map' = put_info map page (record (map page) { refcount = counter })
  if (new_ref_count == 0) && ltb 0 (bit_and (map' page).flags page_buddy)
      then (do map'' ← drop_block_page map' (map' page).link; some (new_ref_count, map''))
      else some (new_ref_count, map')
