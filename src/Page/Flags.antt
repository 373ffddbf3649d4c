-- ===== src/Page/Flags.antt =====
-- kernel/src/mm/page.c: the pages that `init_global_page_map` marks as unusable.
use learning_os.Base.{
  ℕ, zero, suc, ◌+◌, ◌-◌, ◌*◌, ◌/◌, ◌%◌, ◌≤◌, ◌<◌, none, some, List, [], ◌∷◌, ltb, leb, false,
  length, if◌then◌else◌, ◌≡◌, ◌≢◌, refl, arith, bit_and, u64, sub64, not64, ◌⊎◌, inl, inr, ◌>>>◌,
}
use learning_os.Base.Bits.{bit_or_step}
use learning_os.BootMmap.{MmapEntry, page_order, e820_usable_ram}
use learning_os.Page.{
  PageMap, put_info, cleared, or_flags, page_unusable, page_kernel, page_readonly, memory_end,
  mark_unusable, mark_holes, mark_kernel_page, mark_kernel, LinkerSymbols, GlobalPageMap,
  init_global_page_map, map_pages,
}

-- PAGE_UNUSABLE is on.
abbrev pub Unusable : PageMap → ℕ → Type 0
Unusable map x = (map x).flags % 2 ≡ 1

Unusable-or_flags :
    (map : PageMap) (page flags x : ℕ)
    → Unusable map x ⊎ ((x ≡ page) × (flags % 2 ≡ 1))
    → Unusable (or_flags map page flags) x
unfolding or_flags put_info
Unusable-or_flags map page flags x h = ground (arith, bit_or_step (map page).flags flags)

Unusable-mark_unusable :
    (count start x : ℕ) (map : PageMap)
    → Unusable map x ⊎ ((start ≤ x) × (x < start + count))
    → Unusable (mark_unusable count start map) x
unfolding mark_unusable put_info
Unusable-mark_unusable zero start x map h = ground arith
Unusable-mark_unusable (suc count) start x map h =
    ground (arith, Unusable-mark_unusable count start x map)

-- The bytes of the page lie below 1 MB, and not in front of the start of an entry of the memory map
-- that is not usable. The entry starts at a whole page, in front of the end of memory.
abbrev pub InHole : ℕ → List MmapEntry → ℕ → Type 0
InHole mem_end [] x = ⊥
InHole mem_end (entry ∷ entries) x =
    ((entry.kind ≢ e820_usable_ram)
      × (entry.addr < mem_end)
      × (entry.addr % 4096 ≡ 0)
      × (entry.addr ≤ x * 4096)
      × ((x + 1) * 4096 ≤ 0x100000))
    ⊎ InHole mem_end entries x

Unusable-mark_holes :
    (mem_end x : ℕ) (entries : List MmapEntry) (map : PageMap)
    → Unusable map x ⊎ InHole mem_end entries x
    → Unusable (mark_holes mem_end entries map) x
unfolding mark_holes
Unusable-mark_holes mem_end x [] map h = ground arith
Unusable-mark_holes mem_end x (entry ∷ entries) map h =
    let end_addr = if ltb entry.addr 0x100000 then 0x100000 else entry.addr in
    let num_pages = sub64 end_addr entry.addr >>> page_order in
    let marked = mark_unusable num_pages (entry.addr >>> page_order) map in
    ground (
      arith,
      Unusable-mark_unusable num_pages (entry.addr >>> page_order) x map,
      Unusable-mark_holes mem_end x entries map,
      Unusable-mark_holes mem_end x entries marked,
    )

Unusable-mark_kernel_page :
    (ro_start ro_end idx x : ℕ) (map : PageMap)
    → Unusable map x ⊎ (x ≡ idx)
    → Unusable (mark_kernel_page ro_start ro_end map idx) x
unfolding mark_kernel_page
Unusable-mark_kernel_page ro_start ro_end idx x map h =
    let kernel = or_flags map idx page_kernel in
    let both = or_flags kernel idx page_unusable in
    ground (
      arith,
      Unusable-or_flags map idx page_kernel x,
      Unusable-or_flags kernel idx page_unusable x,
      Unusable-or_flags both idx page_readonly x,
    )

Unusable-mark_kernel :
    (ro_start ro_end count idx x : ℕ) (map : PageMap)
    → Unusable map x ⊎ ((idx ≤ x) × (x < idx + count))
    → Unusable (mark_kernel ro_start ro_end count idx map) x
unfolding mark_kernel
Unusable-mark_kernel ro_start ro_end zero idx x map h = ground arith
Unusable-mark_kernel ro_start ro_end (suc count) idx x map h = ground (
  arith,
  Unusable-mark_kernel_page ro_start ro_end idx x map,
  Unusable-mark_kernel ro_start ro_end count (idx + 1) x (mark_kernel_page ro_start ro_end map idx),
)

marked_pages :
    (symbols : LinkerSymbols) (entries : List MmapEntry) (mem_end x top : ℕ)
    → (x ≡ 0) ⊎ ((symbols.physical_start / 4096 ≤ x) × (x ≤ top)) ⊎ InHole mem_end entries x
    → let first = put_info (λ i. cleared) 0 (record cleared { flags = page_unusable }) in
      let idx = symbols.physical_start / 4096 in
      Unusable
        (mark_kernel symbols.rodata_start symbols.rodata_end
          (top + 1 - idx)
          idx
          (mark_holes mem_end entries first))
        x
unfolding put_info
marked_pages symbols entries mem_end x top h =
    let first = put_info (λ i. cleared) 0 (record cleared { flags = page_unusable }) in
    let holes = mark_holes mem_end entries first in
    let idx = symbols.physical_start / 4096 in
    ground (
      arith,
      Unusable-mark_holes mem_end x entries first,
      Unusable-mark_kernel symbols.rodata_start symbols.rodata_end (top + 1 - idx) idx x holes,
    )

-- `init_global_page_map` where the memory map has a usable entry and fewer than 256 entries
-- returns, and marks as unusable page 0, each page from the kernel's first one to the last one of
-- the page map behind the kernel, and each page that lies between the start of an entry that is not
-- usable and 1 MB, where the entry starts at a whole page and in front of the end of memory.
pub init-Unusable :
    (symbols : LinkerSymbols) (info_bytes : ℕ) (entries : List MmapEntry) (mem_end x : ℕ)
    → memory_end none entries ≡ some mem_end
    → length entries < 256
    → (x ≡ 0)
      ⊎ ((symbols.physical_start / 4096 ≤ x)
          × (x * 4096 ≤ (map_pages symbols info_bytes entries mem_end).last_kernel_page))
      ⊎ InHole mem_end entries x
    → (m : GlobalPageMap) × (init_global_page_map symbols info_bytes entries ≡ some m)
      × Unusable m.pages x
unfolding init_global_page_map map_pages
init-Unusable symbols info_bytes entries mem_end x h few marked =
    let ends : leb 256 (length entries) ≡ false = ground arith in
    let start = bit_and (u64 (symbols.physical_end + 8 - 1)) (not64 (8 - 1)) in
    let bytes = u64 (mem_end / 4096 * info_bytes) in
    let top = u64 (start + bytes + 4096 - 1) / 4096 in
    (
      map_pages symbols info_bytes entries mem_end,
      rw (ends, h) refl,
      marked_pages symbols entries mem_end x top (elim marked [
        | inl zeroth ↦ inl zeroth
        | inr (inl (above, below)) ↦ inr (inl (above, omega arith))
        | inr (inr hole) ↦ inr (inr hole)
      ]),
    )
