-- ===== src/Vm/Zone/Blocks.antt =====
-- `vm_alloc_block` and `vm_free_block` of kernel/src/mm/vm.c: zones of blocks of one size. A free
-- block holds, in the entry of its first page, the way to the next free block.
use learning_os.Base.{
  ℕ, zero, suc, ◌+◌, ◌-◌, bit_and, bit_or, Option, none, some, ltb, leb, if◌then◌else◌, ◌>>=◌, Mem,
  store, get_elem?, set, u8, u64, not64, ◌<<<◌,
}
use learning_os.Math.{aligndown}
use learning_os.BootMmap.{page_order, page_size}
use learning_os.Vm.Entry.{
  kphys_addr, vm_pt_entry_create, next_free_entry, data_alloc_flags, pt_alloc_flags, pt_offset,
  pt_present, pt_offset_negative, err_vm_unmapped, entry_addr_mask,
}
use learning_os.Vm.Walk.{entry_at, find_pt_or_null}
use learning_os.Vm.Zone.{
  Zone, PhysicalMemory, Vm, alloc_phys_block, free_phys_block, find_or_allocate_pt,
  prepare_block_pt,
}

-- The loop of `vm_alloc_block`, over `rounds` pages from page `i` on, for the fewer than 256 rounds
-- that its counter, a byte, can end. It passes the base of the
-- page, cut down to a byte, where the size of the block is meant.
unfoldable pub fill_block : Mem → ℕ → ℕ → ℕ → ℕ → ℕ → ℕ → ℕ → Mem
fill_block m pt offset entry flags i zero block_base = m
fill_block m pt offset entry flags i (suc rounds) block_base =
    let new_entry =
      bit_or
        (bit_or (vm_pt_entry_create block_base flags) (data_alloc_flags i (u8 block_base) flags))
        (pt_alloc_flags entry) in
    fill_block (store m (entry_at pt (offset + i)) new_entry) pt offset entry flags (i + 1) rounds
      (u64 (block_base + page_size))

-- The last loop of `vm_free_block`, which clears the same entry in each of its rounds.
unfoldable pub clear_present : ℕ → ℕ → ℕ
clear_present zero entry = entry
clear_present (suc rounds) entry = clear_present rounds (bit_and entry (not64 pt_present))

-- The entry of a block that is freed, at `addr`, with `next_free_addr` as the next free one.
unfoldable pub freed_entry : ℕ → ℕ → ℕ → ℕ
freed_entry entry addr next_free_addr =
    let next_offset =
      if ltb addr next_free_addr then next_free_addr - addr else addr - next_free_addr in
    let linked = bit_or (bit_and entry (not64 entry_addr_mask)) next_offset in
    if ltb next_free_addr addr
    then bit_or linked pt_offset_negative
    else bit_and linked (not64 pt_offset_negative)

module _ {A : Type 0} (physical : PhysicalMemory A) (cr3 : ℕ) where
  -- The loop over a block of 256 pages or more does not end: `none`.
  unfoldable pub vm_alloc_block : ℕ → ℕ → Vm A → Option (ℕ × Vm A)
  vm_alloc_block flags vmzone s = do
    zone ← get_elem? s.zones vmzone
    let block_addr = zone.cursor_addr
    let offset = pt_offset block_addr
    (pt, allocated_pages, m, pool) ←
        find_or_allocate_pt physical (kphys_addr cr3) block_addr flags s.mem s.pool
    let prepared = if ltb 0 allocated_pages then prepare_block_pt m zone pt else m
    let entry = prepared (entry_at pt offset)
    let alloc_size = 1 <<< zone.block_order
    (block_base, pool') ← alloc_phys_block physical (u8 alloc_size) flags pool
    if leb 256 alloc_size
        then none
        else some (
          block_addr,
          record {
            mem = fill_block prepared pt offset entry flags 0 alloc_size block_base;
            pool = pool';
            zones =
                set s.zones vmzone (record zone { cursor_addr = next_free_entry entry block_addr });
          },
        )

  -- `vm_free_block` behind its walk, which has found a table or NULL.
  unfoldable pub free_block_in : Zone → ℕ → ℕ → Option ℕ → Vm A → Option (ℕ × Vm A)
  free_block_in zone vmzone addr none s = some (err_vm_unmapped, s)
  free_block_in zone vmzone addr (some pt) s = do
    let at = entry_at pt (pt_offset addr)
    let num_pages = u8 (1 <<< zone.block_order)
    pool' ← free_phys_block physical (s.mem at) num_pages s.pool
    some (
      0,
      record {
        mem =
            store s.mem at (clear_present num_pages (freed_entry (s.mem at) addr zone.cursor_addr));
        pool = pool';
        zones = set s.zones vmzone (record zone { cursor_addr = addr });
      },
    )

  unfoldable pub vm_free_block : ℕ → ℕ → Vm A → Option (ℕ × Vm A)
  vm_free_block addr vmzone s = do
    zone ← get_elem? s.zones vmzone
    let base = aligndown addr (zone.block_order + page_order)
    free_block_in zone vmzone base (find_pt_or_null s.mem (kphys_addr cr3) base) s
