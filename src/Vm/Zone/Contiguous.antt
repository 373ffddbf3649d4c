-- ===== src/Vm/Zone/Contiguous.antt =====
-- `vmzone_extend` and `vmzone_shrink` of kernel/src/mm/vm.c: zones that grow at their end.
use learning_os.Base.{
  ℕ, zero, suc, ◌+◌, ◌-◌, bit_and, bit_or, Bool, true, false, not, ◌&&◌, Option, none, some, leb,
  ◌==◌, if◌then◌else◌, ◌>>=◌, Mem, store, get_elem?, set, u8, u64, sub64, not64,
}
use learning_os.BootMmap.{page_size}
use learning_os.Vm.Entry.{
  has, kphys_addr, data_alloc_flags, pt_offset, pt_present, pt_data_page_behind, err_vm_unmapped,
  err_vm_contiguous,
}
use learning_os.Vm.Walk.{entry_at, map_phys_page, find_pt_or_null}
use learning_os.Vm.Zone.{
  PhysicalMemory, Vm, vmzflag_contiguous, alloc_phys_block, free_phys_block, shrink_phys_block,
  find_or_allocate_pt,
}

-- Where the walk down of `vmzone_shrink` stands.
pub record Down (A : Type 0) : Type 0 where
  pub cursor : ℕ
  pub next_offset : ℕ
  pub block_size : ℕ
  pub mem : Mem
  pub pool : A

module _ {A : Type 0} (physical : PhysicalMemory A) (cr3 : ℕ) where
  -- The loop of `vmzone_extend`: `rounds` of the `pages` pages are left, and the result has the
  -- next cursor.
  unfoldable pub extend_loop : ℕ → ℕ → ℕ → ℕ → ℕ → ℕ → ℕ → Mem → A → Option (ℕ × Mem × A)
  extend_loop zero pages flags pt next_pt_offset phys_block cursor m pool = some (cursor, m, pool)
  extend_loop (suc rounds) pages flags pt next_pt_offset phys_block cursor m pool =
      let at = entry_at pt next_pt_offset in
      let marked = store m at (bit_or (m at) (data_alloc_flags (pages - suc rounds) pages flags)) in
      let mapped = map_phys_page marked pt next_pt_offset phys_block flags in
      let phys_block' = u64 (phys_block + page_size) in
      let cursor' = u64 (cursor + page_size) in
      let crossed = (do
        (pt', allocated, m', pool') ←
            find_or_allocate_pt physical (kphys_addr cr3) cursor' flags mapped pool
        extend_loop rounds pages flags pt' 0 phys_block' cursor' m' pool') in
      let onward =
        extend_loop rounds pages flags pt (next_pt_offset + 1) phys_block' cursor' mapped pool in
      if leb 512 (next_pt_offset + 1) then crossed else onward

  -- A zone that does not exist is a fault, and a result of 0 is NULL.
  unfoldable pub vmzone_extend : ℕ → ℕ → ℕ → Vm A → Option (ℕ × Vm A)
  vmzone_extend pages flags vmzone s = do
    zone ← get_elem? s.zones vmzone
    if not (has zone.flags vmzflag_contiguous) then some (0, s) else (do
      let cursor = zone.cursor_addr
      (pt, allocated, m, pool) ←
          find_or_allocate_pt physical (kphys_addr cr3) cursor flags s.mem s.pool
      (phys_block, pool') ← alloc_phys_block physical pages flags pool
      (cursor', m', pool'') ←
          extend_loop pages pages flags pt (pt_offset cursor) phys_block cursor m pool'
      some (
        cursor,
        record {
          mem = m';
          pool = pool'';
          zones = set s.zones vmzone (record zone { cursor_addr = cursor' });
        },
      ))

  -- The step of the cursor. At the first entry of a table the code looks for the table of the
  -- cursor, whose absence is an error, but the declaration of a second `pt` hides it: it goes on
  -- in the table where it started.
  unfoldable pub step_down : Down A → Bool → Option (Down A)
  step_down d crossing =
      let cursor' = sub64 d.cursor page_size in
      if crossing
      then (do
        other ← find_pt_or_null d.mem (kphys_addr cr3) cursor'
        some (record d { cursor = cursor'; next_offset = 511 }))
      else some (record d { cursor = cursor'; next_offset = sub64 d.next_offset 1 })

  -- One round of the first loop, up to the step of the cursor.
  unfoldable pub unmap_page : ℕ → Down A → Option (Down A)
  unmap_page pt d = do
    let at = entry_at pt d.next_offset
    let entry = bit_and (d.mem at) (not64 pt_present)
    let unmapped = store d.mem at entry
    let size = u8 (d.block_size + 1)
    if has entry pt_data_page_behind
        then some (record d { mem = unmapped; block_size = size })
        else (do
          pool' ← free_phys_block physical entry size d.pool
          some (record d { mem = unmapped; block_size = 0; pool = pool' }))

  -- The first loop. A pair of `false` and a state is the return with ERR_VM_UNMAPPED.
  unfoldable pub unmap_pages : ℕ → ℕ → Down A → Option (Bool × Down A)
  unmap_pages zero pt d = some (true, d)
  unmap_pages (suc rounds) pt d = do
    d' ← unmap_page pt d
    elim (step_down d' (d'.next_offset == 0)) [
      | none ↦ some (false, d')
      | some next ↦ unmap_pages rounds pt next
    ]

  -- The second loop, which measures the block that is cut: its size and its first entry. The
  -- fuel bounds the size of the block.
  unfoldable pub measure_block : ℕ → ℕ → ℕ → Down A → Option (Bool × ℕ × ℕ)
  measure_block zero pt actual_block_size d = none
  measure_block (suc fuel) pt actual_block_size d =
      let size = u8 (actual_block_size + 1) in
      let current_entry = d.mem (entry_at pt d.next_offset) in
      let behind = has current_entry pt_data_page_behind in
      elim (step_down d ((d.next_offset == 0) && behind)) [
        | none ↦ some (false, size, current_entry)
        | some next ↦ elim behind [
          | true ↦ measure_block fuel pt size next
          | false ↦ some (true, size, current_entry)
        ]
      ]

  -- What follows the first loop, with the zone's cursor already moved.
  unfoldable pub cut_block : ℕ → ℕ → Down A → Option (ℕ × A)
  cut_block fuel pt d = if d.block_size == 0 then some (0, d.pool) else (do
    (found, actual_block_size, current_entry) ← measure_block fuel pt d.block_size d
    if found
        then (do
          pool' ←
              shrink_phys_block physical current_entry actual_block_size
                (u8 (actual_block_size + 256 - d.block_size)) d.pool
          some (0, pool'))
        else some (err_vm_unmapped, d.pool))

  unfoldable pub vmzone_shrink : ℕ → ℕ → ℕ → Vm A → Option (ℕ × Vm A)
  vmzone_shrink fuel pages vmzone s = do
    zone ← get_elem? s.zones vmzone
    let cursor = sub64 zone.cursor_addr page_size
    if not (has zone.flags vmzflag_contiguous)
        then some (err_vm_contiguous, s)
        else elim (find_pt_or_null s.mem (kphys_addr cr3) cursor) [
          | none ↦ some (err_vm_unmapped, s)
          | some pt ↦ (do
            (complete, d) ← unmap_pages pages pt (record {
              cursor = cursor;
              next_offset = pt_offset cursor;
              block_size = 0;
              mem = s.mem;
              pool = s.pool;
            })
            let cursor' = u64 (d.cursor + page_size)
            let moved = set s.zones vmzone (record zone { cursor_addr = cursor' })
            if complete
                then (do
                  (error, pool') ← cut_block fuel pt d
                  some (error, record { mem = d.mem; pool = pool'; zones = moved }))
                else some (err_vm_unmapped, record s { mem = d.mem; pool = d.pool }))
        ]
