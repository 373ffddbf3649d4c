-- ===== src/Tests/Vm.antt =====
-- The theorems on kernel/src/mm/vm.c at concrete page tables.
use learning_os.Base.{
  ℕ, suc, ◌+◌, ◌-◌, ◌*◌, ◌%◌, ◌^◌, ◌<◌, ◌≤◌, ◌≡◌, ◌⊎◌, ◌↔◌, inl, refl, some, [], ◌∷◌, ◌==◌, ◌&&◌,
  ◌||◌, not, true, if◌then◌else◌, Mem, arith, u64, store,
}
use learning_os.Math.{aligndown}
use learning_os.Vm.Entry.{
  has, kphys_addr, phys_addr_for_entry, kphys_addr_for_entry, mapped_entry, vm_check_status,
  pt_offset, vm_write_guard, vm_allow_write, vm_allow_user, err_vm_privilege,
}
use learning_os.Vm.Fields.{address_field, mapped_status}
use learning_os.Vm.Boundary.{boundary_iff}
use learning_os.Vm.Walk.{
  entry_at, check_vm_region_boundary, traverse, traverse_with_status, find_from, find_pt_or_null,
  vm_map_pages,
}
use learning_os.Vm.Mapped.{translate, Outside, with_guard, map_pages_lem, map_pages_unmapped}
use learning_os.Vm.Zone.{Zone, PhysicalMemory, Vm, alloc_phys_block, free_phys_block}
use learning_os.Vm.Zone.Blocks.{vm_alloc_block, vm_free_block}
use learning_os.Vm.Zone.Reuse.{alloc-free, block_base, block_pages, freed_state}

mapped_status_example : vm_check_status (mapped_entry 0x8000000000000E00 0x5000 1) 4 ≡ (
    if (has 4 vm_allow_write && not (has 1 vm_allow_write))
      || (has 4 vm_allow_user && not (has 1 vm_allow_user))
    then err_vm_privilege
    else 0)
mapped_status_example = mapped_status 0x8000000000000E00 0x5000 1 4

-- 512 pages that fill the 2 MB of a page table are refused.
boundary_example : (check_vm_region_boundary 0xFFFFFF8000000000 512 1 ≡ 0) ↔ (
    0xFFFFFF8000000000 % 2 ^ 21 + (if has 1 vm_write_guard then 512 + 1 else 512) * 4096 < 2 ^ 21)
boundary_example = boundary_iff 0xFFFFFF8000000000 512 1 (omega arith) (omega arith)

-- The tables at 0x1000 to 0x4000 lead to the first 2 MB of the kernel's sensitive memory.
abbrev tables : Mem
tables a =
    if a == entry_at (kphys_addr 0x1000) 511
    then 0x2003
    else if a == kphys_addr 0x2000
    then 0x3003
    else if a == kphys_addr 0x3000
    then 0x4003
    else 0

abbrev base : ℕ
base = 0xFFFFFF8000003000

walk_here :
    traverse tables (kphys_addr 0x1000) base 9
    ≡ record { table = kphys_addr 0x4000; depth = 0; error = 0 }
unfolding traverse traverse_with_status vm_check_status kphys_addr_for_entry
walk_here = refl

tables-Outside : Outside tables base (kphys_addr 0x4000) 3 39 (kphys_addr 0x1000)
unfolding kphys_addr_for_entry
tables-Outside = (inl (omega arith), (inl (omega arith), (inl (omega arith), tt)))

check_here : check_vm_region_boundary base 4 9 ≡ 0
unfolding check_vm_region_boundary
check_here = refl

map_pages_example :
    ((vm_map_pages tables 0x1000 0x800000 4 base 9).0 ≡ 0)
    × ((i : ℕ)
        → i < 4
        → translate
            (vm_map_pages tables 0x1000 0x800000 4 base 9).1
            (kphys_addr 0x1000)
            (base + i * 4096)
          ≡ some (0x800000 + i * 4096))
    × (has 9 vm_write_guard ≡ true
        → vm_check_status
            ((vm_map_pages tables 0x1000 0x800000 4 base 9).1
              (entry_at (kphys_addr 0x4000) (pt_offset base + 4)))
            vm_allow_write
          ≡ err_vm_privilege)
    × ((a : ℕ)
        → (a + 8 ≤ entry_at (kphys_addr 0x4000) (pt_offset base))
          ⊎ (entry_at (kphys_addr 0x4000) (pt_offset base + with_guard 9 4) ≤ a)
        → (vm_map_pages tables 0x1000 0x800000 4 base 9).1 a ≡ tables a)
map_pages_example =
    map_pages_lem tables 0x1000 0x800000 base 9 4 (kphys_addr 0x4000) (omega arith) (omega arith)
      refl (omega arith) check_here walk_here tables-Outside

-- No table of the lower half is there.
unmapped_walk :
    traverse tables (kphys_addr 0x1000) 0x400000 9
    ≡ record { table = kphys_addr 0x1000; depth = suc 2; error = 1 }
unfolding traverse traverse_with_status vm_check_status kphys_addr_for_entry
unmapped_walk = refl

unmapped_check : check_vm_region_boundary 0x400000 2 9 ≡ 0
unfolding check_vm_region_boundary
unmapped_check = refl

map_pages_unmapped_example :
    ((vm_map_pages tables 0x1000 0x800000 2 0x400000 9).0 ≡ 0)
    × ((i : ℕ)
        → i < 2
        → phys_addr_for_entry (
            (vm_map_pages tables 0x1000 0x800000 2 0x400000 9).1
              (entry_at (kphys_addr 0x1000) (pt_offset 0x400000 + i)))
          ≡ address_field (u64 (0x800000 + i * 4096)))
map_pages_unmapped_example =
    map_pages_unmapped tables 0x1000 0x800000 0x400000 9 2 (kphys_addr 0x1000) 2 1 unmapped_check
      unmapped_walk

-- Frames are counted, and each is given out at 16 MB.
abbrev frames : PhysicalMemory ℕ
frames = record {
  reserve_physmem_region = λ pages count. some (0x1000000, count + pages);
  phys_alloc = λ pages count. some (0x1000000, count + pages);
  phys_free = λ address pages count. some (count - pages);
  phys_block_shrink = λ address pages target count. some (count - pages + target);
}

abbrev zone : Zone
zone = record {
  start_address = 0xFFFFFF8000000000;
  end_address = 0xFFFFFF8200000000;
  cursor_addr = 0xFFFFFF8000006000;
  vm_flags = 1;
  block_order = 1;
  flags = 2;
}

abbrev state : Vm ℕ
state = record { mem = tables; pool = 2; zones = zone ∷ [] }

-- The first page of the block is freed, or the second: both stand for the block.
abbrev second_page : ℕ
second_page = 0xFFFFFF8000003000

abbrev after : Vm ℕ
after =
    freed_state frames 0x1000 state 0 zone refl (block_base zone second_page) (kphys_addr 0x4000) 0

found_here :
    find_pt_or_null tables (kphys_addr 0x1000) (block_base zone second_page)
    ≡ some (kphys_addr 0x4000)
unfolding find_pt_or_null find_from kphys_addr_for_entry aligndown
found_here = refl

freed_here :
    free_phys_block frames
      (tables (entry_at (kphys_addr 0x4000) (pt_offset (block_base zone second_page))))
      (block_pages zone)
      2
    ≡ some 0
unfolding free_phys_block aligndown
freed_here = refl

walk_behind :
    traverse after.mem (kphys_addr 0x1000) (block_base zone second_page) 1
    ≡ record { table = kphys_addr 0x4000; depth = 0; error = 0 }
unfolding traverse traverse_with_status vm_check_status kphys_addr_for_entry aligndown store
walk_behind = refl

taken_here : alloc_phys_block frames (block_pages zone) 1 0 ≡ some (0x1000000, 2)
unfolding alloc_phys_block
taken_here = refl

near_here :
    (zone.cursor_addr < block_base zone second_page + 2 ^ 52)
    × (block_base zone second_page < zone.cursor_addr + 2 ^ 52)
unfolding aligndown
near_here = (omega arith, omega arith)

alloc-free_example :
    (s1 : Vm ℕ) × (s2 : Vm ℕ) × (vm_free_block frames 0x1000 second_page 0 state ≡ some (0, s1))
    × (vm_alloc_block frames 0x1000 1 0 s1 ≡ some (block_base zone second_page, s2))
    × (s2.zones ≡ state.zones)
alloc-free_example =
    alloc-free frames 0x1000 state 0 zone refl second_page 1 (kphys_addr 0x4000) 0x1000000 0 2
      (omega arith) (omega arith) (omega arith) refl near_here.0 near_here.1 found_here freed_here
      walk_behind taken_here
