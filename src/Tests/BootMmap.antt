-- ===== src/Tests/BootMmap.antt =====
-- The theorems on kernel/src/mm/boot_mmap.c at two regions.
use learning_os.Base.{◌*◌, ◌≡◌, true, List, [], ◌∷◌, arith, refl}
use learning_os.BootMmap.{PhysmemRegion, page_size, reserve_physmem_region, is_block_usable}
use learning_os.BootMmap.Reserve.{AreRanges, Reservation, reserve_lem}
use learning_os.BootMmap.Usable.{Holds, usable_iff}

abbrev two_regions : List PhysmemRegion
two_regions =
    record { free_start = 0x1000; region_end = 0x3000 }
    ∷ record { free_start = 0x100000; region_end = 0x200000 }
    ∷ []

-- The first region is not larger than two pages, so that they come from the second.
second_region : (reserve_physmem_region two_regions 2).0 ≡ 0x100000
unfolding reserve_physmem_region
second_region = refl

reserve_example :
    Reservation two_regions (2 * page_size) (reserve_physmem_region two_regions 2)
    × AreRanges (reserve_physmem_region two_regions 2).1
reserve_example =
    reserve_lem two_regions 2 (omega arith, omega arith, (omega arith, omega arith, tt))
      (omega arith) (omega arith)

usable_example :
    (is_block_usable two_regions 0x1000 0x1000 ≡ true → Holds two_regions 0x1000 0x1000)
    × (Holds two_regions 0x1000 0x1000 → is_block_usable two_regions 0x1000 0x1000 ≡ true)
usable_example = usable_iff two_regions 0x1000 0x1000 (omega arith)
