-- ===== src/Tests/Slab.antt =====
-- The theorems on kernel/src/mm/slab.c and kernel/src/mm/kmalloc.c at a cache of 24 bytes to an
-- object, with two partial slabs and a full one.
use learning_os.Base.{
  ℕ, ◌+◌, ◌-◌, ◌*◌, ◌^◌, ◌<◌, ◌≤◌, ◌≡◌, refl, [], ◌∷◌, ◌==◌, if◌then◌else◌, some, arith, u32, ◌>>>◌,
}
use learning_os.Slab.{
  Cache, Heap, cell_at, slab_cache_init, unlink_slab, take_cell, slab_alloc, slab_free,
}
use learning_os.Slab.Links.{Apart, IsChain}
use learning_os.Slab.Unlink.{unlink_lem}
use learning_os.Slab.Cells.{IsSized, HasFree, take_cell_lem}
use learning_os.Slab.Alloc.{HasSlabs, partials_after, fulls_after, slab_alloc_lem}
use learning_os.Slab.Free.{slab_free_lem}
use learning_os.Kmalloc.{cache_idx_places}
use learning_os.Kmalloc.Sizes.{final_map, size_of_cache, size_below, smallest_cache}

abbrev objects : Cache
objects = record {
  align_padding = 0;
  obj_size = 24;
  obj_cell_size = 24;
  total_free_slabs = 0;
  total_partial_slabs = 0;
  total_full_slabs = 0;
  allocated_objects = 0;
  total_free_objects = 0;
  objs_per_slab = 340;
  cache_id = 2;
  vmzone = 3;
  slab_overhead = 32;
  free_slabs = 0;
  partial_slabs = 0;
  full_slabs = 0;
}

objects_eq : slab_cache_init 24 8 2 3 ≡ objects
unfolding slab_cache_init
objects_eq = refl

abbrev in_use : Cache
in_use = record objects { partial_slabs = 0x10000; full_slabs = 0x30000 }

-- Cells 2 and 5 of the first partial slab are free.
abbrev heap : Heap
heap = record {
  prev = λ a. if a == 0x20000 then 0x10000 else 0;
  next = λ a. if a == 0x10000 then 0x20000 else 0;
  first_free_idx = λ a. if a == 0x10000 then 2 else 0;
  free_count = λ a. if a == 0x10000 then 2 else 0;
  header_cache_id = λ a. 2;
  next_free = λ a. if a == 0x10000 + 24 + 2 * 24 then 0x10000 + 24 + 5 * 24 else 0;
}

sized : IsSized in_use
sized = (omega arith, omega arith, omega arith)

partials-IsChain : IsChain heap 0x10000 (0x10000 ∷ 0x20000 ∷ [])
partials-IsChain = (
  (refl, (λ e. omega (arith, e)), refl, (refl, (λ e. omega (arith, e)), refl, refl)),
  (((λ e. omega (arith, e)), tt), (tt, tt)),
)

fulls-IsChain : IsChain heap 0x30000 (0x30000 ∷ [])
fulls-IsChain = ((refl, (λ e. omega (arith, e)), refl, refl), (tt, tt))

two_free : HasFree in_use heap 0x10000 (2 ∷ 5 ∷ [])
two_free = record {
  counted = refl;
  first = (refl, (refl, refl));
  inside = (omega arith, (omega arith, tt));
  distinct = (((λ e. omega (arith, e)), tt), (tt, tt));
}

slabs : HasSlabs in_use heap (0x10000 ∷ 0x20000 ∷ []) (0x30000 ∷ [])
slabs = record {
  partial = partials-IsChain;
  full = fulls-IsChain;
  disjoint = (((λ e. omega (arith, e)), tt), (((λ e. omega (arith, e)), tt), tt));
}

-- The pages of a new slab are at a fixed address.
abbrev maps_slab : Heap → ℕ × Heap
maps_slab h = (0x40000, h)

slab_alloc_example :
    (cache' : Cache) × (heap' : Heap) × (slab_alloc maps_slab in_use heap
      ≡ some (cell_at in_use 0x10000 2, cache', heap'))
    × HasFree in_use heap' 0x10000 (5 ∷ [])
    × HasSlabs cache' heap'
        (partials_after 0x10000 (5 ∷ []) (0x20000 ∷ []))
        (fulls_after 0x10000 (5 ∷ []) (0x30000 ∷ []))
    × (cache'.allocated_objects ≡ u32 (in_use.allocated_objects + 1))
    × (cache'.total_free_objects ≡ u32 (in_use.total_free_objects + 2 ^ 32 - 1))
slab_alloc_example =
    slab_alloc_lem maps_slab in_use heap 0x10000 2 (5 ∷ []) (0x20000 ∷ []) (0x30000 ∷ []) sized
      (omega arith) slabs two_free

unlink_example :
    IsChain (unlink_slab heap 0x20000 0x10000).0 (unlink_slab heap 0x20000 0x10000).1 (0x10000 ∷ [])
unlink_example = unlink_lem heap 0x20000 0x10000 (0x10000 ∷ []) [] partials-IsChain

take_cell_example :
    ((take_cell in_use heap 0x10000).0 ≡ cell_at in_use 0x10000 2)
    × HasFree in_use (take_cell in_use heap 0x10000).1 0x10000 (5 ∷ [])
take_cell_example = take_cell_lem in_use heap 0x10000 2 (5 ∷ []) sized (omega arith) two_free

seven_used : Apart 7 (2 ∷ 5 ∷ [])
seven_used = ((λ e. omega (arith, e)), ((λ e. omega (arith, e)), tt))

smallest_cache_example :
    ((100 + 7) >>> 3 < cache_idx_places)
    × (100 ≤ size_of_cache (final_map ((100 + 7) >>> 3)))
    × (size_below (final_map ((100 + 7) >>> 3)) < 100)
smallest_cache_example = smallest_cache 100 (omega arith) (omega arith)

none_free : HasFree in_use heap 0x30000 []
none_free = record { counted = refl; first = tt; inside = tt; distinct = tt }

slab_free_example :
    let (cache', heap') = slab_free in_use heap (cell_at in_use 0x30000 9) in
    HasFree in_use heap' 0x30000 (9 ∷ [])
    × HasSlabs cache' heap' (0x30000 ∷ 0x10000 ∷ 0x20000 ∷ []) []
    × (cache'.allocated_objects ≡ u32 (in_use.allocated_objects + 2 ^ 32 - 1))
    × (cache'.total_free_objects ≡ u32 (in_use.total_free_objects + 1))
slab_free_example =
    slab_free_lem in_use heap 0x30000 9 (0x10000 ∷ 0x20000 ∷ []) [] [] sized
      (omega arith, omega arith, refl, omega arith) (omega arith) (λ e. omega (arith, e)) slabs
      none_free
