-- ===== src/Kmalloc.antt =====
-- kernel/src/mm/kmalloc.c and kernel/include/mm/kmalloc.h: the kernel heap, a slab cache for each
-- of ten sizes. The map from sizes to caches is a function from its 255 indices. `kmalloc_init`
-- writes index 255 too, one byte behind the array: that write is not followed, and a read of it
-- gives `none`.
pub mod Sizes
use learning_os.Base.{
  ℕ, zero, suc, ◌+◌, ◌-◌, ◌*◌, ◌/◌, ◌<◌, Option, none, some, List, [], ◌∷◌, ltb, if◌then◌else◌,
  ◌>>=◌, Mem, store, ◌>>>◌, u16, get_elem?, set,
}
use learning_os.Slab.{
  Cache, Heap, slab_cache_init, slab_cache_reserve, slab_alloc, slab_free, cache_id_for_alloc,
}

abbrev pub max_kmalloc_size : ℕ
max_kmalloc_size = 2040

-- The places of the array `__cache_idx_map`
abbrev pub cache_idx_places : ℕ
cache_idx_places = 255

abbrev pub kmalloc_sizes : List ℕ
kmalloc_sizes = 8 ∷ 16 ∷ 24 ∷ 48 ∷ 96 ∷ 120 ∷ 240 ∷ 480 ∷ 1016 ∷ 2040 ∷ []

abbrev pub num_cache_sizes : ℕ
num_cache_sizes = 10

abbrev pub num_slabs_reserved : ℕ
num_slabs_reserved = 3

-- `VMZONE_KERNEL_SLAB` of kernel/include/mm/vmzone.h
abbrev pub vmzone_kernel_slab : ℕ
vmzone_kernel_slab = 3

-- The inner loop: `k` places from `j` on get cache `i`, those of them that the array has.
unfoldable pub map_range : Mem → ℕ → ℕ → ℕ → Mem
map_range cache_idx_map i j zero = cache_idx_map
map_range cache_idx_map i j (suc k) =
    let written = if ltb j cache_idx_places then store cache_idx_map j i else cache_idx_map in
    map_range written i (j + 1) k

unfoldable pub map_sizes : Mem → List ℕ → ℕ → ℕ → Mem
map_sizes cache_idx_map [] i prev_size_eights = cache_idx_map
map_sizes cache_idx_map (size ∷ sizes) i prev_size_eights =
    map_sizes (map_range cache_idx_map i (prev_size_eights + 1) (size / 8 - prev_size_eights)) sizes
      (i + 1) (size / 8)

pub record KernelHeap : Type 0 where
  pub cache_idx_map : Mem
  pub caches : List Cache
  pub heap : Heap

module _ (vm_alloc_block : Heap → ℕ × Heap) where
  unfoldable pub init_caches : List ℕ → ℕ → Heap → Option (List Cache × Heap)
  init_caches [] i heap = some ([], heap)
  init_caches (size ∷ sizes) i heap = do
    let cache = slab_cache_init size 8 i vmzone_kernel_slab
    (cache', heap1) ←
        slab_cache_reserve vm_alloc_block cache heap
          (u16 (cache.objs_per_slab * num_slabs_reserved))
    (caches, heap2) ← init_caches sizes (i + 1) heap1
    some (cache' ∷ caches, heap2)

  unfoldable pub kmalloc_init : Mem → Heap → Option KernelHeap
  kmalloc_init cache_idx_map heap = do
    (caches, heap') ← init_caches kmalloc_sizes 0 heap
    some (record {
      cache_idx_map = map_sizes cache_idx_map kmalloc_sizes 0 0;
      caches = caches;
      heap = heap';
    })

  -- The address is 0 for NULL. More than 2032 bytes lead behind the array.
  unfoldable pub kmalloc : KernelHeap → ℕ → Option (ℕ × KernelHeap)
  kmalloc k size = if ltb max_kmalloc_size size then some (0, k) else do
    let place = (size + 7) >>> 3
    let i = k.cache_idx_map place
    cache ← if ltb place cache_idx_places then get_elem? k.caches i else none
    (obj, cache', heap) ← slab_alloc vm_alloc_block cache k.heap
    some (obj, record k { caches = set k.caches i cache'; heap = heap })

unfoldable pub kfree : KernelHeap → ℕ → Option KernelHeap
kfree k ptr =
    let cache_idx = cache_id_for_alloc k.heap ptr in
    if ltb cache_idx num_cache_sizes
    then (do
      cache ← get_elem? k.caches cache_idx
      let (cache', heap) = slab_free cache k.heap ptr
      some (record k { caches = set k.caches cache_idx cache'; heap = heap }))
    else some k
