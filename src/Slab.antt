-- ===== src/Slab.antt =====
-- kernel/src/mm/slab.c and kernel/include/mm/slab.h: caches of objects of one size. A slab is two
-- pages: a header, and cells for the objects. The heap keeps each field of the headers, and the
-- pointer that a free object starts with, as a function from addresses; this takes the cells to be
-- of 8 bytes or more, so that no two pointers overlap, and `slab_init` gives `none` for smaller
-- ones. Address 0 is NULL. A result `none` is an
-- access that C leaves undefined. `vm_alloc_block`, which maps the pages of a new slab, is an
-- argument.
pub mod Cells
pub mod Init
pub mod Frame
pub mod Free
pub mod Alloc
pub mod Links
pub mod Unlink
use learning_os.Base.{
  ℕ, zero, suc, ◌+◌, ◌-◌, ◌*◌, ◌/◌, ◌%◌, ◌^◌, bit_and, Bool, true, false, Option, none, some, ltb,
  ◌==◌, if◌then◌else◌, ◌>>=◌, Mem, store, u8, u16, u32, not32, sub64,
}
use learning_os.Math.{aligndown}

abbrev pub slab_order : ℕ
slab_order = 1

-- `sizeof(slab_header_t)` and `sizeof(slab_t)`
abbrev pub header_bytes : ℕ
header_bytes = 24

abbrev pub slab_bytes : ℕ
slab_bytes = 8192

-- The fields of the headers by the address of the slab, and `next_free` by that of the object
pub record Heap : Type 0 where
  pub prev : Mem
  pub next : Mem
  pub first_free_idx : Mem
  pub free_count : Mem
  pub header_cache_id : Mem
  pub next_free : Mem

-- `kmem_cache_t`
pub record Cache : Type 0 where
  pub align_padding : ℕ
  pub obj_size : ℕ
  pub obj_cell_size : ℕ
  pub total_free_slabs : ℕ
  pub total_partial_slabs : ℕ
  pub total_full_slabs : ℕ
  pub allocated_objects : ℕ
  pub total_free_objects : ℕ
  pub objs_per_slab : ℕ
  pub cache_id : ℕ
  pub vmzone : ℕ
  pub slab_overhead : ℕ
  pub free_slabs : ℕ
  pub partial_slabs : ℕ
  pub full_slabs : ℕ

-- The result is the heap and the new head of the list.
unfoldable pub unlink_slab : Heap → ℕ → ℕ → Heap × ℕ
unlink_slab heap slab head =
    let first = heap.prev slab == 0 in
    let heap1 =
      if first
      then heap
      else record heap { next = store heap.next (heap.prev slab) (heap.next slab) } in
    let head1 = if first then heap.next slab else head in
    let heap2 =
      if heap1.next slab == 0
      then heap1
      else record heap1 { prev = store heap1.prev (heap1.next slab) (heap1.prev slab) } in
    (heap2, head1)

unfoldable pub link_slab : Heap → ℕ → ℕ → Heap × ℕ
link_slab heap slab head =
    let heap1 = record heap { next = store heap.next slab head; prev = store heap.prev slab 0 } in
    let heap2 = if head == 0 then heap1 else record heap1 { prev = store heap1.prev head slab } in
    (heap2, slab)

unfoldable pub slab_cache_init : ℕ → ℕ → ℕ → ℕ → Cache
slab_cache_init obj_size obj_align cache_id vmzone =
    let cell = u16 (bit_and (obj_size + obj_align - 1) (not32 (obj_align - 1))) in
    let objs = u16 ((slab_bytes - header_bytes) / cell) in
    record {
      align_padding = u16 (cell + 2 ^ 16 - obj_size);
      obj_size = obj_size;
      obj_cell_size = cell;
      total_free_slabs = 0;
      total_partial_slabs = 0;
      total_full_slabs = 0;
      allocated_objects = 0;
      total_free_objects = 0;
      objs_per_slab = objs;
      cache_id = cache_id;
      vmzone = vmzone;
      slab_overhead = u16 (slab_bytes - objs * cell);
      free_slabs = 0;
      partial_slabs = 0;
      full_slabs = 0;
    }

abbrev pub slab_data : ℕ → ℕ
slab_data slab = slab + header_bytes

abbrev pub cell_at : Cache → ℕ → ℕ → ℕ
cell_at cache slab i = slab_data slab + i * cache.obj_cell_size

-- The index of an object, as the difference of two pointers: it is signed, and the division
-- rounds to 0.
unfoldable pub index_of : Cache → ℕ → ℕ → ℕ
index_of cache slab ptr =
    let difference = sub64 ptr (slab_data slab) in
    if ltb difference (2 ^ 63)
    then u16 (difference / cache.obj_cell_size)
    else u16 (2 ^ 64 - (2 ^ 64 - difference) / cache.obj_cell_size)

-- The loop of `__slab_init`: `k` objects from `obj` on point to the next.
unfoldable pub init_cells : Mem → ℕ → ℕ → ℕ → Mem
init_cells next_free obj cell zero = next_free
init_cells next_free obj cell (suc k) =
    init_cells (store next_free obj (obj + cell)) (obj + cell) cell k

-- With fewer than two objects in a slab the code writes through an uninitialised pointer, and in
-- cells of fewer than 8 bytes the pointers overlap: `none`.
unfoldable pub slab_init : Cache → Heap → ℕ → Option Heap
slab_init cache heap slab =
    let links = cache.objs_per_slab - 1 in
    let next_free = init_cells heap.next_free (slab_data slab) cache.obj_cell_size links in
    if ltb cache.obj_cell_size 8
    then none
    else if ltb cache.objs_per_slab 2
    then none
    else some (record heap {
      first_free_idx = store heap.first_free_idx slab 0;
      free_count = store heap.free_count slab cache.objs_per_slab;
      header_cache_id = store heap.header_cache_id slab cache.cache_id;
      next_free = store next_free (cell_at cache slab links) 0;
    })

-- `slab_alloc` from the choice of the slab on, up to the test for a full slab
unfoldable pub take_cell : Cache → Heap → ℕ → ℕ × Heap
take_cell cache heap slab =
    let obj = cell_at cache slab (heap.first_free_idx slab) in
    (
      obj,
      record heap {
        first_free_idx = store heap.first_free_idx slab (index_of cache slab (heap.next_free obj));
        free_count = store heap.free_count slab (u16 (heap.free_count slab + 2 ^ 16 - 1));
      },
    )

-- `slab_free` up to the count: the object, of a cell of 8 bytes or more, becomes the first free one
-- of the slab.
unfoldable pub put_cell : Cache → Heap → ℕ → ℕ → Heap
put_cell cache heap slab ptr =
    let next =
      if heap.free_count slab == 0 then 0 else cell_at cache slab (heap.first_free_idx slab) in
    record heap {
      next_free = store heap.next_free ptr next;
      first_free_idx = store heap.first_free_idx slab (index_of cache slab ptr);
      free_count = store heap.free_count slab (u16 (heap.free_count slab + 1));
    }

unfoldable pub slab_cache_prealloc : Cache → Heap → ℕ → ℕ → Option (Cache × Heap)
slab_cache_prealloc cache heap pages zero = some (cache, heap)
slab_cache_prealloc cache heap pages (suc k) = do
  heap1 ← slab_init cache heap pages
  let (heap2, head) = link_slab heap1 pages cache.free_slabs
  let objects = u32 (cache.total_free_objects + cache.objs_per_slab)
  slab_cache_prealloc (record cache { free_slabs = head; total_free_objects = objects }) heap2
      (pages + slab_bytes) k

module _ (vm_alloc_block : Heap → ℕ × Heap) where
  unfoldable pub slab_create : Cache → Heap → Option (ℕ × Heap)
  slab_create cache heap = do
    let (slab, heap1) = vm_alloc_block heap
    heap2 ← slab_init cache heap1 slab
    some (slab, heap2)

  unfoldable pub reserve_slabs : ℕ → Cache → Heap → Option (Cache × Heap)
  reserve_slabs zero cache heap = some (cache, heap)
  reserve_slabs (suc k) cache heap = do
    (slab, heap1) ← slab_create cache heap
    let (heap2, head) = link_slab heap1 slab cache.free_slabs
    let objects = u32 (cache.total_free_objects + cache.objs_per_slab)
    reserve_slabs k (record cache { free_slabs = head; total_free_objects = objects }) heap2

  unfoldable pub slab_cache_reserve : Cache → Heap → ℕ → Option (Cache × Heap)
  slab_cache_reserve cache heap num_objects = do
    let num_slabs = u16 ((num_objects + cache.objs_per_slab - 1) / cache.objs_per_slab)
    (cache1, heap1) ← reserve_slabs num_slabs cache heap
    some (record cache1 { total_free_slabs = u16 (cache1.total_free_slabs + num_slabs) }, heap1)

  -- The slab that `slab_alloc` takes the object from, at the head of the partial slabs.
  unfoldable pub choose_slab : Cache → Heap → Option (ℕ × Cache × Heap)
  choose_slab cache heap =
      let unlinked = unlink_slab heap cache.free_slabs cache.free_slabs in
      let linked = link_slab unlinked.0 cache.free_slabs cache.partial_slabs in
      let partials = u16 (cache.total_partial_slabs + 1) in
      let alone : Heap → ℕ → Heap =
        λ h slab. record h { prev = store h.prev slab 0; next = store h.next slab 0 } in
      let created : Option (ℕ × Cache × Heap) = (do
        (slab, heap1) ← slab_create cache heap
        some (
          slab,
          record cache { partial_slabs = slab; total_partial_slabs = partials },
          alone heap1 slab,
        )) in
      let moved : ℕ × Cache × Heap = (
        cache.free_slabs,
        record cache {
          free_slabs = unlinked.1;
          partial_slabs = linked.1;
          total_free_slabs = u16 (cache.total_free_slabs + 2 ^ 16 - 1);
          total_partial_slabs = partials;
        },
        alone linked.0 cache.free_slabs,
      ) in
      if cache.partial_slabs == 0
      then (if cache.free_slabs == 0 then created else some moved)
      else some (cache.partial_slabs, cache, heap)

  unfoldable pub slab_alloc : Cache → Heap → Option (ℕ × Cache × Heap)
  slab_alloc cache heap = do
    (slab, cache1, heap1) ← choose_slab cache heap
    let (obj, heap2) = take_cell cache1 heap1 slab
    let unlinked = unlink_slab heap2 slab cache1.partial_slabs
    let linked = link_slab unlinked.0 slab cache1.full_slabs
    let full = heap2.free_count slab == 0
    let cache2 =
        if full
        then record cache1 {
          partial_slabs = unlinked.1;
          full_slabs = linked.1;
          total_partial_slabs = u16 (cache1.total_partial_slabs + 2 ^ 16 - 1);
          total_full_slabs = u16 (cache1.total_full_slabs + 1);
        }
        else cache1
    some (
      obj,
      record cache2 {
        allocated_objects = u32 (cache2.allocated_objects + 1);
        total_free_objects = u32 (cache2.total_free_objects + 2 ^ 32 - 1);
      },
      if full then linked.0 else heap2,
    )

unfoldable pub slab_free : Cache → Heap → ℕ → Cache × Heap
slab_free cache heap ptr =
    let slab = aligndown ptr (slab_order + 12) in
    let heap1 = put_cell cache heap slab ptr in
    let from_full = unlink_slab heap1 slab cache.full_slabs in
    let to_partial = link_slab from_full.0 slab cache.partial_slabs in
    let from_partial = unlink_slab heap1 slab cache.partial_slabs in
    let to_free = link_slab from_partial.0 slab cache.free_slabs in
    let counted : Cache → Cache = λ c. record c {
      total_full_slabs = u16 (cache.total_full_slabs + 2 ^ 16 - 1);
      total_partial_slabs = u16 (cache.total_partial_slabs + 1);
    } in
    let (cache1, heap2) =
      if heap.free_count slab == 0
      then (
        counted (record cache { full_slabs = from_full.1; partial_slabs = to_partial.1 }),
        to_partial.0,
      )
      else if heap1.free_count slab == cache.objs_per_slab
      then (
        counted (record cache { partial_slabs = from_partial.1; free_slabs = to_free.1 }),
        to_free.0,
      )
      else (cache, heap1) in
    (
      record cache1 {
        allocated_objects = u32 (cache1.allocated_objects + 2 ^ 32 - 1);
        total_free_objects = u32 (cache1.total_free_objects + 1);
      },
      heap2,
    )

unfoldable pub cache_id_for_alloc : Heap → ℕ → ℕ
cache_id_for_alloc heap ptr = heap.header_cache_id (aligndown ptr (slab_order + 12))
