-- ===== src/Slab/Init.antt =====
-- `__slab_init` of kernel/src/mm/slab.c.
use learning_os.Base.{ℕ, zero, suc, ◌-◌, List, [], ◌∷◌, store}
use learning_os.Slab.{Cache, Heap, slab_data, cell_at, init_cells}

-- The indices of `k` cells from `i` on.
abbrev pub cells_from : ℕ → ℕ → List ℕ
cells_from i zero = []
cells_from i (suc k) = i ∷ cells_from (suc i) k

-- The heap that `__slab_init` leaves.
abbrev initialised : Cache → Heap → ℕ → Heap
initialised cache heap slab = record heap {
  first_free_idx = store heap.first_free_idx slab 0;
  free_count = store heap.free_count slab cache.objs_per_slab;
  header_cache_id = store heap.header_cache_id slab cache.cache_id;
  next_free =
      store
        (init_cells heap.next_free (slab_data slab) cache.obj_cell_size (cache.objs_per_slab - 1))
        (cell_at cache slab (cache.objs_per_slab - 1)) 0;
}
