-- ===== src/Slab/Alloc.antt =====
-- `slab_alloc` and `slab_free` of kernel/src/mm/slab.c on the lists of a cache.
use learning_os.Base.{
  ℕ, ◌+◌, ◌-◌, ◌^◌, ◌<◌, ◌≡◌, ◌≢◌, refl, List, [], ◌∷◌, ◌==◌, true, false, arith, length, some, u32,
}
use learning_os.Slab.{
  Cache, Heap, cell_at, take_cell, unlink_slab, link_slab, choose_slab, slab_alloc,
}
use learning_os.Slab.Links.{IsChain, link_lem}
use learning_os.Slab.Unlink.{unlink_lem}
use learning_os.Slab.Cells.{IsSized, HasFree, take_cell_lem}
use learning_os.Slab.Frame.{
  Disjoint, Disjoint-cons, Disjoint-flip, SameCells-trans, HasFree-same, link-SameCells,
  unlink-SameCells, link_other, unlink_other,
}

-- The partial and the full slabs of a cache, as two lists with no slab in common.
pub record HasSlabs (cache : Cache) (heap : Heap) (partials fulls : List ℕ) : Type 0 where
  pub partial : IsChain heap cache.partial_slabs partials
  pub full : IsChain heap cache.full_slabs fulls
  pub disjoint : Disjoint partials fulls

-- Where the slab goes when one of its objects is given out and the cells stay free.
abbrev pub partials_after : ℕ → List ℕ → List ℕ → List ℕ
partials_after slab [] partials = partials
partials_after slab (i ∷ cells) partials = slab ∷ partials

abbrev pub fulls_after : ℕ → List ℕ → List ℕ → List ℕ
fulls_after slab [] fulls = slab ∷ fulls
fulls_after slab (i ∷ cells) fulls = fulls

-- `take_cell` changes no list.
take_cell-HasSlabs :
    (cache : Cache) (heap : Heap) (slab : ℕ) (partials fulls : List ℕ)
    → HasSlabs cache heap partials fulls
    → HasSlabs cache (take_cell cache heap slab).1 partials fulls
unfolding take_cell
take_cell-HasSlabs cache heap slab partials fulls slabs = record {
  partial = slabs.partial;
  full = slabs.full;
  disjoint = slabs.disjoint;
}

-- A slab that is full moves from the head of the partial slabs to the full ones.
move_full :
    (cache : Cache) (heap : Heap) (slab : ℕ) (partials fulls : List ℕ)
    → HasSlabs cache heap (slab ∷ partials) fulls
    → let unlinked = unlink_slab heap slab cache.partial_slabs in
      let linked = link_slab unlinked.0 slab cache.full_slabs in
      IsChain linked.0 unlinked.1 partials
      × IsChain linked.0 linked.1 (slab ∷ fulls)
      × Disjoint partials (slab ∷ fulls)
move_full cache heap slab partials fulls slabs =
    let unlinked = unlink_slab heap slab cache.partial_slabs in
    let (apart_fulls, disjoint) = slabs.disjoint in
    let (apart, distinct) = slabs.partial.1 in
    let pos : slab ≢ 0 = slabs.partial.0.1 in
    let left = unlink_lem heap slab cache.partial_slabs [] partials slabs.partial in
    let fulls_kept =
      unlink_other heap slab cache.partial_slabs [] partials slabs.partial.0 cache.full_slabs fulls
        slabs.partial.1 (Disjoint-flip (slab ∷ partials) fulls slabs.disjoint) slabs.full in
    (
      link_other unlinked.0 slab cache.full_slabs unlinked.1 fulls partials fulls_kept disjoint
          apart left,
      link_lem unlinked.0 slab cache.full_slabs fulls fulls_kept pos apart_fulls,
      Disjoint-cons slab partials fulls apart disjoint,
    )

module _ (vm_alloc_block : Heap → ℕ × Heap) where
  choose_partial :
      (cache : Cache) (heap : Heap) (slab : ℕ) (partials : List ℕ)
      → IsChain heap cache.partial_slabs (slab ∷ partials)
      → choose_slab vm_alloc_block cache heap ≡ some (slab, cache, heap)
  unfolding choose_slab
  choose_partial cache heap slab partials ((at, pos, back, rest), distinct) =
      let some_partial : (cache.partial_slabs == 0) ≡ false = ground arith in
      rw (some_partial, at) refl

  -- `slab_alloc` of a cache with a partial slab that has free cells, fewer than 2^16, each of 1 to
  -- 2^16 - 1 bytes, gives out the first free object of the first partial slab, whose other cells
  -- stay free in their order. If it was the last one, the slab moves to the head of the full slabs,
  -- and otherwise the lists stay as they are. The counts of the objects in use and of the free ones
  -- move by one.
  pub slab_alloc_lem :
      (cache : Cache) (heap : Heap) (slab i : ℕ) (cells partials fulls : List ℕ)
      → IsSized cache
      → length (i ∷ cells) < 2 ^ 16
      → HasSlabs cache heap (slab ∷ partials) fulls
      → HasFree cache heap slab (i ∷ cells)
      → (cache' : Cache) × (heap' : Heap) × (slab_alloc vm_alloc_block cache heap
          ≡ some (cell_at cache slab i, cache', heap'))
        × HasFree cache heap' slab cells
        × HasSlabs cache' heap' (partials_after slab cells partials) (fulls_after slab cells fulls)
        × (cache'.allocated_objects ≡ u32 (cache.allocated_objects + 1))
        × (cache'.total_free_objects ≡ u32 (cache.total_free_objects + 2 ^ 32 - 1))
  unfolding slab_alloc
  slab_alloc_lem cache heap slab i [] partials fulls sized few slabs free =
      let (obj, kept) = take_cell_lem cache heap slab i [] sized few free in
      let heap2 = (take_cell cache heap slab).1 in
      let full : (heap2.free_count slab == 0) ≡ true = ground (arith, kept.counted) in
      let unlinked = unlink_slab heap2 slab cache.partial_slabs in
      let (partial, fulls', disjoint) =
        move_full cache heap2 slab partials fulls
          (take_cell-HasSlabs cache heap slab (slab ∷ partials) fulls slabs) in
      let same =
        SameCells-trans (unlink-SameCells heap2 slab cache.partial_slabs)
          (link-SameCells unlinked.0 slab cache.full_slabs) in
      rw (choose_partial cache heap slab partials slabs.partial, full, obj)
        (
          _,
          _,
          refl,
          HasFree-same cache heap2 _ slab [] same kept,
          record { partial = partial; full = fulls'; disjoint = disjoint },
          refl,
          refl,
        )
  slab_alloc_lem cache heap slab i (j ∷ cells) partials fulls sized few slabs free =
      let (obj, kept) = take_cell_lem cache heap slab i (j ∷ cells) sized few free in
      let heap2 = (take_cell cache heap slab).1 in
      let not_full : (heap2.free_count slab == 0) ≡ false = ground (arith, kept.counted) in
      let slabs' = take_cell-HasSlabs cache heap slab (slab ∷ partials) fulls slabs in
      rw (choose_partial cache heap slab partials slabs.partial, not_full, obj)
        (
          _,
          _,
          refl,
          kept,
          record { partial = slabs'.partial; full = slabs'.full; disjoint = slabs'.disjoint },
          refl,
          refl,
        )
