-- ===== src/Slab/Free.antt =====
-- `slab_free` of kernel/src/mm/slab.c on the lists of a cache.
use learning_os.Base.{
  ℕ, suc, ◌+◌, ◌-◌, ◌*◌, ◌%◌, ◌^◌, ◌<◌, ◌≤◌, ◌≡◌, ◌≢◌, refl, ◌∙◌, List, [], ◌∷◌, ◌++◌, ◌==◌, true,
  arith, u32,
}
use native.Mathlib.Nat.{mul-le-mul_right}
use learning_os.Math.{aligndown}
use learning_os.Math.Round.{aligndown_lem}
use learning_os.Slab.{
  Cache, Heap, cell_at, put_cell, unlink_slab, link_slab, slab_free, slab_bytes, header_bytes,
  slab_order,
}
use learning_os.Slab.Links.{IsChain, link_lem}
use learning_os.Slab.Unlink.{unlink_lem}
use learning_os.Slab.Cells.{IsSized, HasFree, put_cell_lem}
use learning_os.Slab.Frame.{
  Disjoint, Disjoint-flip, Disjoint-middle, Distinct-middle, SameCells-trans, HasFree-same,
  link-SameCells, unlink-SameCells, link_other, unlink_other,
}
use learning_os.Slab.Alloc.{HasSlabs}

-- The objects hold a pointer, of 8 bytes, and fit the slab, which is aligned to its size.
abbrev pub IsPlaced : Cache → ℕ → Type 0
IsPlaced cache slab =
    (8 ≤ cache.obj_cell_size)
    × (cache.objs_per_slab * cache.obj_cell_size ≤ slab_bytes - header_bytes)
    × (slab % slab_bytes ≡ 0)
    × (slab + slab_bytes ≤ 2 ^ 64)

-- The address of an object leads to its slab.
pub aligndown-cell_at :
    (cache : Cache) (slab i : ℕ)
    → IsPlaced cache slab
    → 0 < cache.obj_cell_size
    → i < cache.objs_per_slab
    → aligndown (cell_at cache slab i) (slab_order + 12) ≡ slab
aligndown-cell_at cache slab i (large, room, aligned, fits) pos inside =
    let within : suc i * cache.obj_cell_size ≤ cache.objs_per_slab * cache.obj_cell_size =
      mul-le-mul_right cache.obj_cell_size (omega arith) in
    let below : cell_at cache slab i < slab + slab_bytes = grind (arith, within) in
    aligndown_lem (cell_at cache slab i) 13 (omega arith) (omega arith) ∙ omega arith

-- `put_cell` changes no list.
put_cell-HasSlabs :
    (cache : Cache) (heap : Heap) (slab ptr : ℕ) (partials fulls : List ℕ)
    → HasSlabs cache heap partials fulls
    → HasSlabs cache (put_cell cache heap slab ptr) partials fulls
unfolding put_cell
put_cell-HasSlabs cache heap slab ptr partials fulls slabs = record {
  partial = slabs.partial;
  full = slabs.full;
  disjoint = slabs.disjoint;
}

-- A full slab moves to the head of the partial slabs.
move_partial :
    (cache : Cache) (heap : Heap) (slab : ℕ) (partials xs ys : List ℕ)
    → slab ≢ 0
    → HasSlabs cache heap partials (xs ++ slab ∷ ys)
    → let unlinked = unlink_slab heap slab cache.full_slabs in
      let linked = link_slab unlinked.0 slab cache.partial_slabs in
      IsChain linked.0 linked.1 (slab ∷ partials)
      × IsChain linked.0 unlinked.1 (xs ++ ys)
      × Disjoint (slab ∷ partials) (xs ++ ys)
move_partial cache heap slab partials xs ys pos slabs =
    let unlinked = unlink_slab heap slab cache.full_slabs in
    let (links, distinct) = slabs.full in
    let left = unlink_lem heap slab cache.full_slabs xs ys slabs.full in
    let kept =
      unlink_other heap slab cache.full_slabs xs ys links cache.partial_slabs partials distinct
        slabs.disjoint slabs.partial in
    let (apart, disjoint) =
      Disjoint-middle slab xs ys partials
        (Disjoint-flip partials (xs ++ slab ∷ ys) slabs.disjoint) in
    let away = Distinct-middle slab xs ys distinct in
    (
      link_lem unlinked.0 slab cache.partial_slabs partials kept pos apart,
      link_other unlinked.0 slab cache.partial_slabs unlinked.1 partials (xs ++ ys) kept disjoint
          away left,
      (away, Disjoint-flip (xs ++ ys) partials disjoint),
    )

-- `slab_free` of an object of a full slab makes it the only free one of the slab, which moves
-- from among the full slabs to the head of the partial ones. The counts of the objects in use and
-- of the free ones move by one. The slab is aligned and holds its objects, each of 8 to 2^16 - 1
-- bytes.
pub slab_free_lem :
    (cache : Cache) (heap : Heap) (slab i : ℕ) (partials xs ys : List ℕ)
    → IsSized cache
    → IsPlaced cache slab
    → i < cache.objs_per_slab
    → slab ≢ 0
    → HasSlabs cache heap partials (xs ++ slab ∷ ys)
    → HasFree cache heap slab []
    → let (cache', heap') = slab_free cache heap (cell_at cache slab i) in
      HasFree cache heap' slab (i ∷ [])
      × HasSlabs cache' heap' (slab ∷ partials) (xs ++ ys)
      × (cache'.allocated_objects ≡ u32 (cache.allocated_objects + 2 ^ 32 - 1))
      × (cache'.total_free_objects ≡ u32 (cache.total_free_objects + 1))
unfolding slab_free
slab_free_lem cache heap slab i partials xs ys sized placed inside pos slabs free =
    let here = aligndown-cell_at cache slab i placed sized.0 inside in
    let full : (heap.free_count slab == 0) ≡ true = ground (arith, free.counted) in
    let given = put_cell_lem cache heap slab i [] sized (omega arith) inside tt free in
    let heap1 = put_cell cache heap slab (cell_at cache slab i) in
    let slabs1 =
      put_cell-HasSlabs cache heap slab (cell_at cache slab i) partials (xs ++ slab ∷ ys) slabs in
    let (partial, fulls, disjoint) = move_partial cache heap1 slab partials xs ys pos slabs1 in
    let unlinked = unlink_slab heap1 slab cache.full_slabs in
    let same =
      SameCells-trans (unlink-SameCells heap1 slab cache.full_slabs)
        (link-SameCells unlinked.0 slab cache.partial_slabs) in
    rw (here, full)
      (
        HasFree-same cache heap1 _ slab (i ∷ []) same given,
        record { partial = partial; full = fulls; disjoint = disjoint },
        refl,
        refl,
      )
