-- ===== src/Slab/Cells.antt =====
-- The free objects of a slab: `__slab_init`, and what `slab_alloc` and `slab_free` of
-- kernel/src/mm/slab.c do to one slab.
use learning_os.Base.{
  ℕ, suc, ◌+◌, ◌-◌, ◌*◌, ◌/◌, ◌^◌, ◌<◌, ◌≤◌, ◌≡◌, ◌≢◌, refl, sym, ◌∙◌, ap, List, [], ◌∷◌, ◌==◌,
  true, false, if◌then◌else◌, Mem, store, store_self, store_ne, arith, sub64, ltb, length, u16,
}
use native.Mathlib.Nat.{mul-le-mul}
use learning_os.Base.Powers.{div_unique}
use learning_os.Slab.{Cache, Heap, cell_at, index_of, slab_data, take_cell, put_cell}
use learning_os.Slab.Links.{Apart, Distinct}

-- Cells that are not empty, and no more of them and of their bytes than 16 bits count.
abbrev pub IsSized : Cache → Type 0
IsSized cache =
    (0 < cache.obj_cell_size) × (cache.obj_cell_size < 2 ^ 16) × (cache.objs_per_slab < 2 ^ 16)

-- Cells of the slab.
abbrev pub InSlab : Cache → List ℕ → Type 0
InSlab cache [] = Unit {0}
InSlab cache (i ∷ is) = (i < cache.objs_per_slab) × InSlab cache is

-- From a pointer on, the free objects lead through the cells of the list to NULL.
abbrev pub Leads : Cache → Mem → ℕ → ℕ → List ℕ → Type 0
Leads cache next_free slab ptr [] = ptr ≡ 0
Leads cache next_free slab ptr (i ∷ is) =
    (ptr ≡ cell_at cache slab i) × Leads cache next_free slab (next_free (cell_at cache slab i)) is

abbrev pub First : Cache → Heap → ℕ → List ℕ → Type 0
First cache heap slab [] = Unit {0}
First cache heap slab (i ∷ is) =
    (heap.first_free_idx slab ≡ i)
    × Leads cache heap.next_free slab (heap.next_free (cell_at cache slab i)) is

-- The free cells of a slab, in the order in which they are given out.
pub record HasFree (cache : Cache) (heap : Heap) (slab : ℕ) (cells : List ℕ) : Type 0 where
  pub counted : heap.free_count slab ≡ length cells
  pub first : First cache heap slab cells
  pub inside : InSlab cache cells
  pub distinct : Distinct cells

index_of-cell :
    (cache : Cache) (slab i : ℕ)
    → IsSized cache
    → i < 2 ^ 16
    → index_of cache slab (cell_at cache slab i) ≡ i
unfolding index_of
index_of-cell cache slab i (pos, narrow, counted) small =
    let c = cache.obj_cell_size in
    let short : i * c ≤ 2 ^ 16 * 2 ^ 16 =
      mul-le-mul {n₂ = 2 ^ 16} {m₂ = 2 ^ 16} (omega arith) (omega arith) in
    let difference : sub64 (cell_at cache slab i) (slab_data slab) ≡ i * c = omega (arith, short) in
    let positive : ltb (i * c) (2 ^ 63) ≡ true = ground (arith, short) in
    let whole : i * c ≡ i * c + 0 = omega arith in
    let quotient : i * c / c ≡ i =
      ap (λ (t : ℕ). t / c) whole ∙ div_unique c i 0 (omega (arith, pos)) in
    rw (difference, positive, quotient) (omega (arith, small))

pub cell_ne :
    (cache : Cache) (slab i j : ℕ)
    → 0 < cache.obj_cell_size
    → i ≢ j
    → cell_at cache slab i ≢ cell_at cache slab j
cell_ne cache slab i j pos ne = λ e.
    let c = cache.obj_cell_size in
    let same : i * c + 0 ≡ j * c + 0 = omega arith in
    ne (sym (div_unique c i 0 pos) ∙ ap (λ (t : ℕ). t / c) same ∙ div_unique c j 0 pos)

-- A write to another cell leaves the way through the cells as it is.
Leads-store :
    (cache : Cache) (next_free : Mem) (slab i v ptr : ℕ) (cells : List ℕ)
    → 0 < cache.obj_cell_size
    → Apart i cells
    → Leads cache next_free slab ptr cells
    → Leads cache (store next_free (cell_at cache slab i) v) slab ptr cells
Leads-store cache next_free slab i v ptr [] pos apart leads = leads
Leads-store cache next_free slab i v ptr (j ∷ cells) pos (ne, apart) (at, leads) =
    let same =
      store_ne next_free (cell_at cache slab i) v (cell_at cache slab j)
        (cell_ne cache slab j i pos (λ e. ne (sym e))) in
    (
      at,
      rw same (
          Leads-store cache next_free slab i v (next_free (cell_at cache slab j)) cells pos apart
            leads),
    )

-- Of a slab with free cells, fewer than 2^16, `slab_alloc` gives out the first and keeps the
-- others, in their order. Cells are not empty and have fewer than 2^16 bytes.
pub take_cell_lem :
    (cache : Cache) (heap : Heap) (slab i : ℕ) (cells : List ℕ)
    → IsSized cache
    → length (i ∷ cells) < 2 ^ 16
    → HasFree cache heap slab (i ∷ cells)
    → ((take_cell cache heap slab).0 ≡ cell_at cache slab i)
      × HasFree cache (take_cell cache heap slab).1 slab cells
unfolding take_cell
take_cell_lem cache heap slab i [] sized few free =
    let (at, end) = free.first in
    (
      ap (cell_at cache slab) at,
      record {
        counted = rw free.counted (store_self heap.free_count slab _);
        first = tt;
        inside = tt;
        distinct = tt;
      },
    )
take_cell_lem cache heap slab i (j ∷ cells) sized few free =
    let (at, (ptr, leads)) = free.first in
    let (apart, distinct) = free.distinct in
    let (in_i, (in_j, inside)) = free.inside in
    let left : u16 (heap.free_count slab + 2 ^ 16 - 1) ≡ suc (length cells) =
      omega (arith, free.counted) in
    let next : index_of cache slab (heap.next_free (cell_at cache slab (heap.first_free_idx slab)))
        ≡ j =
      rw (at, ptr) (index_of-cell cache slab j sized (omega arith)) in
    (
      ap (cell_at cache slab) at,
      record {
        counted = store_self heap.free_count slab _ ∙ left;
        first = (store_self heap.first_free_idx slab _ ∙ next, leads);
        inside = (in_j, inside);
        distinct = distinct;
      },
    )

-- `slab_free` of a cell of the slab that is not free makes it the first free cell of the slab,
-- before the others. Cells are not empty, and fewer than 2^16 and of fewer bytes.
pub put_cell_lem :
    (cache : Cache) (heap : Heap) (slab i : ℕ) (cells : List ℕ)
    → IsSized cache
    → suc (length cells) < 2 ^ 16
    → i < cache.objs_per_slab
    → Apart i cells
    → HasFree cache heap slab cells
    → HasFree cache (put_cell cache heap slab (cell_at cache slab i)) slab (i ∷ cells)
unfolding put_cell
put_cell_lem cache heap slab i [] sized few inside apart free =
    let none_free : (heap.free_count slab == 0) ≡ true = ground (arith, free.counted) in
    let count : u16 (heap.free_count slab + 1) ≡ 1 = omega (arith, free.counted) in
    record {
      counted = store_self heap.free_count slab _ ∙ count;
      first = (
        store_self heap.first_free_idx slab _ ∙ index_of-cell cache slab i sized (omega arith),
        store_self heap.next_free (cell_at cache slab i) _ ∙ rw none_free refl,
      );
      inside = (inside, tt);
      distinct = (tt, tt);
    }
put_cell_lem cache heap slab i (j ∷ cells) sized few inside apart free =
    let (at, leads) = free.first in
    let some_free : (heap.free_count slab == 0) ≡ false = ground (arith, free.counted) in
    let count : u16 (heap.free_count slab + 1) ≡ suc (suc (length cells)) =
      omega (arith, free.counted) in
    let here = cell_at cache slab i in
    let next =
      if heap.free_count slab == 0 then 0 else cell_at cache slab (heap.first_free_idx slab) in
    let next_at : store heap.next_free here next here ≡ cell_at cache slab j =
      store_self heap.next_free here next ∙ rw (some_free, at) refl in
    record {
      counted = store_self heap.free_count slab _ ∙ count;
      first = (
        store_self heap.first_free_idx slab _ ∙ index_of-cell cache slab i sized (omega arith),
        rw next_at (
            Leads-store cache heap.next_free slab i next (cell_at cache slab j) (j ∷ cells)
              (sized.0) apart (refl, leads)),
      );
      inside = (inside, free.inside);
      distinct = (apart, free.distinct);
    }

-- A cell that is given back is the next to be given out, and the other free cells are then as
-- before. Cells are not empty, and fewer than 2^16 and of fewer bytes.
pub take_cell-put_cell :
    (cache : Cache) (heap : Heap) (slab i : ℕ) (cells : List ℕ)
    → IsSized cache
    → suc (length cells) < 2 ^ 16
    → i < cache.objs_per_slab
    → Apart i cells
    → HasFree cache heap slab cells
    → let heap1 = put_cell cache heap slab (cell_at cache slab i) in
      ((take_cell cache heap1 slab).0 ≡ cell_at cache slab i)
      × HasFree cache (take_cell cache heap1 slab).1 slab cells
take_cell-put_cell cache heap slab i cells sized few inside apart free =
    take_cell_lem cache (put_cell cache heap slab (cell_at cache slab i)) slab i cells sized few
      (put_cell_lem cache heap slab i cells sized few inside apart free)
