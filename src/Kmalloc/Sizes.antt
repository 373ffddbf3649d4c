-- ===== src/Kmalloc/Sizes.antt =====
-- The choice of the cache by size, of kernel/src/mm/kmalloc.c.
use learning_os.Base.{
  ℕ, zero, suc, ◌+◌, ◌-◌, ◌*◌, ◌/◌, ◌<◌, ◌≤◌, ◌≡◌, refl, leb, ◌&&◌, Mem, store, ◌>>>◌, get_or,
  arith, Bool, true, and_parts,
}
use learning_os.Base.Tables.{holds_below, holds_below-at}
use learning_os.Kmalloc.{cache_idx_places, kmalloc_sizes, map_range, map_sizes}

-- The map that `kmalloc_init` makes of the array, which is zero when the kernel starts.
abbrev pub final_map : Mem
final_map = map_sizes (λ a. 0) kmalloc_sizes 0 0

abbrev pub size_of_cache : ℕ → ℕ
size_of_cache i = get_or kmalloc_sizes i 0

-- The size of the cache below, 0 for the first cache
abbrev pub size_below : ℕ → ℕ
size_below zero = 0
size_below (suc i) = size_of_cache i

abbrev fits : ℕ → Bool
fits e =
    leb (8 * (e + 1)) (size_of_cache (final_map (e + 1)))
    && leb (size_below (final_map (e + 1))) (8 * e)

fits_table : holds_below 254 fits ≡ true
unfolding holds_below map_sizes map_range store
fits_table = refl

-- For 1 to 2032 bytes the place is one of the array's 255, and the map leads to the cache with the
-- smallest objects that are large enough: its objects hold the bytes, and those of the next smaller
-- cache do not.
pub smallest_cache :
    (size : ℕ)
    → 0 < size
    → size ≤ 2032
    → ((size + 7) >>> 3 < cache_idx_places)
      × (size ≤ size_of_cache (final_map ((size + 7) >>> 3)))
      × (size_below (final_map ((size + 7) >>> 3)) < size)
smallest_cache size pos small =
    let e = (size + 7) / 8 - 1 in
    let place : (size + 7) / 8 ≡ e + 1 = omega arith in
    let row = holds_below-at 254 fits e fits_table (omega arith) in
    let (large, least) =
      and_parts (leb (8 * (e + 1)) (size_of_cache (final_map (e + 1))))
        (leb (size_below (final_map (e + 1))) (8 * e)) row in
    rw place (omega arith, ground arith, ground arith)
