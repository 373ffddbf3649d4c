-- ===== src/BootMmap/Reserve.antt =====
-- `reserve_physmem_region` of kernel/src/mm/boot_mmap.c takes pages from the head of one region.
use learning_os.Base.{
  ℕ, ◌+◌, ◌*◌, ◌^◌, ◌≤◌, ◌<◌, ◌≡◌, refl, inl, inr, ◌&&◌, List, [], ◌∷◌, if◌then◌else◌, leb, ltb,
  u64, sub64, arith, Bool-cases,
}
use learning_os.BootMmap.{PhysmemRegion, page_size, reserve_physmem_region}

-- The addresses of a region do not wrap around.
abbrev pub AreRanges : List PhysmemRegion → Type 0
AreRanges [] = Unit {0}
AreRanges (region ∷ regions) =
    (region.free_start ≤ region.region_end) × (region.region_end < 2 ^ 64) × AreRanges regions

-- How many of the regions offer the byte at `x`.
abbrev pub offered : List PhysmemRegion → ℕ → ℕ
offered [] x = 0
offered (region ∷ regions) x =
    (if leb region.free_start x && ltb x region.region_end then 1 else 0) + offered regions x

-- Every region is at most as large as `size`.
abbrev pub NoneLarger : List PhysmemRegion → ℕ → Type 0
NoneLarger [] size = Unit {0}
NoneLarger (region ∷ regions) size =
    (region.region_end ≤ region.free_start + size) × NoneLarger regions size

-- What a reservation of `size` bytes does: the `size` bytes from the address on, which the regions
-- offered, are no longer offered and nothing else has changed, or no region is larger than `size`
-- and the result is NULL.
pub data Reservation (regions : List PhysmemRegion) (size : ℕ) (r : ℕ × List PhysmemRegion)
    : Type 0 where
  reserved :
      ((x : ℕ)
        → offered r.1 x + (if leb r.0 x && ltb x (r.0 + size) then 1 else 0) ≡ offered regions x)
      → Reservation regions size r
  refused : r ≡ (0, regions) → NoneLarger regions size → Reservation regions size r

behind :
    (region : PhysmemRegion) (regions : List PhysmemRegion) (size : ℕ) (r : ℕ × List PhysmemRegion)
    → region.region_end ≤ region.free_start + size
    → Reservation regions size r
    → Reservation (region ∷ regions) size (r.0, region ∷ r.1)
behind region regions size r small (reserved moved) = reserved λ x. ground (arith, moved x)
behind region regions size r small (refused same none_larger) =
    refused (rw same refl) (small, none_larger)

-- `reserve_physmem_region` of at least one and fewer than 2^32 pages from regions that do not wrap
-- around: either it takes exactly the reserved bytes out of what the regions offer, from the
-- returned address on, or no region is larger than the reservation, nothing changes and the result
-- is NULL. The regions stay free of wrapping.
pub reserve_lem :
    (regions : List PhysmemRegion) (num_pages : ℕ)
    → AreRanges regions
    → 0 < num_pages
    → num_pages < 2 ^ 32
    → Reservation regions (num_pages * page_size) (reserve_physmem_region regions num_pages)
      × AreRanges (reserve_physmem_region regions num_pages).1
unfolding reserve_physmem_region
reserve_lem [] num_pages ranges pos small = (refused refl tt, tt)
reserve_lem (region ∷ regions) num_pages (order, bound, ranges) pos small =
    let size : u64 (num_pages * page_size) ≡ num_pages * page_size = omega arith in
    let (rest, ranges') = reserve_lem regions num_pages ranges pos small in
    elim (Bool-cases (leb (sub64 region.region_end region.free_start) (num_pages * page_size))) [
      | inl fits ↦
          rw (size, fits)
            (
              behind region regions (num_pages * page_size)
                  (reserve_physmem_region regions num_pages) (ground arith) rest,
              (order, bound, ranges'),
            )
      | inr larger ↦
          let inside : region.free_start + num_pages * page_size < region.region_end =
            ground arith in
          let next : u64 (region.free_start + num_pages * page_size)
              ≡ region.free_start + num_pages * page_size =
            omega arith in
          rw (size, larger, next) (reserved (λ x. ground arith), (omega arith, bound, ranges))
    ]
