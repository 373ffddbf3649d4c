-- ===== src/BootMmap/Usable.antt =====
-- `is_block_usable` of kernel/src/mm/boot_mmap.c.
use learning_os.Base.{
  ℕ, ◌+◌, ◌^◌, ◌≤◌, ◌<◌, ◌≡◌, refl, inl, inr, ◌⊎◌, true, ◌&&◌, List, [], ◌∷◌, leb, u64, arith,
  Bool-cases,
}
use learning_os.BootMmap.{PhysmemRegion, is_block_usable}

-- Some region holds the whole block.
abbrev pub Holds : List PhysmemRegion → ℕ → ℕ → Type 0
Holds [] block_base num_bytes = ⊥
Holds (region ∷ regions) block_base num_bytes =
    ((region.free_start ≤ block_base) × (block_base + num_bytes ≤ region.region_end))
    ⊎ Holds regions block_base num_bytes

-- `is_block_usable` holds of a block that does not wrap around just if one region contains it
-- whole.
pub usable_iff :
    (regions : List PhysmemRegion) (block_base num_bytes : ℕ)
    → block_base + num_bytes < 2 ^ 64
    → (is_block_usable regions block_base num_bytes ≡ true → Holds regions block_base num_bytes)
      × (Holds regions block_base num_bytes → is_block_usable regions block_base num_bytes ≡ true)
unfolding is_block_usable
usable_iff [] block_base num_bytes fits = (λ h. ground arith, λ h. absurd h)
usable_iff (region ∷ regions) block_base num_bytes fits =
    let wrap : u64 (block_base + num_bytes) ≡ block_base + num_bytes = omega arith in
    let (sound, complete) = usable_iff regions block_base num_bytes fits in
    elim (Bool-cases
      (leb region.free_start block_base && leb (block_base + num_bytes) region.region_end)) [
        | inl inside ↦
            let inside_region : (region.free_start ≤ block_base)
                × (block_base + num_bytes ≤ region.region_end) =
              (ground arith, ground arith) in
            rw (wrap, inside) (λ h. inl inside_region, λ h. refl)
        | inr outside ↦
            rw (wrap, outside)
              (
                λ h. inr (sound h),
                λ h. elim h [
                  | inl (above, below) ↦ absurd (ground arith)
                  | inr later ↦ complete later
                ],
              )
      ]
