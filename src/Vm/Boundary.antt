-- ===== src/Vm/Boundary.antt =====
-- `__check_vm_region_boundary` of kernel/src/mm/vm.c.
use learning_os.Base.{
  ℕ, ◌+◌, ◌-◌, ◌*◌, ◌/◌, ◌%◌, ◌^◌, ◌≤◌, ◌<◌, bit_and, ltb, ◌==◌, if◌then◌else◌, u64, ◌≡◌, ◌⊎◌, ◌↔◌,
  refl, arith, ap, Bool-cases, inl, inr, ==_iff,
}
use learning_os.Base.Bits.{bit_and-zero}
use learning_os.Base.Bits.Parts.{bit_and-div, bit_and-mod, bit_and-bit}
use learning_os.Vm.Entry.{has, vm_write_guard, err_vm_boundary}
use learning_os.Vm.Walk.{check_vm_region_boundary}

-- The bits of the mask lie from bit 21 on.
masked_high : (v mask : ℕ) → bit_and v (mask * 2 ^ 21) ≡ bit_and (v / 2 ^ 21) mask * 2 ^ 21
masked_high v mask =
    let high = bit_and-div 21 v (mask * 2 ^ 21) in
    let low = bit_and-mod 21 v (mask * 2 ^ 21) in
    let quotient : mask * 2 ^ 21 / 2 ^ 21 ≡ mask = omega arith in
    let rest : mask * 2 ^ 21 % 2 ^ 21 ≡ 0 = omega arith in
    omega (
      arith,
      high,
      low,
      ap (bit_and (v / 2 ^ 21)) quotient,
      ap (bit_and (v % 2 ^ 21)) rest,
      bit_and-zero (v % 2 ^ 21),
    )

-- Where the quotients differ by one at most, the lowest bit of the mask tells them apart.
masked_iff :
    (a b : ℕ)
    → (b ≡ a) ⊎ (b ≡ a + 1) ⊎ (b ≡ 0) × (a % 2 ≡ 1)
    → (bit_and a 0x8FFFFFF ≡ bit_and b 0x8FFFFFF) ↔ (a ≡ b)
masked_iff a b h = (
  λ e. omega (
    arith,
    e,
    bit_and-mod 1 a 0x8FFFFFF,
    bit_and-mod 1 b 0x8FFFFFF,
    bit_and-bit 0 (a % 2),
    bit_and-bit 0 (b % 2),
  ),
  λ e. ap (λ (x : ℕ). bit_and x 0x8FFFFFF) e,
)

-- The comparison of the code, for a region of `g` pages with its guard.
masked_region :
    (v g : ℕ)
    → v < 2 ^ 64
    → g ≤ 512
    → (bit_and v (0x8FFFFFF * 2 ^ 21) ≡ bit_and (u64 (v + g * 2 ^ 12)) (0x8FFFFFF * 2 ^ 21))
      ↔ (v % 2 ^ 21 + g * 4096 < 2 ^ 21)
masked_region v g h k =
    let end = u64 (v + g * 2 ^ 12) in
    let same = masked_iff (v / 2 ^ 21) (end / 2 ^ 21) (ground arith) in
    (
      λ e.
          let quotients =
            same.0 (omega (arith, e, masked_high v 0x8FFFFFF, masked_high end 0x8FFFFFF)) in
          omega arith,
      λ e. omega (arith, same.1 (omega arith), masked_high v 0x8FFFFFF, masked_high end 0x8FFFFFF),
    )

-- The test of the code on `g` pages.
abbrev test_region : ℕ → ℕ → ℕ
test_region v g =
    let offset_mask : ℕ = 0x8FFFFFF * 2 ^ 21 in
    if ltb 512 g
    then err_vm_boundary
    else if bit_and v offset_mask == bit_and (u64 (v + g * 2 ^ 12)) offset_mask
    then 0
    else err_vm_boundary

test_region_iff : (v g : ℕ) → v < 2 ^ 64 → (test_region v g ≡ 0) ↔ (v % 2 ^ 21 + g * 4096 < 2 ^ 21)
test_region_iff v g h = elim (Bool-cases (ltb 512 g)) [
  | inl many ↦ (λ e. absurd (ground (arith, e, many)), λ lt. absurd (ground arith))
  | inr few ↦
      let mask : ℕ = 0x8FFFFFF * 2 ^ 21 in
      let same = masked_region v g h (ground arith) in
      let tested = ==_iff (bit_and v mask) (bit_and (u64 (v + g * 2 ^ 12)) mask) in
      elim (Bool-cases (bit_and v mask == bit_and (u64 (v + g * 2 ^ 12)) mask)) [
        | inl hit ↦ (λ e. same.0 (tested.0 hit), λ lt. rw (few, hit) refl)
        | inr miss ↦ (
          λ e. absurd (ground (arith, e, few, miss)),
          λ lt. absurd (cc (tested.1 (same.1 lt), miss)),
        )
      ]
]

-- `__check_vm_region_boundary` of a region of fewer than 2^16 - 1 pages, counted with the guard
-- page where there is one, passes exactly if there are at most 512 pages and the region ends in
-- front of the end of the 2 MB that one page table maps: a region that ends there is refused.
pub boundary_iff :
    (virt_base pages flags : ℕ)
    → virt_base < 2 ^ 64
    → pages < 2 ^ 16 - 1
    → (check_vm_region_boundary virt_base pages flags ≡ 0) ↔ (
        virt_base % 2 ^ 21 + (if has flags vm_write_guard then pages + 1 else pages) * 4096
        < 2 ^ 21)
unfolding check_vm_region_boundary
boundary_iff virt_base pages flags h k = elim (Bool-cases (has flags vm_write_guard)) [
  | inl guard ↦
      let same : (pages + 1) % 2 ^ 16 ≡ pages + 1 = omega arith in
      rw (guard, same) (test_region_iff virt_base (pages + 1) h)
  | inr bare ↦ rw bare (test_region_iff virt_base pages h)
]
