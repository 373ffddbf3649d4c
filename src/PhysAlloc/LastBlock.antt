-- ===== src/PhysAlloc/LastBlock.antt =====
-- The last block of a run that kernel/src/mm/phys_alloc.c gives back, and its order.
use learning_os.Base.{
  ℕ, zero, suc, ◌+◌, ◌-◌, ◌/◌, ◌%◌, ◌^◌, ◌≤◌, ◌<◌, ◌≡◌, refl, ◌∙◌, ap, sym, some, arith, List, inl,
}
use native.Mathlib.Nat.{div-add-mod', one-le-pow}
use native.Mathlib.Decide.{dec_lt}
use learning_os.Base.Powers.{div_unique}
use learning_os.BootMmap.{PhysmemRegion}
use learning_os.Buddy.Index.{max_order}
use learning_os.Buddy.State.{BuddyAllocator}
use learning_os.Buddy.Free.{buddy_free_block}
use learning_os.Buddy.Free.Tells.{Tells}
use learning_os.Buddy.Free.Returns.{give_returns}
use learning_os.Buddy.Valid.{IsValid}
use learning_os.Buddy.Aligned.{aligned_halves}
use learning_os.PhysAlloc.Alloc.{offset_of_address}
use learning_os.PhysAlloc.Runs.{address_of, low_bits-suc}
use learning_os.PhysAlloc.Returns.{start_Tells}

-- The last block of a run ends in the page of the run's end.
pub last_block_ends :
    (regions : List PhysmemRegion) (a : BuddyAllocator) (off j k : ℕ)
    → IsValid a
    → k < max_order
    → j ≤ k
    → off % 2 ^ k ≡ 0
    → off + 2 ^ k ≤ 2 ^ 24
    → Tells a (off + 2 ^ k - 1) j
    → 0 < a.total_free_objects
    → (b : BuddyAllocator) × (buddy_free_block regions a (address_of a off) k ≡ some b)
unfolding buddy_free_block
last_block_ends regions a off j k v small above here fits t stock =
    let size : 1 ≤ 2 ^ k = one-le-pow k 2 (omega arith) in
    let at = offset_of_address a off v.base (omega arith) in
    let same : off / 2 ^ k ≡ (off + 2 ^ k - 1) / 2 ^ k = sym (
      ap (λ (s : ℕ). s / 2 ^ k) (omega (arith, div-add-mod' off (2 ^ k)))
      ∙ div_unique (2 ^ k) (off / 2 ^ k) (2 ^ k - 1) (omega arith)) in
    let tells = start_Tells a off (off + 2 ^ k - 1) j k above same t in
    let (b, gave) =
      give_returns regions a (address_of a off) k (omega arith, rw at here, rw at (omega arith))
        (inl small) (rw at tells) stock in
    rw gave (_, refl)

divides_below : (size d k : ℕ) → d + k ≤ max_order → size % 2 ^ (d + k) ≡ 0 → size % 2 ^ k ≡ 0
divides_below size zero k small h = let same : 0 + k ≡ k = omega arith in rw same at h
divides_below size (suc d) k small h =
    let same : suc d + k ≡ suc (d + k) = omega arith in
    divides_below size d k (omega arith)
      (aligned_halves size (d + k) (omega arith) (rw same at h)).0

-- A power of two that divides a size is at most the one of each of its bits.
pub below_bits : (size j k : ℕ) → j ≤ max_order → size % 2 ^ j ≡ 0 → (size / 2 ^ k) % 2 ≡ 1 → j ≤ k
below_bits size j k small divides odd = elim (dec_lt k j) [
  | no within ↦ omega arith
  | yes above ↦
      let sum : (j - suc k) + suc k ≡ j = omega arith in
      let even : size % 2 ^ suc k ≡ 0 =
        divides_below size (j - suc k) (suc k) (omega arith) (rw sum divides) in
      let power : 1 ≤ 2 ^ k = one-le-pow k 2 (omega arith) in
      let low = rw odd at (low_bits-suc size k (omega arith)) in absurd (omega arith)
]
