-- ===== src/PhysAlloc/Rounds.antt =====
-- One round of the loop of `phys_block_shrink` in kernel/src/mm/phys_alloc.c.
use learning_os.Base.{
  ℕ, suc, ◌+◌, ◌-◌, ◌/◌, ◌%◌, ◌^◌, ◌≤◌, ◌<◌, ◌≡◌, Option, arith, ◌>>=◌, u64, ◌>>>◌, leb, ◌==◌,
  false, true, int_bit, bit_and, List,
}
use learning_os.Base.Bits.{bit_and_mask}
use learning_os.BootMmap.{PhysmemRegion}
use learning_os.Buddy.State.{BuddyAllocator}
use learning_os.Buddy.Free.{buddy_free_block}
use learning_os.Buddy.Shrink.{buddy_shrink_block}
use learning_os.PhysAlloc.{shrink_orders}

module _ (objs_per_slab : ℕ) (vm_alloc_block : BuddyAllocator → Option BuddyAllocator)
    (regions : List PhysmemRegion) where
  abbrev pub loop : ℕ → BuddyAllocator → ℕ → ℕ → ℕ → Option BuddyAllocator
  loop = shrink_orders objs_per_slab vm_alloc_block regions

  -- One round of the loop, by the bit of the size and by the pages that are left to keep.
  pub loop_skip :
      (k : ℕ) (a : BuddyAllocator) (addr size t : ℕ)
      → (size / 2 ^ k) % 2 ≡ 0
      → loop (suc k) a addr size t ≡ loop k a addr size t
  unfolding shrink_orders
  loop_skip k a addr size t even =
      let bit : (bit_and (size >>> k) 1 == 0) ≡ true =
        ground (arith, bit_and_mask 1 (size / 2 ^ k)) in
      rw bit

  pub loop_free :
      (k : ℕ) (a : BuddyAllocator) (addr size : ℕ)
      → (size / 2 ^ k) % 2 ≡ 1
      → loop (suc k) a addr size 0 ≡ (
          buddy_free_block regions a addr k >>= λ b.
          loop k b (u64 (addr + int_bit (k + 12))) size 0)
  unfolding shrink_orders
  loop_free k a addr size odd =
      let bit : (bit_and (size >>> k) 1 == 0) ≡ false =
        ground (arith, bit_and_mask 1 (size / 2 ^ k)) in
      rw bit

  pub loop_shrink :
      (k : ℕ) (a : BuddyAllocator) (addr size t : ℕ)
      → (size / 2 ^ k) % 2 ≡ 1
      → 0 < t
      → t ≤ int_bit k
      → loop (suc k) a addr size t
        ≡ (buddy_shrink_block a addr k t >>= λ b. loop k b (u64 (addr + int_bit (k + 12))) size 0)
  unfolding shrink_orders
  loop_shrink k a addr size t odd pos le =
      let bit : (bit_and (size >>> k) 1 == 0) ≡ false =
        ground (arith, bit_and_mask 1 (size / 2 ^ k)) in
      let keeps : (t == 0) ≡ false = ground arith in
      let inside : leb t (int_bit k) ≡ true = ground arith in rw (bit, keeps, inside)

  pub loop_keep :
      (k : ℕ) (a : BuddyAllocator) (addr size t : ℕ)
      → (size / 2 ^ k) % 2 ≡ 1
      → int_bit k < t
      → loop (suc k) a addr size t ≡ loop k a (u64 (addr + int_bit (k + 12))) size (t - int_bit k)
  unfolding shrink_orders
  loop_keep k a addr size t odd above =
      let bit : (bit_and (size >>> k) 1 == 0) ≡ false =
        ground (arith, bit_and_mask 1 (size / 2 ^ k)) in
      let keeps : (t == 0) ≡ false = ground arith in
      let beyond : leb t (int_bit k) ≡ false = ground arith in rw (bit, keeps, beyond)
