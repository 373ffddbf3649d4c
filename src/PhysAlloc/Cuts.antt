-- ===== src/PhysAlloc/Cuts.antt =====
-- `phys_block_shrink` of kernel/src/mm/phys_alloc.c ends where pages are kept.
use learning_os.Base.{
  ℕ, zero, suc, ◌+◌, ◌-◌, ◌*◌, ◌/◌, ◌%◌, ◌^◌, ◌≤◌, ◌<◌, ◌≡◌, refl, ◌∙◌, ap, sym, Option, some,
  arith, u64, ◌<<<◌, int_bit, List,
}
use native.Mathlib.Nat.{one-le-pow, mod-eq_of_lt, div-eq_of_lt}
use native.Mathlib.Decide.{dec_lt, ℕ_discrete}
use learning_os.Base.Powers.{div_unique, mod_unique}
use learning_os.BootMmap.{PhysmemRegion}
use learning_os.Math.{bit_order}
use learning_os.Buddy.Index.{max_order}
use learning_os.Buddy.State.{BuddyAllocator}
use learning_os.Buddy.Shrink.{buddy_shrink_block}
use learning_os.Buddy.Free.Tells.{Tells}
use learning_os.Buddy.Valid.{IsValid, InUse, shrink_block-IsValid}
use learning_os.Buddy.Aligned.{aligned_halves}
use learning_os.PhysAlloc.Alloc.{order-le-max, block_offset_of_address}
use learning_os.PhysAlloc.Runs.{
  Frees, InUse-Frees, InUse-part, address_of, shrink_at, low_bits-suc, next_address,
}
use learning_os.PhysAlloc.Rounds.{loop, loop_skip, loop_keep, loop_shrink}
use learning_os.PhysAlloc.Keeps.{shrink_block-Tells}
use learning_os.PhysAlloc.Ends.{loop-Ends}
use learning_os.PhysAlloc.Shrink.{run, top_lem, next_aligned}
use learning_os.PhysAlloc.{shrink_orders, freespace_check, phys_block_shrink}

-- The block that the kept pages end in.
cut_block :
    (a : BuddyAllocator) (off k t : ℕ)
    → IsValid a
    → k ≤ max_order
    → 0 < t
    → t ≤ 2 ^ k
    → off % 2 ^ k ≡ 0
    → off + 2 ^ k ≤ 2 ^ 24
    → InUse a (off + t) (2 ^ k - t)
    → k ≤ a.total_free_objects
    → (b : BuddyAllocator) × (buddy_shrink_block a (address_of a off) k t ≡ some b)
      × Frees a (off + t) (2 ^ k - t) b
      × (a.total_free_objects ≤ b.total_free_objects + k)
      × ((q j : ℕ) → off + 2 ^ k ≤ q → Tells a q j → Tells b q j)
cut_block a off k t v small pos le here fits used stock =
    let size : 1 ≤ 2 ^ k = one-le-pow k 2 (omega arith) in
    let at = block_offset_of_address a off k v.base small (omega arith) here in
    let (b, left, shrunk, valid, pages, counted, power, at_most, exact, base, spent) =
      shrink_block-IsValid a (address_of a off) k t v small pos le (rw at fits) (rw at used)
        stock in
    (
      b,
      shrunk,
      shrink_at a off k v small here fits b t pos le used stock shrunk,
      spent,
      λ q j lo tells.
          shrink_block-Tells a b (address_of a off) k t q j small pos le (rw at here) (rw at lo)
            tells shrunk,
    )

module _ (objs_per_slab : ℕ) (vm_alloc_block : BuddyAllocator → Option BuddyAllocator)
    (regions : List PhysmemRegion) (size j : ℕ) (exact : j ≤ max_order)
    (divides : size % 2 ^ j ≡ 0) where
  abbrev round : ℕ → BuddyAllocator → ℕ → ℕ → Option BuddyAllocator
  round k a off t = run objs_per_slab vm_alloc_block regions size k a off t

  -- The loop below an order ends, with `t` pages left to keep.
  abbrev Cuts : ℕ → Type 0
  Cuts k =
      (a : BuddyAllocator) (off t : ℕ)
      → IsValid a
      → off % 2 ^ k ≡ 0
      → off + size % 2 ^ k ≤ 2 ^ 24
      → t ≤ size % 2 ^ k
      → InUse a (off + t) (size % 2 ^ k - t)
      → (0 < size % 2 ^ k → Tells a (off + size % 2 ^ k - 1) j)
      → k ≤ a.total_free_objects
      → 2 * k ≤ a.total_free_objects + 2
      → (b : BuddyAllocator) × (round k a off t ≡ some b)

  -- A block is cut, and the loop goes on behind it.
  cut_then :
      (k : ℕ) (a b c : BuddyAllocator) (off t : ℕ)
      → k ≤ max_order
      → (size / 2 ^ k) % 2 ≡ 1
      → 0 < t
      → t ≤ 2 ^ k
      → b.base_addr ≡ a.base_addr
      → buddy_shrink_block a (address_of a off) k t ≡ some b
      → round k b (off + 2 ^ k) 0 ≡ some c
      → round (suc k) a off t ≡ some c
  cut_then k a b c off t small odd pos le base shrunk returns =
      let bit : int_bit k ≡ 2 ^ k = ap (λ (e : ℕ). 2 ^ e) (mod-eq_of_lt (omega arith)) in
      let next : u64 (address_of a off + int_bit (k + 12)) ≡ address_of b (off + 2 ^ k) =
        next_address a.base_addr off k small
        ∙ ap (λ (s : ℕ). u64 (s + ((off + 2 ^ k) <<< 12))) (sym base) in
      loop_shrink objs_per_slab vm_alloc_block regions k a (address_of a off) size t odd pos
        (rw bit le)
      ∙ rw shrunk
          (ap (λ (s : ℕ). loop objs_per_slab vm_alloc_block regions k b s size 0) next ∙ returns)

  cut_round :
      (k : ℕ) (a : BuddyAllocator) (off t : ℕ)
      → k ≤ max_order
      → (size / 2 ^ k) % 2 ≡ 1
      → IsValid a
      → off % 2 ^ k ≡ 0
      → off + (2 ^ k + size % 2 ^ k) ≤ 2 ^ 24
      → 0 < t
      → t ≤ 2 ^ k
      → InUse a (off + t) (2 ^ k + size % 2 ^ k - t)
      → (0 < size % 2 ^ k → Tells a (off + (2 ^ k + size % 2 ^ k) - 1) j)
      → k ≤ a.total_free_objects
      → (0 < size % 2 ^ k → 2 * k ≤ a.total_free_objects)
      → (c : BuddyAllocator) × (round (suc k) a off t ≡ some c)
  cut_round k a off t small odd v here fits pos le used tells stock twice =
      let used' =
        InUse-part a (off + t) (2 ^ k + size % 2 ^ k - t) (off + t) (2 ^ k - t) (omega arith)
          (omega arith) used in
      let (b, shrunk, first, spent, keeps) =
        cut_block a off k t v small pos le here (omega arith) used' stock in
      let used_b =
        InUse-Frees (off + t) (2 ^ k - t) (off + 2 ^ k) (size % 2 ^ k) first (omega arith) (
          InUse-part a (off + t) (2 ^ k + size % 2 ^ k - t) (off + 2 ^ k) (size % 2 ^ k)
            (omega arith) (omega arith) used) in
      let sum : off + (2 ^ k + size % 2 ^ k) ≡ off + 2 ^ k + size % 2 ^ k = omega arith in
      let (c, returns) =
        loop-Ends objs_per_slab vm_alloc_block regions size j exact divides k small b (off + 2 ^ k)
          first.valid (next_aligned off k here) (omega arith) used_b
          (λ more. (
            rw sum at (keeps (off + (2 ^ k + size % 2 ^ k) - 1) j (omega arith) (tells more)),
            omega (arith, spent, twice more),
          )) in
      (c, cut_then k a b c off t small odd pos le first.base shrunk returns)

  -- A block that is kept, or that the kept pages end in.
  keep_round :
      (k : ℕ) (a : BuddyAllocator) (off t : ℕ)
      → k ≤ max_order
      → Cuts k
      → (size / 2 ^ k) % 2 ≡ 1
      → IsValid a
      → off % 2 ^ k ≡ 0
      → off + (2 ^ k + size % 2 ^ k) ≤ 2 ^ 24
      → 0 < t
      → t ≤ 2 ^ k + size % 2 ^ k
      → InUse a (off + t) (2 ^ k + size % 2 ^ k - t)
      → (0 < size % 2 ^ k → Tells a (off + (2 ^ k + size % 2 ^ k) - 1) j)
      → k ≤ a.total_free_objects
      → 2 * k ≤ a.total_free_objects
      → (c : BuddyAllocator) × (round (suc k) a off t ≡ some c)
  keep_round k a off t small cuts odd v here fits pos le used tells stock twice =
      let bit : int_bit k ≡ 2 ^ k = ap (λ (e : ℕ). 2 ^ e) (mod-eq_of_lt (omega arith)) in
      elim (dec_lt (2 ^ k) t) [
        | no within ↦
            cut_round k a off t small odd v here fits pos (omega arith) used tells stock
              (λ more. twice)
        | yes above ↦
            let sum : off + (2 ^ k + size % 2 ^ k) ≡ off + 2 ^ k + size % 2 ^ k = omega arith in
            let (c, returns) =
              cuts a (off + 2 ^ k) (t - 2 ^ k) v (next_aligned off k here) (omega arith)
                (omega arith)
                (InUse-part a (off + t) (2 ^ k + size % 2 ^ k - t) (off + 2 ^ k + (t - 2 ^ k))
                  (size % 2 ^ k - (t - 2 ^ k)) (omega arith) (omega arith) used)
                (λ more. rw sum at (tells more)) stock (omega arith) in
            (
              c,
              loop_keep objs_per_slab vm_alloc_block regions k a (address_of a off) size t odd
                    (rw bit above)
                  ∙ ap
                      (λ (s : ℕ).
                        loop objs_per_slab vm_alloc_block regions k a s size (t - int_bit k))
                      (next_address a.base_addr off k small)
                  ∙ ap
                      (λ (w : ℕ).
                        loop objs_per_slab vm_alloc_block regions k a (address_of a (off + 2 ^ k))
                          size (t - w))
                      bit
                  ∙ returns,
            )
      ]

  loop-Cuts : (k : ℕ) → k ≤ max_order → Cuts k
  loop-Cuts k small a off zero v here fits le used tells stock twice =
      let all : off + 0 ≡ off = omega arith in
      let every : size % 2 ^ k - 0 ≡ size % 2 ^ k = omega arith in
      loop-Ends objs_per_slab vm_alloc_block regions size j exact divides k small a off v here fits
        (rw (all, every) at used) (λ more. (tells more, stock))
  loop-Cuts zero small a off (suc t) v here fits le used tells stock twice =
      unfold shrink_orders in (a, refl)
  loop-Cuts (suc k) small a off (suc t) v here fits le used tells stock twice =
      let low = low_bits-suc size k (omega arith) in
      let (here', high) = aligned_halves off k (omega arith) here in
      elim (ℕ_discrete ((size / 2 ^ k) % 2) 0) [
        | yes even ↦
            let same : size % 2 ^ suc k ≡ size % 2 ^ k = omega (arith, rw even at low) in
            let (b, returns) =
              loop-Cuts k (omega arith) a off (suc t) v here' (rw same at fits) (rw same at le)
                (rw same at used) (rw same at tells) (omega arith) (omega arith) in
            (
              b,
              loop_skip objs_per_slab vm_alloc_block regions k a (address_of a off) size (suc t)
                    even
                  ∙ returns,
            )
        | no odd ↦
            let one : (size / 2 ^ k) % 2 ≡ 1 = omega arith in
            let same : size % 2 ^ suc k ≡ 2 ^ k + size % 2 ^ k = omega (arith, rw one at low) in
            keep_round k a off (suc t) (omega arith) (loop-Cuts k (omega arith)) one v here'
              (rw same at fits) (omega arith) (rw same at le) (rw same at used)
              (λ more. rw same at (tells (omega arith))) (omega arith) (omega arith)
      ]

  -- The whole loop, from the order that the size rounds up to.
  top-Cuts :
      (o : ℕ) (a : BuddyAllocator) (off t : ℕ)
      → o ≤ max_order
      → size ≤ 2 ^ o
      → IsValid a
      → off % 2 ^ o ≡ 0
      → off + size ≤ 2 ^ 24
      → 0 < t
      → t ≤ size
      → InUse a (off + t) (size - t)
      → Tells a (off + size - 1) j
      → 12 ≤ a.total_free_objects
      → (b : BuddyAllocator) × (round (suc o) a off t ≡ some b)
  top-Cuts o a off t small enough v here fits pos le used tells stock = elim (dec_lt size (2 ^ o)) [
    | yes below ↦
        let same : size % 2 ^ o ≡ size = mod-eq_of_lt below in
        let even : (size / 2 ^ o) % 2 ≡ 0 = ap (λ (q : ℕ). q % 2) (div-eq_of_lt below) in
        let (b, returns) =
          loop-Cuts o small a off t v here (rw same fits) (rw same le) (rw same used)
            (λ more. rw same tells) (omega arith) (omega arith) in
        (
          b,
          loop_skip objs_per_slab vm_alloc_block regions o a (address_of a off) size t even
              ∙ returns,
        )
    | no not_below ↦
        let full : size ≡ 2 ^ o = omega arith in
        let power : 1 ≤ 2 ^ o = one-le-pow o 2 (omega arith) in
        let whole : 1 * 2 ^ o + 0 ≡ size = omega arith in
        let quotient : size / 2 ^ o ≡ 1 = rw whole at (div_unique (2 ^ o) 1 0 power) in
        let remainder : size % 2 ^ o ≡ 0 = rw whole at (mod_unique (2 ^ o) 1 0 power) in
        let same : 2 ^ o + size % 2 ^ o ≡ size = omega arith in
        cut_round o a off t small (rw quotient refl) v here (rw same fits) pos (omega arith)
          (rw same used) (λ more. absurd (omega arith)) (omega arith) (λ more. absurd (omega arith))
  ]

-- `phys_block_shrink` of a run of 1 to 128 pages, from a multiple of the power of two on that its
-- size rounds up to, within the 2^24 pages of the region's field, to its first `t` pages, at least
-- one, on a valid allocator in which the pages behind them are in use and whose cache has at least
-- 12 free entries. From an
-- order `j` up, where `2 ^ j` divides the size, the pairs that the last page of the run lies in
-- have bits in the bitmap, and a bit that is on says that the buddy is on the list of its order.
-- Then the blocks are given back without an undefined access: the allocator is valid with exactly
-- the pages behind the first `t` freed, and the call returns what `__freespace_check` makes of it.
pub phys_block_shrink-returns :
    (objs_per_slab : ℕ) (vm_alloc_block : BuddyAllocator → Option BuddyAllocator)
    (regions : List PhysmemRegion) (a : BuddyAllocator) (off size t j : ℕ)
    → IsValid a
    → size ≤ 128
    → off % 2 ^ bit_order size ≡ 0
    → off + size ≤ 2 ^ 24
    → 0 < t
    → t ≤ size
    → InUse a (off + t) (size - t)
    → j ≤ max_order
    → size % 2 ^ j ≡ 0
    → Tells a (off + size - 1) j
    → 12 ≤ a.total_free_objects
    → (b : BuddyAllocator) × (phys_block_shrink objs_per_slab vm_alloc_block regions a
          (address_of a off)
          size
          t
        ≡ freespace_check objs_per_slab vm_alloc_block b)
      × Frees a (off + t) (size - t) b
unfolding phys_block_shrink
phys_block_shrink-returns objs vm regions a off size t j v partial here fits pos le used exact
      divides tells stock =
    let (small, enough) = order-le-max size (omega arith) partial in
    let (b, returns) =
      top-Cuts objs vm regions size j exact divides (bit_order size) a off t small enough v here
        fits pos le used tells stock in
    let count : bit_order size + 1 ≡ suc (bit_order size) = omega arith in
    (
      b,
      rw (count, returns) refl,
      top_lem objs vm regions size (bit_order size) a b off t small enough v here fits le used
          (λ keeps. omega (arith, small)) returns,
    )
