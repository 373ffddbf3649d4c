-- ===== src/PhysAlloc/Ends.antt =====
-- The loop of `phys_block_shrink` of kernel/src/mm/phys_alloc.c ends where nothing is kept.
use learning_os.Base.{
  ℕ, zero, suc, ◌+◌, ◌-◌, ◌*◌, ◌/◌, ◌%◌, ◌^◌, ◌≤◌, ◌<◌, ◌≡◌, refl, ◌∙◌, ap, sym, Option, some,
  arith, u64, ◌<<<◌, int_bit, List,
}
use native.Mathlib.Nat.{one-le-pow, mod-eq_of_lt, div-eq_of_lt, mod-lt}
use native.Mathlib.Decide.{dec_lt, ℕ_discrete}
use learning_os.Base.Powers.{div_unique, mod_unique, double_pow}
use learning_os.BootMmap.{PhysmemRegion}
use learning_os.Math.{bit_order}
use learning_os.Buddy.Index.{max_order}
use learning_os.Buddy.State.{BuddyAllocator}
use learning_os.Buddy.Free.{buddy_free_block}
use learning_os.Buddy.Free.Tells.{Tells}
use learning_os.Buddy.Valid.{IsValid, InUse}
use learning_os.Buddy.Aligned.{aligned_halves}
use learning_os.PhysAlloc.Alloc.{order-le-max}
use learning_os.PhysAlloc.Runs.{
  Frees, InUse-Frees, InUse-part, address_of, free_at, low_bits-suc, next_address,
}
use learning_os.PhysAlloc.Rounds.{loop, loop_skip, loop_free}
use learning_os.PhysAlloc.Returns.{single_ends}
use learning_os.PhysAlloc.Shrink.{run, top_lem, next_aligned}
use learning_os.PhysAlloc.{shrink_orders, freespace_check, phys_block_shrink, phys_free}
use learning_os.PhysAlloc.LastBlock.{last_block_ends, below_bits}

module _ (objs_per_slab : ℕ) (vm_alloc_block : BuddyAllocator → Option BuddyAllocator)
    (regions : List PhysmemRegion) (size j : ℕ) (exact : j ≤ max_order)
    (divides : size % 2 ^ j ≡ 0) where
  abbrev round : ℕ → BuddyAllocator → ℕ → Option BuddyAllocator
  round k a off = run objs_per_slab vm_alloc_block regions size k a off 0

  -- The bits tell on the way up from a page, and there are `n` free entries.
  abbrev pub Ready : BuddyAllocator → ℕ → ℕ → Type 0
  Ready a q n = Tells a q j × (n ≤ a.total_free_objects)

  -- The loop below an order ends.
  abbrev pub Ends : ℕ → Type 0
  Ends k =
      (a : BuddyAllocator) (off : ℕ)
      → IsValid a
      → off % 2 ^ k ≡ 0
      → off + size % 2 ^ k ≤ 2 ^ 24
      → InUse a off (size % 2 ^ k)
      → (0 < size % 2 ^ k → Ready a (off + size % 2 ^ k - 1) k)
      → (b : BuddyAllocator) × (round k a off ≡ some b)

  -- Behind a block that was freed.
  go_on :
      (k : ℕ) (a b : BuddyAllocator) (off : ℕ)
      → k < max_order
      → Ends k
      → (size / 2 ^ k) % 2 ≡ 1
      → IsValid a
      → off % 2 ^ k ≡ 0
      → off + (2 ^ k + size % 2 ^ k) ≤ 2 ^ 24
      → InUse a off (2 ^ k + size % 2 ^ k)
      → buddy_free_block regions a (address_of a off) k ≡ some b
      → (0 < size % 2 ^ k → Ready b (off + (2 ^ k + size % 2 ^ k) - 1) k)
      → (c : BuddyAllocator) × (round (suc k) a off ≡ some c)
  go_on k a b off small ends odd v here fits used freed t =
      let used' =
        InUse-part a off (2 ^ k + size % 2 ^ k) off (2 ^ k) (omega arith) (omega arith) used in
      let first = free_at a off k v (omega arith) here (omega arith) regions b used' freed in
      let used_b = InUse-Frees off (2 ^ k) (off + 2 ^ k) (size % 2 ^ k) first (omega arith) (
        InUse-part a off (2 ^ k + size % 2 ^ k) (off + 2 ^ k) (size % 2 ^ k) (omega arith)
          (omega arith) used) in
      let next : u64 (address_of a off + int_bit (k + 12)) ≡ address_of b (off + 2 ^ k) =
        next_address a.base_addr off k (omega arith)
        ∙ ap (λ (s : ℕ). u64 (s + ((off + 2 ^ k) <<< 12))) (sym first.base) in
      let sum : off + (2 ^ k + size % 2 ^ k) ≡ off + 2 ^ k + size % 2 ^ k = omega arith in
      let (c, returns) =
        ends b (off + 2 ^ k) first.valid (next_aligned off k here) (omega arith) used_b
          (rw sum at t) in
      (
        c,
        loop_free objs_per_slab vm_alloc_block regions k a (address_of a off) size odd
            ∙ rw freed (
                ap (λ (s : ℕ). loop objs_per_slab vm_alloc_block regions k b s size 0) next
                ∙ returns),
      )

  -- The last block of the run.
  last_round :
      (k : ℕ) (a : BuddyAllocator) (off : ℕ)
      → k < max_order
      → Ends k
      → (size / 2 ^ k) % 2 ≡ 1
      → size % 2 ^ k ≡ 0
      → IsValid a
      → off % 2 ^ k ≡ 0
      → off + 2 ^ k ≤ 2 ^ 24
      → InUse a off (2 ^ k)
      → Ready a (off + 2 ^ k - 1) (suc k)
      → (c : BuddyAllocator) × (round (suc k) a off ≡ some c)
  last_round k a off small ends odd nothing v here fits used (t, stock) =
      let above = below_bits size j k exact divides odd in
      let (b, freed) = last_block_ends regions a off j k v small above here fits t (omega arith) in
      let whole : 2 ^ k + size % 2 ^ k ≡ 2 ^ k = omega arith in
      go_on k a b off small ends odd v here (omega arith) (rw whole used) freed
        λ more. absurd (omega arith)

  -- A block with others behind it.
  inner_round :
      (k : ℕ) (a : BuddyAllocator) (off : ℕ)
      → k < max_order
      → Ends k
      → (size / 2 ^ k) % 2 ≡ 1
      → 0 < size % 2 ^ k
      → IsValid a
      → off % 2 ^ suc k ≡ 0
      → off + (2 ^ k + size % 2 ^ k) ≤ 2 ^ 24
      → InUse a off (2 ^ k + size % 2 ^ k)
      → Ready a (off + (2 ^ k + size % 2 ^ k) - 1) (suc k)
      → (c : BuddyAllocator) × (round (suc k) a off ≡ some c)
  inner_round k a off small ends odd more v here fits used (t, stock) =
      let above = below_bits size j k exact divides odd in
      let power : 1 ≤ 2 ^ k = one-le-pow k 2 (omega arith) in
      let rest : size % 2 ^ k < 2 ^ k = mod-lt size power in
      let (here', high) = aligned_halves off k (omega arith) here in
      let used' =
        InUse-part a off (2 ^ k + size % 2 ^ k) off (2 ^ k) (omega arith) (omega arith) used in
      let (b, freed, tells, spent) =
        single_ends a off k (off + (2 ^ k + size % 2 ^ k) - 1) j small
          (here, omega arith, omega (arith, double_pow k)) above t regions v (omega arith) used'
          (omega arith) in
      go_on k a b off small ends odd v here' fits used freed λ more. (tells, omega (arith, spent))

  pub loop-Ends : (k : ℕ) → k ≤ max_order → Ends k
  loop-Ends zero small a off v here fits used t = unfold shrink_orders in (a, refl)
  loop-Ends (suc k) small a off v here fits used t =
      let low = low_bits-suc size k (omega arith) in
      let (here', high) = aligned_halves off k (omega arith) here in
      elim (ℕ_discrete ((size / 2 ^ k) % 2) 0) [
        | yes even ↦
            let same : size % 2 ^ suc k ≡ size % 2 ^ k = omega (arith, rw even at low) in
            let (b, returns) =
              loop-Ends k (omega arith) a off v here' (rw same at fits) (rw same at used)
                (λ more. let (tells, stock) = rw same at t more in (tells, omega arith)) in
            (
              b,
              loop_skip objs_per_slab vm_alloc_block regions k a (address_of a off) size 0 even
                  ∙ returns,
            )
        | no odd ↦
            let one : (size / 2 ^ k) % 2 ≡ 1 = omega arith in
            let same : size % 2 ^ suc k ≡ 2 ^ k + size % 2 ^ k = omega (arith, rw one at low) in
            elim (ℕ_discrete (size % 2 ^ k) 0) [
              | yes nothing ↦
                  let whole : size % 2 ^ suc k ≡ 2 ^ k = omega arith in
                  last_round k a off small (loop-Ends k (omega arith)) one nothing v here'
                    (rw whole at fits) (rw whole at used)
                    (rw whole at t (one-le-pow k 2 (omega arith)))
              | no others ↦
                  inner_round k a off small (loop-Ends k (omega arith)) one (omega arith) v here
                    (rw same at fits) (rw same at used) (rw same at t (omega arith))
            ]
      ]

  -- The whole loop, from the order that the size rounds up to.
  top_ends :
      (o : ℕ) (a : BuddyAllocator) (off : ℕ)
      → o ≤ max_order
      → size ≤ 2 ^ o
      → 0 < size
      → size < 2 ^ max_order
      → IsValid a
      → off % 2 ^ o ≡ 0
      → off + size ≤ 2 ^ 24
      → InUse a off size
      → Ready a (off + size - 1) max_order
      → (b : BuddyAllocator) × (round (suc o) a off ≡ some b)
  top_ends o a off small enough pos partial v here fits used t = elim (dec_lt size (2 ^ o)) [
    | yes below ↦
        let same : size % 2 ^ o ≡ size = mod-eq_of_lt below in
        let even : (size / 2 ^ o) % 2 ≡ 0 = ap (λ (q : ℕ). q % 2) (div-eq_of_lt below) in
        let (b, returns) =
          loop-Ends o small a off v here (rw same fits) (rw same used)
            (λ more. (rw same (t.0), omega (arith, t.1))) in
        (
          b,
          loop_skip objs_per_slab vm_alloc_block regions o a (address_of a off) size 0 even
              ∙ returns,
        )
    | no not_below ↦
        let full : size ≡ 2 ^ o = omega arith in
        let power : 1 ≤ 2 ^ o = one-le-pow o 2 (omega arith) in
        let less : o < max_order = elim (ℕ_discrete o max_order) [
          | yes top ↦ absurd (omega (arith, ap (λ (e : ℕ). 2 ^ e) top))
          | no other ↦ omega arith
        ] in
        let whole : 1 * 2 ^ o + 0 ≡ size = omega arith in
        let quotient : size / 2 ^ o ≡ 1 = rw whole at (div_unique (2 ^ o) 1 0 power) in
        let remainder : size % 2 ^ o ≡ 0 = rw whole at (mod_unique (2 ^ o) 1 0 power) in
        last_round o a off less (loop-Ends o small) (rw quotient refl) remainder v here
          (rw full at fits) (rw full at used) (rw full at (t.0), omega (arith, t.1))
  ]

-- `phys_free` of a run of 1 to 127 pages in use, from a multiple of the power of two on that its
-- size rounds up to, within the 2^24 pages of the region's field, on a valid allocator whose cache
-- has at least 7 free entries. From an order `j` up, where `2 ^ j` divides the size, the pairs that
-- the last page of the run lies in have bits in the bitmap, and a bit that is on says that the
-- buddy is on the list of its order. Then the frees of the blocks end without an undefined access:
-- they leave a valid allocator with exactly the pages of the run freed, and the call returns what
-- `__freespace_check` makes of it.
pub phys_free-returns :
    (objs_per_slab : ℕ) (vm_alloc_block : BuddyAllocator → Option BuddyAllocator)
    (regions : List PhysmemRegion) (a : BuddyAllocator) (off size j : ℕ)
    → IsValid a
    → 0 < size
    → size < 2 ^ max_order
    → off % 2 ^ bit_order size ≡ 0
    → off + size ≤ 2 ^ 24
    → InUse a off size
    → j ≤ max_order
    → size % 2 ^ j ≡ 0
    → Tells a (off + size - 1) j
    → max_order ≤ a.total_free_objects
    → (b : BuddyAllocator) × (phys_free objs_per_slab vm_alloc_block regions a
          (address_of a off)
          size
        ≡ freespace_check objs_per_slab vm_alloc_block b)
      × Frees a off size b
unfolding phys_free phys_block_shrink
phys_free-returns objs vm regions a off size j v pos partial here fits used exact divides t stock =
    let (small, enough) = order-le-max size pos (omega arith) in
    let (b, returns) =
      top_ends objs vm regions size j exact divides (bit_order size) a off small enough pos partial
        v here fits used (t, stock) in
    let count : bit_order size + 1 ≡ suc (bit_order size) = omega arith in
    let all : off + 0 ≡ off = omega arith in
    let every : size - 0 ≡ size = omega arith in
    (
      b,
      rw (count, returns) refl,
      rw (all, every) at
          (top_lem objs vm regions size (bit_order size) a b off 0 small enough v here fits
            (omega arith) (rw (all, every) used) (λ keeps. absurd (omega arith)) returns),
    )
