-- ===== src/PhysAlloc/Shrink.antt =====
-- The loop of `phys_block_shrink` of kernel/src/mm/phys_alloc.c, over the orders.
use learning_os.Base.{
  ℕ, zero, suc, ◌+◌, ◌-◌, ◌*◌, ◌/◌, ◌%◌, ◌^◌, ◌<◌, ◌≤◌, ◌≡◌, refl, ◌∙◌, ap, sym, subst, Option,
  some, arith, eq_of_some, >>=-eq-some, u64, ◌<<<◌, int_bit, List,
}
use native.Mathlib.Nat.{div-add-mod', one-le-pow, mod-eq_of_lt, div-eq_of_lt}
use native.Mathlib.Decide.{dec_lt, ℕ_discrete}
use learning_os.Base.Powers.{div_unique, mod_unique}
use learning_os.BootMmap.{PhysmemRegion}
use learning_os.Buddy.Index.{max_order}
use learning_os.Buddy.State.{BuddyAllocator}
use learning_os.Buddy.Free.{buddy_free_block}
use learning_os.Buddy.Shrink.{buddy_shrink_block}
use learning_os.Buddy.Valid.{IsValid, InUse}
use learning_os.Buddy.Aligned.{aligned_halves}
use learning_os.PhysAlloc.Runs.{
  Frees, Frees-trans, Frees-cast, Frees-none, InUse-Frees, InUse-part, address_of, free_at,
  shrink_at, low_bits-suc, next_address,
}
use learning_os.PhysAlloc.Rounds.{loop, loop_skip, loop_free, loop_shrink, loop_keep}
use learning_os.PhysAlloc.{shrink_orders}

pub next_aligned : (off k : ℕ) → off % 2 ^ k ≡ 0 → (off + 2 ^ k) % 2 ^ k ≡ 0
next_aligned off k here =
    let size : 1 ≤ 2 ^ k = one-le-pow k 2 (omega arith) in
    let parts : off + 2 ^ k ≡ (off / 2 ^ k + 1) * 2 ^ k + 0 =
      grind (arith, div-add-mod' off (2 ^ k)) in
    rw parts (mod_unique (2 ^ k) (off / 2 ^ k + 1) 0 size)

module _ (objs_per_slab : ℕ) (vm_alloc_block : BuddyAllocator → Option BuddyAllocator)
    (regions : List PhysmemRegion) (size : ℕ) where
  abbrev pub run : ℕ → BuddyAllocator → ℕ → ℕ → Option BuddyAllocator
  run k a off t = loop objs_per_slab vm_alloc_block regions k a (address_of a off) size t

  -- What the loop does below an order.
  abbrev Below : ℕ → Type 0
  Below k =
      (a a' : BuddyAllocator) (off t : ℕ)
      → IsValid a
      → off % 2 ^ k ≡ 0
      → off + size % 2 ^ k ≤ 2 ^ 24
      → t ≤ size % 2 ^ k
      → InUse a (off + t) (size % 2 ^ k - t)
      → (0 < t → k ≤ a.total_free_objects)
      → run k a off t ≡ some a'
      → Frees a (off + t) (size % 2 ^ k - t) a'

  -- The rest of the loop, behind the block of order `k` at `off` and with nothing left to keep.
  rest_lem :
      (k : ℕ) (a b a' : BuddyAllocator) (off t : ℕ)
      → k ≤ max_order
      → Below k
      → off % 2 ^ k ≡ 0
      → off + (2 ^ k + size % 2 ^ k) ≤ 2 ^ 24
      → t ≤ 2 ^ k
      → InUse a (off + t) (2 ^ k + size % 2 ^ k - t)
      → Frees a (off + t) (2 ^ k - t) b
      → loop objs_per_slab vm_alloc_block regions k b
          (u64 (address_of a off + int_bit (k + 12)))
          size
          0
        ≡ some a'
      → Frees a (off + t) (2 ^ k + size % 2 ^ k - t) a'
  rest_lem k a b a' off t small below here fits le used first h =
      let high = next_aligned off k here in
      let at : u64 (address_of a off + int_bit (k + 12)) ≡ address_of b (off + 2 ^ k) =
        next_address a.base_addr off k small
        ∙ ap (λ (s : ℕ). u64 (s + ((off + 2 ^ k) <<< 12))) (sym first.base) in
      let used_b : InUse b (off + 2 ^ k + 0) (size % 2 ^ k - 0) =
        InUse-Frees (off + t) (2 ^ k - t) (off + 2 ^ k + 0) (size % 2 ^ k - 0) first (omega arith) (
          InUse-part a (off + t) (2 ^ k + size % 2 ^ k - t) (off + 2 ^ k + 0) (size % 2 ^ k - 0)
            (omega arith) (omega arith) used) in
      let others =
        below b a' (off + 2 ^ k) 0 first.valid high (omega arith) (omega arith) used_b
          (λ keeps. absurd (omega arith)) (rw at at h) in
      Frees-cast (off + t) (2 ^ k - t + (size % 2 ^ k - 0)) (off + t) (2 ^ k + size % 2 ^ k - t)
        refl (omega arith)
        (Frees-trans (off + t) (2 ^ k - t) (size % 2 ^ k - 0) first (
          Frees-cast (off + 2 ^ k + 0) (size % 2 ^ k - 0) (off + t + (2 ^ k - t)) (size % 2 ^ k - 0)
            (omega arith) refl others))

  round_lem :
      (k : ℕ) (a a' : BuddyAllocator) (off t : ℕ)
      → k ≤ max_order
      → Below k
      → (size / 2 ^ k) % 2 ≡ 1
      → IsValid a
      → off % 2 ^ k ≡ 0
      → off + (2 ^ k + size % 2 ^ k) ≤ 2 ^ 24
      → t ≤ 2 ^ k + size % 2 ^ k
      → InUse a (off + t) (2 ^ k + size % 2 ^ k - t)
      → (0 < t → k ≤ a.total_free_objects)
      → run (suc k) a off t ≡ some a'
      → Frees a (off + t) (2 ^ k + size % 2 ^ k - t) a'
  round_lem k a a' off zero small below odd v here fits le used stock h =
      let high = next_aligned off k here in
      let h1 =
        sym (loop_free objs_per_slab vm_alloc_block regions k a (address_of a off) size odd) ∙ h in
      let (b, freed, h2) = >>=-eq-some (buddy_free_block regions a (address_of a off) k) _ h1 in
      let used' =
        InUse-part a (off + 0) (2 ^ k + size % 2 ^ k - 0) off (2 ^ k) (omega arith) (omega arith)
          used in
      let first = free_at a off k v small here (omega arith) regions b used' freed in
      rest_lem k a b a' off 0 small below here fits (omega arith) used
        (Frees-cast off (2 ^ k) (off + 0) (2 ^ k - 0) (omega arith) (omega arith) first) h2
  round_lem k a a' off (suc t) small below odd v here fits le used stock h =
      let high = next_aligned off k here in
      let bit : int_bit k ≡ 2 ^ k = ap (λ (e : ℕ). 2 ^ e) (mod-eq_of_lt (omega arith)) in
      elim (dec_lt (2 ^ k) (suc t)) [
        | yes above ↦
            let h1 =
              sym (
                loop_keep objs_per_slab vm_alloc_block regions k a (address_of a off) size (suc t)
                  odd (rw bit above))
              ∙ h in
            let used' : InUse a (off + 2 ^ k + (suc t - 2 ^ k)) (size % 2 ^ k - (suc t - 2 ^ k)) =
              InUse-part a (off + suc t) (2 ^ k + size % 2 ^ k - suc t)
                (off + 2 ^ k + (suc t - 2 ^ k)) (size % 2 ^ k - (suc t - 2 ^ k)) (omega arith)
                (omega arith) used in
            Frees-cast (off + 2 ^ k + (suc t - 2 ^ k)) (size % 2 ^ k - (suc t - 2 ^ k))
              (off + suc t) (2 ^ k + size % 2 ^ k - suc t) (omega arith) (omega arith)
              (below a a' (off + 2 ^ k) (suc t - 2 ^ k) v high (omega arith) (omega arith) used'
                (λ keeps. stock (omega arith))
                (rw (next_address a.base_addr off k small, bit) at h1))
        | no within ↦
            let le' : suc t ≤ 2 ^ k = omega arith in
            let h1 =
              sym (
                loop_shrink objs_per_slab vm_alloc_block regions k a (address_of a off) size (suc t)
                  odd (omega arith) (rw bit le'))
              ∙ h in
            let (b, shrunk, h2) =
              >>=-eq-some (buddy_shrink_block a (address_of a off) k (suc t)) _ h1 in
            let used' =
              InUse-part a (off + suc t) (2 ^ k + size % 2 ^ k - suc t) (off + suc t)
                (2 ^ k - suc t) (omega arith) (omega arith) used in
            rest_lem k a b a' off (suc t) small below here fits le' used
              (shrink_at a off k v small here (omega arith) b (suc t) (omega arith) le' used'
                (stock (omega arith)) shrunk)
              h2
      ]

  loop_lem : (k : ℕ) → k ≤ 8 → Below k
  loop_lem zero small a a' off t v here fits le used stock h =
      let done : shrink_orders objs_per_slab vm_alloc_block regions 0 a (address_of a off) size t
          ≡ some a =
        unfold shrink_orders in refl in
      subst (Frees a (off + t) (size % 2 ^ 0 - t)) (eq_of_some (sym done ∙ h))
        (Frees-none a (off + t) (size % 2 ^ 0 - t) v (omega arith))
  loop_lem (suc k) small a a' off t v here fits le used stock h =
      let low = low_bits-suc size k (omega arith) in
      elim (ℕ_discrete ((size / 2 ^ k) % 2) 0) [
        | yes even ↦
            let same : size % 2 ^ suc k ≡ size % 2 ^ k = omega (arith, rw even at low) in
            let (here', high) = aligned_halves off k (omega arith) here in
            rw same (
              loop_lem k (omega arith) a a' off t v here' (rw same at fits) (rw same at le)
                (rw same at used) (λ keeps. omega (arith, stock keeps))
                (sym (
                    loop_skip objs_per_slab vm_alloc_block regions k a (address_of a off) size t
                      even)
                  ∙ h))
        | no odd ↦
            let one : (size / 2 ^ k) % 2 ≡ 1 = omega arith in
            let same : size % 2 ^ suc k ≡ 2 ^ k + size % 2 ^ k = omega (arith, rw one at low) in
            let (here', high) = aligned_halves off k (omega arith) here in
            rw same (
              round_lem k a a' off t (omega arith) (loop_lem k (omega arith)) one v here'
                (rw same at fits) (rw same at le) (rw same at used)
                (λ keeps. omega (arith, stock keeps)) h)
      ]

  -- The whole loop, from the order that the size rounds up to.
  pub top_lem :
      (o : ℕ) (a a' : BuddyAllocator) (off t : ℕ)
      → o ≤ max_order
      → size ≤ 2 ^ o
      → IsValid a
      → off % 2 ^ o ≡ 0
      → off + size ≤ 2 ^ 24
      → t ≤ size
      → InUse a (off + t) (size - t)
      → (0 < t → o ≤ a.total_free_objects)
      → run (suc o) a off t ≡ some a'
      → Frees a (off + t) (size - t) a'
  top_lem o a a' off t small enough v here fits le used stock h = elim (dec_lt size (2 ^ o)) [
    | yes below ↦
        let same : size % 2 ^ o ≡ size = mod-eq_of_lt below in
        let even : (size / 2 ^ o) % 2 ≡ 0 = ap (λ (q : ℕ). q % 2) (div-eq_of_lt below) in
        rw same at (
          loop_lem o (omega arith) a a' off t v here (rw (← same) at fits) (rw (← same) at le)
            (rw (← same) at used) stock
            (sym (loop_skip objs_per_slab vm_alloc_block regions o a (address_of a off) size t even)
              ∙ h))
    | no not_below ↦
        let full : size ≡ 2 ^ o = omega arith in
        let pos : 1 ≤ 2 ^ o = one-le-pow o 2 (omega arith) in
        let whole : 1 * 2 ^ o + 0 ≡ 2 ^ o = omega arith in
        let quotient : 2 ^ o / 2 ^ o ≡ 1 = rw whole at (div_unique (2 ^ o) 1 0 pos) in
        let remainder : 2 ^ o % 2 ^ o ≡ 0 = rw whole at (mod_unique (2 ^ o) 1 0 pos) in
        let odd : (size / 2 ^ o) % 2 ≡ 1 = rw (full, quotient) refl in
        let same : 2 ^ o + size % 2 ^ o ≡ size = rw (full, remainder) (omega arith) in
        rw same at (
          round_lem o a a' off t small (loop_lem o (omega arith)) odd v here (rw (← same) at fits)
            (rw (← same) at le) (rw (← same) at used) stock h)
  ]
