-- ===== src/PhysAlloc/Runs.antt =====
-- Runs of pages that become free, and the calls of the buddy allocator that
-- kernel/src/mm/phys_alloc.c makes for their blocks.
use learning_os.Base.{
  ℕ, zero, suc, ◌+◌, ◌-◌, ◌*◌, ◌/◌, ◌%◌, ◌^◌, ◌≤◌, ◌<◌, ◌≡◌, refl, ◌∙◌, ap, sym, some, arith,
  eq_of_some, u64, ◌<<<◌, int_bit, List,
}
use native.Mathlib.Nat.{one-le-pow, mod-eq_of_lt}
use learning_os.Base.Powers.{pow-add}
use learning_os.BootMmap.{PhysmemRegion}
use learning_os.Buddy.Index.{max_order}
use learning_os.Buddy.Pages.{span, free_pages}
use learning_os.Buddy.State.{BuddyAllocator}
use learning_os.Buddy.Free.{buddy_free_block}
use learning_os.Buddy.Free.Pages.{offset_of}
use learning_os.Buddy.Shrink.{block_offset_of, buddy_shrink_block}
use learning_os.Buddy.Valid.{IsValid, InUse, free_block-IsValid, shrink_block-IsValid}
use learning_os.PhysAlloc.Alloc.{offset_of_address, block_offset_of_address}

abbrev pub address_of : BuddyAllocator → ℕ → ℕ
address_of a off = u64 (a.base_addr + (off <<< 12))

-- `a'` is valid, and is `a` with `n` more free pages from `off` on.
pub record Frees (a : BuddyAllocator) (off n : ℕ) (a' : BuddyAllocator) : Type 0 where
  pub valid : IsValid a'
  pub pages : (x : ℕ) → free_pages a'.freelists x ≡ free_pages a.freelists x + span off n x
  pub base : a'.base_addr ≡ a.base_addr

-- The low bits of a size, one bit at a time.
pub low_bits-suc : (n k : ℕ) → k ≤ max_order → n % 2 ^ suc k ≡ (n / 2 ^ k) % 2 * 2 ^ k + n % 2 ^ k
low_bits-suc n zero h = omega arith
low_bits-suc n (suc zero) h = omega arith
low_bits-suc n (suc (suc zero)) h = omega arith
low_bits-suc n (suc (suc (suc zero))) h = omega arith
low_bits-suc n (suc (suc (suc (suc zero)))) h = omega arith
low_bits-suc n (suc (suc (suc (suc (suc zero))))) h = omega arith
low_bits-suc n (suc (suc (suc (suc (suc (suc zero)))))) h = omega arith
low_bits-suc n (suc (suc (suc (suc (suc (suc (suc zero))))))) h = omega arith
low_bits-suc n (suc (suc (suc (suc (suc (suc (suc (suc o)))))))) h = absurd (omega arith)

pub next_address :
    (base off k : ℕ)
    → k ≤ max_order
    → u64 (u64 (base + (off <<< 12)) + int_bit (k + 12)) ≡ u64 (base + ((off + 2 ^ k) <<< 12))
next_address base off k small =
    let bit : int_bit (k + 12) ≡ 2 ^ k * 4096 =
      ap (λ (t : ℕ). 2 ^ t) (mod-eq_of_lt (omega arith)) ∙ pow-add k 12 in
    omega (arith, bit)

pub Frees-trans :
    {a b c : BuddyAllocator} (off n m : ℕ)
    → Frees a off n b
    → Frees b (off + n) m c
    → Frees a off (n + m) c
Frees-trans off n m h k = record {
  valid = k.valid;
  pages = λ x. ground (arith, h.pages x, k.pages x);
  base = k.base ∙ h.base;
}

module _ (a : BuddyAllocator) (off order : ℕ) (v : IsValid a) (small : order ≤ max_order)
    (here : off % 2 ^ order ≡ 0) (fits : off + 2 ^ order ≤ 2 ^ 24) where
  pub free_at :
      (regions : List PhysmemRegion) (a' : BuddyAllocator)
      → InUse a off (2 ^ order)
      → buddy_free_block regions a (address_of a off) order ≡ some a'
      → Frees a off (2 ^ order) a'
  free_at regions a' used h =
      let size : 1 ≤ 2 ^ order = one-le-pow order 2 (omega arith) in
      let at : offset_of a (address_of a off) ≡ off =
        offset_of_address a off v.base (omega arith) in
      let (valid, pages, counted, base) =
        free_block-IsValid regions a a' (address_of a off) order v
          (small, rw at here, rw at (omega arith)) (rw at fits) (rw at used) h in
      record { valid = valid; pages = rw at at pages; base = base }

  pub shrink_at :
      (a' : BuddyAllocator) (t : ℕ)
      → 0 < t
      → t ≤ 2 ^ order
      → InUse a (off + t) (2 ^ order - t)
      → order ≤ a.total_free_objects
      → buddy_shrink_block a (address_of a off) order t ≡ some a'
      → Frees a (off + t) (2 ^ order - t) a'
  shrink_at a' t pos le used stock h =
      let size : 1 ≤ 2 ^ order = one-le-pow order 2 (omega arith) in
      let at : block_offset_of a (address_of a off) order ≡ off =
        block_offset_of_address a off order v.base small (omega arith) here in
      let (b, left, shrunk, valid, pages, counted, power, at_most, exact, base, entries) =
        shrink_block-IsValid a (address_of a off) order t v small pos le (rw at fits) (rw at used)
          stock in
      let same : b ≡ a' = eq_of_some (sym shrunk ∙ h) in
      rw (← same) (record { valid = valid; pages = rw at at pages; base = base })

pub InUse-Frees :
    {a b : BuddyAllocator} (off n off' n' : ℕ)
    → Frees a off n b
    → off + n ≤ off'
    → InUse a off' n'
    → InUse b off' n'
InUse-Frees off n off' n' h apart used x lo hi = ground (arith, h.pages x, used x lo hi)

pub Frees-none : (a : BuddyAllocator) (off n : ℕ) → IsValid a → n ≡ 0 → Frees a off n a
Frees-none a off n v e = record { valid = v; pages = λ x. ground arith; base = refl }

pub Frees-cast :
    {a b : BuddyAllocator} (off n off' n' : ℕ)
    → off ≡ off'
    → n ≡ n'
    → Frees a off n b
    → Frees a off' n' b
Frees-cast off n off' n' e f h = record {
  valid = h.valid;
  pages = λ x. ground (arith, h.pages x);
  base = h.base;
}

pub InUse-part :
    (a : BuddyAllocator) (off n off' n' : ℕ)
    → off ≤ off'
    → off' + n' ≤ off + n
    → InUse a off n
    → InUse a off' n'
InUse-part a off n off' n' lo hi used x above below = used x (omega arith) (omega arith)
