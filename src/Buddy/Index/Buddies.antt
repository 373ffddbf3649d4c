-- ===== src/Buddy/Index/Buddies.antt =====
-- The buddy of a block, by `__buddy_page_offset` of kernel/src/mm/buddy_alloc.c.
use native.Mathlib.Nat.{mod-eq_of_lt}
use learning_os.Base.{
  ℕ, zero, suc, ◌+◌, ◌-◌, ◌*◌, ◌%◌, ◌^◌, ◌≤◌, ◌≡◌, ◌<◌, arith, bit_and, ap, sym, ◌∙◌, min, ◌==◌,
  ltb, ltb→lt, false, Bool-cases, inl, inr, if◌then◌else◌,
}
use learning_os.Base.Bits.{bit_and_mask}
use learning_os.Base.Powers.{double_pow}
use learning_os.Buddy.Index.{max_order, buddy_page_offset}

-- The subtraction does not wrap for an aligned block.
pub buddy_page_offset_value :
    (off order : ℕ)
    → order ≤ max_order
    → off % 2 ^ order ≡ 0
    → buddy_page_offset off order
      ≡ (if off % 2 ^ suc order == 0 then off + 2 ^ order else off - 2 ^ order)
unfolding buddy_page_offset
buddy_page_offset_value off order h a =
    let mask : bit_and off (1 * 2 ^ (order + 1) - 1) ≡ off % 2 ^ suc order =
      ground (arith, bit_and_mask (suc order) off) in
    let bit : 2 ^ (order % 32) ≡ 2 ^ order = ap (λ (t : ℕ). 2 ^ t) (mod-eq_of_lt (omega arith)) in
    rw (mask, bit)
      (elim (Bool-cases (off % 2 ^ suc order == 0)) [
        | inl even ↦ rw even
        | inr odd ↦
            let above : ltb off (2 ^ order) ≡ false = elim (Bool-cases (ltb off (2 ^ order))) [
              | inr no_wrap ↦ no_wrap
              | inl below ↦
                  let small : off < 2 ^ order = ltb→lt off (2 ^ order) below in
                  let nothing : off ≡ 0 = sym (mod-eq_of_lt small) ∙ a in
                  let whole : off % 2 ^ suc order ≡ off =
                    mod-eq_of_lt (omega (arith, double_pow order)) in
                  absurd (ground arith)
            ] in
            rw (odd, above)
      ])

-- Of an aligned block, the buddy is the other half of the aligned block of twice the size.
abbrev pub Buddies : ℕ → ℕ → ℕ → Type 0
Buddies off buddy order =
    (min off buddy % 2 ^ suc order ≡ 0) × (off + buddy ≡ 2 * min off buddy + 2 ^ order)

buddies :
    (off order : ℕ)
    → order ≤ max_order
    → off % 2 ^ order ≡ 0
    → Buddies off (if off % 2 ^ suc order == 0 then off + 2 ^ order else off - 2 ^ order) order
buddies off zero h a = ground arith
buddies off (suc zero) h a = ground arith
buddies off (suc (suc zero)) h a = ground arith
buddies off (suc (suc (suc zero))) h a = ground arith
buddies off (suc (suc (suc (suc zero)))) h a = ground arith
buddies off (suc (suc (suc (suc (suc zero))))) h a = ground arith
buddies off (suc (suc (suc (suc (suc (suc zero)))))) h a = ground arith
buddies off (suc (suc (suc (suc (suc (suc (suc zero))))))) h a = ground arith
buddies off (suc (suc (suc (suc (suc (suc (suc (suc o)))))))) h a = absurd (omega arith)

-- For an aligned block of an order up to 7, `__buddy_page_offset` gives the other half of the
-- aligned block of twice the size.
pub Buddies-buddy_page_offset :
    (off order : ℕ)
    → order ≤ max_order
    → off % 2 ^ order ≡ 0
    → Buddies off (buddy_page_offset off order) order
Buddies-buddy_page_offset off order h a =
    rw (buddy_page_offset_value off order h a) (buddies off order h a)
