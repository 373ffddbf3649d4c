-- ===== src/Math/Order.antt =====
-- `bit_order` of kernel/include/utility/math.h.
use native.Mathlib.Nat.{one-le-pow, pow-le-pow_right}
use learning_os.Base.{
  ℕ, zero, suc, ◌+◌, ◌-◌, ◌*◌, ◌^◌, ◌≤◌, ◌<◌, ◌≡◌, arith, leb, u8, ◌==◌, if◌then◌else◌, Bool-cases,
  inl, inr,
}
use native.Mathlib.Decide.{dec_le}
use learning_os.Base.Powers.{double_pow}
use learning_os.Math.{clz_from, bit_order}

pub le_of_pow-lt : (a b : ℕ) → 2 ^ a < 2 * 2 ^ b → a ≤ b
le_of_pow-lt a b h = elim (dec_le a b) [
  | yes p ↦ p
  | no p ↦
      let far : 2 ^ suc b ≤ 2 ^ a = pow-le-pow_right (omega arith) (omega arith) in
      absurd (omega (arith, double_pow b))
]

pub pow-lt_inv : (a b : ℕ) → 2 ^ a < 2 ^ b → a < b
pow-lt_inv a b h = elim (dec_le b a) [
  | yes p ↦ let far : 2 ^ b ≤ 2 ^ a = pow-le-pow_right (omega arith) p in absurd (omega arith)
  | no p ↦ omega arith
]

-- The highest one of `x` stands `clz` places below the top.
clz_from_bounds :
    (k x : ℕ)
    → 0 < x
    → x < 2 ^ k
    → (o : ℕ) × (suc (clz_from k x + o) ≡ k) × (2 ^ o ≤ x) × (x < 2 * 2 ^ o)
unfolding clz_from
clz_from_bounds zero x pos fits = absurd (omega arith)
clz_from_bounds (suc k) x pos fits = elim (Bool-cases (leb (2 ^ k) x)) [
  | inl big ↦ (k, rw big (omega arith), ground arith, omega (arith, double_pow k))
  | inr small ↦
      let (o, place, low, high) = clz_from_bounds k x pos (ground arith) in
      (o, rw small (omega arith), low, high)
]

least_order :
    (x o : ℕ)
    → 2 ^ o ≤ x
    → x < 2 * 2 ^ o
    → o < 32
    → (x ≤ 2 ^ (if x == 1 * 2 ^ o then o else u8 (o + 1)))
      × ((p : ℕ) → x ≤ 2 ^ p → (if x == 1 * 2 ^ o then o else u8 (o + 1)) ≤ p)
least_order x o low high small = elim (Bool-cases (x == 1 * 2 ^ o)) [
  | inl exact ↦
      rw exact (ground arith, λ p h. le_of_pow-lt o p (omega (arith, double_pow p, one-le-pow p 2)))
  | inr above ↦
      let strict : 2 ^ o < x = ground arith in
      let next : u8 (o + 1) ≡ suc o = omega arith in
      rw (above, next) (omega (arith, double_pow o), λ p h. pow-lt_inv o p (omega arith))
]

-- For `x` from 1 to 2^32 - 1, `bit_order` is the least order whose power of two reaches `x`.
pub bit_order_lem :
    (x : ℕ) → 0 < x → x < 2 ^ 32 → (x ≤ 2 ^ bit_order x) × ((o : ℕ) → x ≤ 2 ^ o → bit_order x ≤ o)
unfolding bit_order
bit_order_lem x pos fits =
    let (o, place, low, high) = clz_from_bounds 32 x pos fits in
    let at : u8 (31 - clz_from 32 x) ≡ o = omega arith in
    rw at (least_order x o low high (omega arith))
