-- ===== src/Math/Round.antt =====
-- Rounding in kernel/include/utility/math.h.
use native.Mathlib.Nat.{one-le-pow, mod-lt, pow-le-pow_right, div-add-mod'}
use learning_os.Base.{
  u64, ◌==◌, if◌then◌else◌, Bool-cases, inl, inr, not64, zero, suc, ℕ, ◌+◌, ◌-◌, ◌*◌, ◌/◌, ◌%◌, ◌^◌,
  ◌≤◌, ◌<◌, bit_and, ◌≡◌, arith,
}
use learning_os.Base.Bits.{bit_and_mask, bit_and_high}
use learning_os.Base.Powers.{double_pow}
use learning_os.Math.{mask_for_first_n_bits, round_up_shift_right, trunc_n_bits, aligndown}

pow-lt : (n : ℕ) → n < 64 → 2 ^ n ≤ 2 ^ 63
pow-lt n small = pow-le-pow_right {n = 2} (omega arith) {j = 63} (omega arith)

-- The complement of a mask of `n` bits keeps the multiple of `2^n` below.
pub high_bits : (x n : ℕ) → x < 2 ^ 64 → n < 64 → bit_and x (2 ^ 64 - 2 ^ n) ≡ x / 2 ^ n * 2 ^ n
high_bits x n fits small = bit_and_high 64 n x (omega arith) fits

not_mask : (n : ℕ) → n < 64 → not64 (mask_for_first_n_bits n) ≡ 2 ^ 64 - 2 ^ n
not_mask n small = omega (arith, one-le-pow n 2, pow-lt n small)

-- `trunc_n_bits` rounds a 64-bit number down to a multiple of `2^n`, for `n` below 64.
pub trunc_n_bits_lem : (x n : ℕ) → x < 2 ^ 64 → n < 64 → trunc_n_bits x n ≡ x / 2 ^ n * 2 ^ n
unfolding trunc_n_bits
trunc_n_bits_lem x n fits small = rw (not_mask n small) (high_bits x n fits small)

-- `aligndown` gives the start of the aligned block of `2^n` bytes that holds the 64-bit address,
-- for `n` below 64.
pub aligndown_lem : (ptr n : ℕ) → ptr < 2 ^ 64 → n < 64 → aligndown ptr n ≡ ptr / 2 ^ n * 2 ^ n
unfolding aligndown
aligndown_lem ptr n fits small = rw (not_mask n small) (high_bits ptr n fits small)

low_bits : (k x : ℕ) → bit_and x (1 * 2 ^ k - 1) ≡ x % 2 ^ k
low_bits k x = ground (arith, bit_and_mask k x)

two-le-pow : (k : ℕ) → 0 < k → 2 ≤ 2 ^ k
two-le-pow zero pos = absurd (omega arith)
two-le-pow (suc k) pos = omega (arith, double_pow k, one-le-pow k 2)

quotient_small : (x p : ℕ) → x < 2 ^ 64 → 2 ≤ p → x / p < 2 ^ 63
quotient_small x p fits two = grind arith

pub round_up_value :
    (x shift : ℕ)
    → x < 2 ^ 64
    → 0 < shift
    → round_up_shift_right x shift
      ≡ (if x % 2 ^ shift == 0 then x / 2 ^ shift else x / 2 ^ shift + 1)
unfolding round_up_shift_right
round_up_value x shift fits pos =
    let small : x / 2 ^ shift < 2 ^ 63 = quotient_small x (2 ^ shift) fits (two-le-pow shift pos) in
    let no_wrap : u64 (x / 2 ^ shift + 1) ≡ x / 2 ^ shift + 1 = omega arith in
    rw (low_bits shift x, no_wrap)

-- For a 64-bit `x` and a shift above 0, the result of `round_up_shift_right` is the least number
-- whose multiple of `2^shift` reaches `x`.
pub round_up_bounds :
    (x shift : ℕ)
    → x < 2 ^ 64
    → 0 < shift
    → (x ≤ round_up_shift_right x shift * 2 ^ shift)
      × (round_up_shift_right x shift * 2 ^ shift < x + 2 ^ shift)
round_up_bounds x shift fits pos =
    rw (round_up_value x shift fits pos) (elim (Bool-cases (x % 2 ^ shift == 0)) [
      | inl even ↦ rw even (ground (arith, div-add-mod' x (2 ^ shift), two-le-pow shift pos))
      | inr odd ↦ rw odd (
          ground
            (arith, div-add-mod' x (2 ^ shift), mod-lt x {m = 2 ^ shift}, two-le-pow shift pos))
    ])
