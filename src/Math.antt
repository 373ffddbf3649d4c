-- ===== src/Math.antt =====
-- kernel/include/utility/math.h: masks, rounding to powers of two, and the order of a size.
pub mod Round
pub mod Order
use learning_os.Base.{ℕ, zero, suc, ◌+◌, ◌-◌, ◌^◌, bit_and, bit_or, leb, ◌==◌, if◌then◌else◌}
use learning_os.Base.{u8, u64, not64, ◌<<<◌, ◌>>>◌}

-- `(1ul << n) - 1`, for n below 64
abbrev pub mask_for_first_n_bits : ℕ → ℕ
mask_for_first_n_bits n = (1 <<< n) - 1

unfoldable pub round_up_shift_right : ℕ → ℕ → ℕ
round_up_shift_right x shift =
    let shifted = x >>> shift in
    if bit_and x (mask_for_first_n_bits shift) == 0 then shifted else u64 (shifted + 1)

-- `__builtin_clz` of the compiler: the zeros above the highest one of `k` bits. At 0 the
-- compiler leaves the result undefined, and it is `k` here.
unfoldable pub clz_from : ℕ → ℕ → ℕ
clz_from zero x = 0
clz_from (suc k) x = if leb (2 ^ k) x then 0 else suc (clz_from k x)

-- The result is a `u8_t`.
unfoldable pub bit_order : ℕ → ℕ
unfolding clz_from
bit_order x =
    let leading_zeros = clz_from 32 x in
    let order = u8 (31 - leading_zeros) in if x == 1 <<< order then order else u8 (order + 1)

-- `cp` after the shift by `shift`
abbrev pub smear : ℕ → ℕ → ℕ
smear cp shift = bit_or cp (cp >>> shift)

unfoldable pub next_power_of_two : ℕ → ℕ
next_power_of_two x =
    let cp = smear (smear (smear (smear (smear (smear x 1) 2) 4) 8) 16) 32 in
    let next = u64 (cp + 1) in if next >>> 1 == x then x else next

unfoldable pub trunc_n_bits : ℕ → ℕ → ℕ
trunc_n_bits x n = bit_and x (not64 (mask_for_first_n_bits n))

unfoldable pub aligndown : ℕ → ℕ → ℕ
aligndown ptr align_order = bit_and ptr (not64 (mask_for_first_n_bits align_order))
