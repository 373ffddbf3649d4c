-- ===== src/Base/Bits/Parts.antt =====
-- The parts of `&` and `|`: the bits above a place, the bits below it, and a single bit.
use Prim.Native.Nat.{ℕ, zero, suc, ◌+◌, ◌*◌, ◌<◌, ◌≤◌, ◌/◌, ◌%◌, ◌^◌, bit_and, bit_or}
use mathlib.Core.Path.{◌≡◌}
use native.Mathlib.Omega.{arith}
use learning_os.Base.Powers.{double_pow, mul-double_pow, half_div, half_mod}
use learning_os.Base.Bits.{bit_and_step, bit_or_step, bit_and-zero, bit_or-zero}

pub bit_or-div : (k a b : ℕ) → bit_or a b / 2 ^ k ≡ bit_or (a / 2 ^ k) (b / 2 ^ k)
bit_or-div zero a b = ground arith
bit_or-div (suc k) a b = ground (
  arith,
  bit_or_step a b,
  half_div k a,
  half_div k b,
  half_div k (bit_or a b),
  bit_or-div k (a / 2) (b / 2),
)

pub bit_or-mod : (k a b : ℕ) → bit_or a b % 2 ^ k ≡ bit_or (a % 2 ^ k) (b % 2 ^ k)
bit_or-mod zero a b = ground (arith, bit_or-zero 0)
bit_or-mod (suc k) a b = ground (
  arith,
  bit_or_step a b,
  bit_or_step (a % 2 ^ suc k) (b % 2 ^ suc k),
  half_mod k a,
  half_mod k b,
  half_mod k (bit_or a b),
  bit_or-mod k (a / 2) (b / 2),
)

pub bit_and-div : (k a b : ℕ) → bit_and a b / 2 ^ k ≡ bit_and (a / 2 ^ k) (b / 2 ^ k)
bit_and-div zero a b = ground arith
bit_and-div (suc k) a b = ground (
  arith,
  bit_and_step a b,
  half_div k a,
  half_div k b,
  half_div k (bit_and a b),
  bit_and-div k (a / 2) (b / 2),
)

pub bit_and-mod : (k a b : ℕ) → bit_and a b % 2 ^ k ≡ bit_and (a % 2 ^ k) (b % 2 ^ k)
bit_and-mod zero a b = ground (arith, bit_and-zero 0)
bit_and-mod (suc k) a b = ground (
  arith,
  bit_and_step a b,
  bit_and_step (a % 2 ^ suc k) (b % 2 ^ suc k),
  half_mod k a,
  half_mod k b,
  half_mod k (bit_and a b),
  bit_and-mod k (a / 2) (b / 2),
)

-- The test of one bit.
pub bit_and-bit : (k a : ℕ) → bit_and a (2 ^ k) ≡ a / 2 ^ k % 2 * 2 ^ k
bit_and-bit zero a = omega (arith, bit_and_step a 1, bit_and-zero (a / 2))
bit_and-bit (suc k) a = ground (
  arith,
  bit_and_step a (2 ^ suc k),
  double_pow k,
  half_div k a,
  mul-double_pow k (a / 2 / 2 ^ k % 2),
  bit_and-bit k (a / 2),
)

zero_below : (bound a : ℕ) → a ≤ bound → bit_or 0 a ≡ a
zero_below zero a h = ground (arith, bit_or-zero 0)
zero_below (suc bound) a h =
    ground (arith, bit_or_step 0 a, bit_or-zero 0, zero_below bound (a / 2))

-- A field below the other one.
pub bit_or_below :
    (width high low : ℕ) → low < 2 ^ width → bit_or low (high * 2 ^ width) ≡ high * 2 ^ width + low
bit_or_below zero high low inside =
    let nothing : low ≡ 0 = omega arith in
    rw (nothing, zero_below (high * 2 ^ 0) (high * 2 ^ 0) (omega arith)) (omega arith)
bit_or_below (suc width) high low inside =
    let half = bit_or_below width high (low / 2) (omega (arith, double_pow width)) in
    ground (
      arith,
      half,
      bit_or_step low (high * 2 ^ suc width),
      double_pow width,
      mul-double_pow width high,
    )
