-- ===== src/Base/Bits.antt =====
-- `&` and `|` with masks and with single bits, as arithmetic at every width.
pub mod Parts
use Prim.Native.Nat.{
  ℕ, zero, suc, ◌+◌, ◌-◌, ◌*◌, ◌/◌, ◌%◌, ◌^◌, ◌≤◌, ◌<◌, min, max, bit_and, bit_or,
}
use Prim.Native.Nat.{digits, bit_and-bitwise, bit_or-bitwise}
use mathlib.Core.Path.{◌≡◌, refl, ◌∙◌}
use native.Mathlib.Decide.{dec_le}
use native.Mathlib.Nat.{one-le-pow, mod-eq_of_lt}
use learning_os.Base.Powers.{double_pow, mul-double_pow, half_div, half_mod}
use native.Mathlib.Omega.{arith}

-- The recursion behind the native operations takes one round for each digit: fuel of the size of
-- the number is enough, and more of it changes nothing.
module _ (rest : ℕ → ℕ) (join : ℕ → ℕ → ℕ) where
  one_more_round :
      (fuel x y : ℕ) → x ≤ fuel → digits rest join (suc fuel) x y ≡ digits rest join fuel x y
  one_more_round zero zero y enough = refl
  one_more_round zero (suc x) y enough = absurd (omega arith)
  one_more_round (suc fuel) zero y enough = refl
  one_more_round (suc fuel) (suc x) y enough =
      omega (arith, one_more_round fuel (suc x / 2) (y / 2) (omega arith))

  more_rounds :
      (fuel least x y : ℕ)
      → least ≤ fuel
      → x ≤ least
      → digits rest join fuel x y ≡ digits rest join least x y
  more_rounds zero least x y le enough = let none : least ≡ 0 = omega arith in rw none
  more_rounds (suc fuel) least x y le enough = elim (dec_le least fuel) [
    | yes below ↦ one_more_round fuel x y (omega arith) ∙ more_rounds fuel least x y below enough
    | no above ↦ let same : least ≡ suc fuel = omega arith in rw same
  ]

pub bit_and_step : (x y : ℕ) → bit_and x y ≡ 2 * bit_and (x / 2) (y / 2) + min (x % 2) (y % 2)
bit_and_step zero y = omega (arith, bit_and-bitwise 0 y, bit_and-bitwise 0 (y / 2))
bit_and_step (suc x) y =
    let halves =
      more_rounds (λ c. 0) min x (suc x / 2) (suc x / 2) (y / 2) (omega arith) (omega arith) in
    omega (arith, halves, bit_and-bitwise (suc x / 2) (y / 2), bit_and-bitwise (suc x) y)

pub bit_or_step : (x y : ℕ) → bit_or x y ≡ 2 * bit_or (x / 2) (y / 2) + max (x % 2) (y % 2)
bit_or_step zero y = omega (arith, bit_or-bitwise 0 y, bit_or-bitwise 0 (y / 2))
bit_or_step (suc x) y =
    let halves =
      more_rounds (λ c. c) max x (suc x / 2) (suc x / 2) (y / 2) (omega arith) (omega arith) in
    omega (arith, halves, bit_or-bitwise (suc x / 2) (y / 2), bit_or-bitwise (suc x) y)

-- `&` and `|` with 0.
zero_right : (bound a : ℕ) → a ≤ bound → (bit_and a 0 ≡ 0) × (bit_or a 0 ≡ a)
zero_right bound zero le = (refl, refl)
zero_right zero (suc a) le = absurd (omega arith)
zero_right (suc bound) (suc a) le =
    let (and_half, or_half) = zero_right bound (suc a / 2) (omega arith) in
    (omega (arith, bit_and_step (suc a) 0), omega (arith, bit_or_step (suc a) 0))

pub bit_and-zero : (a : ℕ) → bit_and a 0 ≡ 0
bit_and-zero a = (zero_right a a (omega arith)).0

pub bit_or-zero : (a : ℕ) → bit_or a 0 ≡ a
bit_or-zero a = (zero_right a a (omega arith)).1

-- `a & (2^k - 1)` is the remainder by `2^k`.
pub bit_and_mask : (k a : ℕ) → bit_and a (2 ^ k - 1) ≡ a % 2 ^ k
bit_and_mask zero a = omega (arith, bit_and-zero a)
bit_and_mask (suc k) a = ground (
  arith,
  bit_and_step a (2 ^ suc k - 1),
  double_pow k,
  one-le-pow k 2,
  bit_and_mask k (a / 2),
  half_mod k a,
)

-- The complement of a low mask clears the low bits.
pub bit_and_high : (w k a : ℕ) → k ≤ w → a < 2 ^ w → bit_and a (2 ^ w - 2 ^ k) ≡ a / 2 ^ k * 2 ^ k
bit_and_high w zero a kw aw = ground (arith, bit_and_mask w a, mod-eq_of_lt aw)
bit_and_high zero (suc k) a kw aw = absurd (omega arith)
bit_and_high (suc w) (suc k) a kw aw = ground (
  arith,
  bit_and_step a (2 ^ suc w - 2 ^ suc k),
  double_pow k,
  double_pow w,
  half_div k a,
  mul-double_pow k (a / 2 / 2 ^ k),
  bit_and_high w k (a / 2) (omega arith) (omega (arith, double_pow w)),
)

-- `|` of numbers with the same low zeros.
pub bit_or_shifted : (k a b : ℕ) → bit_or (a * 2 ^ k) (b * 2 ^ k) ≡ bit_or a b * 2 ^ k
bit_or_shifted zero a b = ground arith
bit_or_shifted (suc k) a b = ground (
  arith,
  bit_or_step (a * 2 ^ suc k) (b * 2 ^ suc k),
  mul-double_pow k a,
  mul-double_pow k b,
  mul-double_pow k (bit_or a b),
  bit_or_shifted k a b,
)

-- `|` of disjoint fields is a sum.
pub bit_or_fields :
    (width high low : ℕ) → low < 2 ^ width → bit_or (high * 2 ^ width) low ≡ high * 2 ^ width + low
bit_or_fields zero high low inside = ground (arith, bit_or-zero high)
bit_or_fields (suc width) high low inside =
    let half = bit_or_fields width high (low / 2) (omega (arith, double_pow width)) in
    ground (
      arith,
      half,
      bit_or_step (high * 2 ^ suc width) low,
      double_pow width,
      mul-double_pow width high,
    )

-- Turning the lowest bit on.
pub bit_or-one : (a : ℕ) → bit_or a 1 ≡ a / 2 * 2 + 1
bit_or-one a = omega (arith, bit_or_step a 1, bit_or-zero (a / 2))
