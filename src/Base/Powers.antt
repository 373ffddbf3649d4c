-- ===== src/Base/Powers.antt =====
-- Division and remainder by powers of two.
use Prim.Native.Nat.{ℕ, zero, suc, ◌+◌, ◌*◌, ◌/◌, ◌%◌, ◌^◌, ◌<◌}
use mathlib.Core.Path.{◌≡◌, ap, sym, ◌∙◌}
use native.Mathlib.Nat.{pow-suc, div-div-eq-div-mul, div-add-mod'}
use native.Mathlib.Omega.{arith}

pub double_pow : (k : ℕ) → 2 ^ suc k ≡ 2 * 2 ^ k
double_pow k = omega (arith, pow-suc 2 k)

pub mul-double_pow : (k q : ℕ) → q * 2 ^ suc k ≡ 2 * (q * 2 ^ k)
mul-double_pow k q = omega (arith, ap (λ (t : ℕ). q * t) (double_pow k))

pub half_div : (k a : ℕ) → a / 2 ^ suc k ≡ a / 2 / 2 ^ k
half_div k a = ap (λ (t : ℕ). a / t) (double_pow k) ∙ sym (div-div-eq-div-mul a 2 (2 ^ k))

pub half_mod : (k a : ℕ) → a % 2 ^ suc k ≡ a / 2 % 2 ^ k * 2 + a % 2
half_mod k a = omega (
  arith,
  div-add-mod' a (2 ^ suc k),
  div-add-mod' (a / 2) (2 ^ k),
  mul-double_pow k (a / 2 / 2 ^ k),
  ap (λ (t : ℕ). t * 2 ^ suc k) (half_div k a),
)

pub pow-add : (k l : ℕ) → 2 ^ (k + l) ≡ 2 ^ k * 2 ^ l
pow-add zero l = omega (arith, ap (λ (t : ℕ). 2 ^ t) zero_add)
  where
    zero_add : 0 + l ≡ l
    zero_add = omega arith
pow-add (suc k) l = omega (
  arith,
  ap (λ (t : ℕ). 2 ^ t) shift,
  double_pow (k + l),
  pow-add k l,
  ap (λ (t : ℕ). t * 2 ^ l) (double_pow k),
)
  where
    shift : suc k + l ≡ suc (k + l)
    shift = omega arith

-- A number is its quotient and its remainder, and both are fixed by that.
pub div_unique : (m q r : ℕ) → r < m → (q * m + r) / m ≡ q
div_unique m q r h = grind arith

pub mod_unique : (m q r : ℕ) → r < m → (q * m + r) % m ≡ r
mod_unique m q r h =
    omega (arith, div-add-mod' (q * m + r) m, ap (λ (t : ℕ). t * m) (div_unique m q r h))
