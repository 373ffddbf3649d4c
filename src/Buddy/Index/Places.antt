-- ===== src/Buddy/Index/Places.antt =====
-- Every pair of buddies has a place of its own in the bitmap.
use native.Mathlib.Nat.{div-div-eq-div-mul, pow-suc, one-le-pow, mod-eq_of_lt}
use learning_os.Base.{
  ℕ, zero, suc, ◌+◌, ◌-◌, ◌*◌, ◌/◌, ◌%◌, ◌^◌, ◌≤◌, ◌<◌, ◌≡◌, arith, bit_and, bit_or, not64, ap, sym,
  ◌∙◌, refl, true, ◌↔◌, Bool, ltb, ltb→lt, ==_iff, and_parts, ◌&&◌, ◌==◌, if◌then◌else◌,
}
use learning_os.Base.Powers.{mul-double_pow}
use learning_os.Base.Tables.{holds_below, holds_below-at}
use learning_os.Base.Bits.{bit_and_mask, bit_or_shifted, bit_or-one}
use learning_os.Math.Round.{round_up_bounds, trunc_n_bits_lem}
use learning_os.Math.{trunc_n_bits}
use learning_os.Buddy.Index.{max_order, buddy_bmp_index_of, buddy_bmp_size_bits}

-- `(x & ~(2^k - 1)) | 2^k` keeps the bits above `k`, sets bit `k` and clears those below.
set_place : (x k : ℕ) → bit_or (x / 2 ^ k * 2 ^ k) (2 ^ k) ≡ x / 2 ^ suc k * 2 ^ suc k + 2 ^ k
set_place x k = omega (
  arith,
  ap (λ (t : ℕ). bit_or (x / 2 ^ k * 2 ^ k) t) one_mul,
  bit_or_shifted k (x / 2 ^ k) 1,
  ap (λ (t : ℕ). t * 2 ^ k) (bit_or-one (x / 2 ^ k)),
  ap (λ (t : ℕ). t * 2 ^ k) (div-div-eq-div-mul x (2 ^ k) 2),
  ap (λ (t : ℕ). x / t * 2 ^ k) (pow-suc 2 k),
  mul-double_pow k (x / 2 ^ suc k),
)
  where
    one_mul : 2 ^ k ≡ 1 * 2 ^ k
    one_mul = omega arith

-- Where a pair stands among the pairs of its block of 256 pages, counted from 1.
abbrev pub place : ℕ → ℕ → ℕ
place r order = r / 2 ^ suc order * 2 ^ suc order + 2 ^ order

pub index_lem :
    (off order : ℕ)
    → order ≤ max_order
    → buddy_bmp_index_of off order + 1 ≡ off / 256 * 255 + place (off % 256) order
unfolding buddy_bmp_index_of
index_lem off order small =
    let low : bit_and off 255 ≡ off % 256 = bit_and_mask 8 off in
    let high : bit_and (off % 256) (not64 (1 * 2 ^ order - 1)) ≡ off % 256 / 2 ^ order * 2 ^ order =
      unfold trunc_n_bits in trunc_n_bits_lem (off % 256) order (omega arith) (omega arith) in
    let bit : 2 ^ (order % 32) ≡ 2 ^ order = ap (λ (t : ℕ). 2 ^ t) (mod-eq_of_lt (omega arith)) in
    rw (low, high, bit, set_place (off % 256) order) (omega (arith, one-le-pow order 2))

abbrev trailing_zeros : ℕ → ℕ → ℕ
trailing_zeros zero n = 0
trailing_zeros (suc k) n = if n % 2 == 0 then suc (trailing_zeros k (n / 2)) else 0

abbrev place_test : ℕ → ℕ → Bool
place_test r o = (trailing_zeros 8 (place r o) == o) && ltb (place r o) 256

place_table : holds_below 256 (λ s. holds_below 8 (λ o. place_test s o)) ≡ true
unfolding holds_below
place_table = refl

place_facts :
    (r order : ℕ)
    → r < 256
    → order ≤ max_order
    → (trailing_zeros 8 (place r order) ≡ order) × (place r order < 256)
place_facts r order hr ho =
    let row = holds_below-at 256 (λ s. holds_below 8 (λ o. place_test s o)) r place_table hr in
    let cell = holds_below-at 8 (λ o. place_test r o) order row (omega arith) in
    let (zeros, below) =
      and_parts (trailing_zeros 8 (place r order) == order) (ltb (place r order) 256) cell in
    ((==_iff (trailing_zeros 8 (place r order)) order).0 zeros, ltb→lt (place r order) 256 below)

place-pos : (r order : ℕ) → 0 < place r order
place-pos r order = omega (arith, one-le-pow order 2)

abbrev full_place : ℕ → ℕ → ℕ
full_place off order = off / 256 * 255 + place (off % 256) order

-- At one order, the place tells the pairs apart.
same_pair :
    (off off' order : ℕ)
    → order ≤ max_order
    → (full_place off order ≡ full_place off' order) ↔ (off / 2 ^ suc order ≡ off' / 2 ^ suc order)
same_pair off off' zero h = omega arith
same_pair off off' (suc zero) h = omega arith
same_pair off off' (suc (suc zero)) h = omega arith
same_pair off off' (suc (suc (suc zero))) h = omega arith
same_pair off off' (suc (suc (suc (suc zero)))) h = omega arith
same_pair off off' (suc (suc (suc (suc (suc zero))))) h = omega arith
same_pair off off' (suc (suc (suc (suc (suc (suc zero)))))) h = omega arith
same_pair off off' (suc (suc (suc (suc (suc (suc (suc zero))))))) h = omega arith
same_pair off off' (suc (suc (suc (suc (suc (suc (suc (suc o)))))))) h = absurd (omega arith)

same_order :
    (off off' o o' : ℕ)
    → o ≤ max_order
    → o' ≤ max_order
    → full_place off o ≡ full_place off' o'
    → o ≡ o'
same_order off off' o o' h h' e =
    let (zeros, below) = place_facts (off % 256) o (omega arith) h in
    let (zeros', below') = place_facts (off' % 256) o' (omega arith) h' in
    let same : place (off % 256) o ≡ place (off' % 256) o' =
      omega (arith, place-pos (off % 256) o, place-pos (off' % 256) o') in
    sym zeros ∙ ap (trailing_zeros 8) same ∙ zeros'

-- Two blocks of orders up to 7 have the same bit in the bitmap exactly when they have the same
-- order and lie in the same pair of buddies.
pub index_iff :
    (off off' o o' : ℕ)
    → o ≤ max_order
    → o' ≤ max_order
    → (buddy_bmp_index_of off o ≡ buddy_bmp_index_of off' o')
      ↔ ((o ≡ o') × (off / 2 ^ suc o ≡ off' / 2 ^ suc o))
index_iff off off' o o' h h' = (
  λ e.
      let places : full_place off o ≡ full_place off' o' =
        omega (arith, index_lem off o h, index_lem off' o' h') in
      let orders : o ≡ o' = same_order off off' o o' h h' places in
      (orders, (same_pair off off' o h).0 (places ∙ ap (full_place off') (sym orders))),
  λ (orders, pair).
      let places : full_place off o ≡ full_place off' o' =
        (same_pair off off' o h).1 pair ∙ ap (full_place off') orders in
      omega (arith, index_lem off o h, index_lem off' o' h'),
)

-- The bitmap of a region of fewer than 2^64 pages has room for the bit of every pair of an order
-- up to 7 that a page of the region lies in.
pub index-lt-size :
    (off num_pages order : ℕ)
    → num_pages < 2 ^ 64
    → off < num_pages
    → order ≤ max_order
    → buddy_bmp_index_of off order < buddy_bmp_size_bits num_pages
unfolding buddy_bmp_size_bits
index-lt-size off num_pages order fits inside small =
    let (zeros, below) = place_facts (off % 256) order (omega arith) small in
    omega (
      arith,
      index_lem off order small,
      place-pos (off % 256) order,
      round_up_bounds num_pages 8 fits (omega arith),
    )
