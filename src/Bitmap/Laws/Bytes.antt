-- ===== src/Bitmap/Laws/Bytes.antt =====
-- Setting, clearing and testing a bit of one byte, decided for every byte.
use learning_os.Base.{
  ℕ, ◌<◌, ◌≤◌, bit_and, bit_or, ◌≡◌, refl, Bool, true, false, ◌==◌, ==_iff, if◌then◌else◌, u8,
  not32, int_bit, ◌>>>◌, ◌*◌, ◌%◌, arith,
}
use native.Mathlib.Nat.{one-le-pow}
use learning_os.Base.Bits.{bit_and_mask}
use learning_os.Base.Tables.{holds_below-at, holds_below, places_table, places_sound}

abbrev pub bit_at : ℕ → ℕ → ℕ
bit_at byte l = bit_and (byte >>> l) 1

abbrev pub turn_on : ℕ → ℕ → ℕ
turn_on byte k = u8 (bit_or byte (int_bit k))

abbrev pub turn_off : ℕ → ℕ → ℕ
turn_off byte k = u8 (bit_and byte (not32 (int_bit k)))

abbrev on_test : ℕ → ℕ → ℕ → Bool
on_test b k l = bit_at (turn_on b k) l == (if l == k then 1 else bit_at b l)

abbrev off_test : ℕ → ℕ → ℕ → Bool
off_test b k l = bit_at (turn_off b k) l == (if l == k then 0 else bit_at b l)

abbrev mask_test : ℕ → ℕ → ℕ → Bool
mask_test b k l = bit_and b (int_bit k) == int_bit k * bit_at b k

on_table : places_table on_test ≡ true
unfolding holds_below
on_table = refl

off_table : places_table off_test ≡ true
unfolding holds_below
off_table = refl

mask_table : places_table mask_test ≡ true
unfolding holds_below
mask_table = refl

module _ (byte k l : ℕ) (is_byte : byte < 256) (hk : k < 8) (hl : l < 8) where
  pub bit_at-turn_on : bit_at (turn_on byte k) l ≡ (if l == k then 1 else bit_at byte l)
  bit_at-turn_on = (==_iff _ _).0 (places_sound on_test byte k l on_table is_byte hk hl)

  pub bit_at-turn_off : bit_at (turn_off byte k) l ≡ (if l == k then 0 else bit_at byte l)
  bit_at-turn_off = (==_iff _ _).0 (places_sound off_test byte k l off_table is_byte hk hl)

-- The mask of one bit is zero exactly when the bit is.
pub bit_and-int_bit :
    (byte k : ℕ) → byte < 256 → k < 8 → bit_and byte (int_bit k) ≡ int_bit k * bit_at byte k
bit_and-int_bit byte k is_byte hk =
    (==_iff _ _).0 (places_sound mask_test byte k 0 mask_table is_byte hk (omega arith))

u8_test : ℕ → Bool
u8_test k = u8 (int_bit k) == int_bit k

u8_table : holds_below 8 u8_test ≡ true
unfolding holds_below u8_test
u8_table = refl

pub int_bit-u8 : (k : ℕ) → k < 8 → u8 (int_bit k) ≡ int_bit k
unfolding u8_test
int_bit-u8 k hk = (==_iff _ _).0 (holds_below-at 8 u8_test k u8_table hk)

pub bit_at-le : (byte k : ℕ) → bit_at byte k ≤ 1
bit_at-le byte k = ground (arith, bit_and_mask 1 (byte >>> k))

pub int_bit-pos : (k : ℕ) → 0 < int_bit k
int_bit-pos k = one-le-pow (k % 32) 2 (omega arith)

-- The test of a mask of one bit is the test of the bit.
pub mask_zero :
    (byte k : ℕ) → byte < 256 → k < 8 → (bit_and byte (int_bit k) == 0) ≡ true → bit_at byte k ≡ 0
mask_zero byte k is_byte hk h =
    grind (arith, bit_and-int_bit byte k is_byte hk, int_bit-pos k, bit_at-le byte k)

pub mask_one :
    (byte k : ℕ) → byte < 256 → k < 8 → (bit_and byte (int_bit k) == 0) ≡ false → bit_at byte k ≡ 1
mask_one byte k is_byte hk h =
    grind (arith, bit_and-int_bit byte k is_byte hk, int_bit-pos k, bit_at-le byte k)
