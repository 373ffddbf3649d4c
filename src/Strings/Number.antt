-- ===== src/Strings/Number.antt =====
-- The conversions between numbers and text of kernel/src/utility/strings.c. An `s64_t` is its 64
-- bits, so that from 2^63 on it stands for a negative number.
use learning_os.Base.{
  ℕ, zero, suc, ◌+◌, ◌-◌, ◌*◌, ◌/◌, ◌%◌, ◌^◌, Bool, true, false, ◌&&◌, Option, none, some, ltb, leb,
  ◌==◌, if◌then◌else◌, ◌>>=◌, Mem, store, u8, u64, sub64,
}
use learning_os.Strings.{reverse, rjust}

abbrev pub is_negative : ℕ → Bool
is_negative value = leb (2 ^ 63) value

unfoldable pub atoi_digits : ℕ → Mem → ℕ → ℕ → Option ℕ
atoi_digits zero m str value = none
atoi_digits (suc k) m str value = elim (m str == 0) [
  | true ↦ some value
  | false ↦ atoi_digits k m (str + 1) (u64 (value * 10 + u8 (m str + 2 ^ 8 - 48)))
]

unfoldable pub atoi : ℕ → Mem → ℕ → Option ℕ
atoi k m str =
    if m str == 45
    then (do value ← atoi_digits k m (str + 1) 0; some (sub64 0 value))
    else atoi_digits k m str 0

-- The character of a remainder; a negative one, `-rem`, is below 10.
unfoldable pub digit_char : ℕ → ℕ
digit_char rem = if ltb 9 rem then u8 (rem - 10 + 65) else u8 (rem + 48)

-- The signed remainder and quotient of C round to 0: those of the magnitude, with its sign.
unfoldable pub itoa_digits : ℕ → Mem → ℕ → ℕ → ℕ → ℕ → Option (ℕ × Mem)
itoa_digits zero m str i value base = none
itoa_digits (suc k) m str i value base =
    let magnitude = if is_negative value then sub64 0 value else value in
    let char =
      if is_negative value
      then u8 (2 ^ 8 + 48 - magnitude % base)
      else digit_char (magnitude % base) in
    let quotient = magnitude / base in
    elim (value == 0) [
      | true ↦ some (i, m)
      | false ↦
          itoa_digits k (store m (str + i) char) str (i + 1)
            (if is_negative value then sub64 0 quotient else quotient) base
    ]

-- The result is the code's and the memory. A base of 2 or more leaves at most 64 digits.
unfoldable pub itoa : ℕ → Mem → ℕ → ℕ → ℕ → Option (ℕ × Mem)
itoa k m value str base =
    let negated = is_negative value && base == 10 in
    let digits : Option (ℕ × Mem) = (do
      (i, m1) ← itoa_digits 65 m str 0 (if negated then sub64 0 value else value) base
      let m2 = if negated then store m1 (str + i) 45 else m1
      let i2 = if negated then i + 1 else i
      m3 ← reverse k (store m2 (str + i2) 0) str
      some (1, m3)) in
    if leb base 1
    then some (0, m)
    else if value == 0
    then some (1, store (store m str 48) (str + 1) 0)
    else digits

-- A base of 0 divides by 0, and a base of 1 never ends.
unfoldable pub utoa_digits : ℕ → Mem → ℕ → ℕ → ℕ → ℕ → Option (ℕ × Mem)
utoa_digits zero m str i value base = none
utoa_digits (suc k) m str i value base = elim (value == 0) [
  | true ↦ some (i, m)
  | false ↦
      utoa_digits k (store m (str + i) (digit_char (value % base))) str (i + 1) (value / base) base
]

unfoldable pub utoa : ℕ → Mem → ℕ → ℕ → ℕ → Option (ℕ × Mem)
utoa k m value str base =
    let digits : Option (ℕ × Mem) = (do
      (i, m1) ← utoa_digits 65 m str 0 value base
      m2 ← reverse k (store m1 (str + i) 0) str
      some (1, m2)) in
    if value == 0
    then some (1, store (store m str 48) (str + 1) 0)
    else if base == 0
    then none
    else digits

unfoldable pub ptr_to_hex : ℕ → Mem → ℕ → ℕ → Option Mem
ptr_to_hex k m ptr buf = do
  (ok, m1) ← itoa k (store (store m buf 48) (buf + 1) 120) ptr (buf + 2) 16
  rjust k m1 (buf + 2) 12 48
