-- ===== src/Tests/Strings.antt =====
-- The theorems on kernel/src/utility/strings.c, and runs of its conversions.
use learning_os.Base.{
  ℕ, zero, suc, ◌+◌, ◌≡◌, refl, inr, Option, none, some, ◌==◌, if◌then◌else◌, Mem, store, List, [],
  ◌∷◌, arith,
}
use learning_os.Strings.{strlen, memcpy, reverse, swap_ends}
use learning_os.Strings.Length.{IsString, strlen_lem}
use learning_os.Strings.Copy.{copied, memcpy_lem}
use learning_os.Strings.Number.{utoa, utoa_digits, digit_char}

-- `abc` at 100
abbrev text : Mem
text a = if a == 100 then 97 else if a == 101 then 98 else if a == 102 then 99 else 0

text-IsString : IsString text 100 3
text-IsString = ((λ i lt. ground arith), refl)

strlen_example : strlen 10 text 100 ≡ some 3
strlen_example = strlen_lem 10 3 text 100 text-IsString (omega arith)

memcpy_example : memcpy text 200 100 11 201 ≡ copied text 200 100 11 201
memcpy_example = memcpy_lem text 200 100 11 201 (inr (omega arith))

abbrev bytes_at : Option (ℕ × Mem) → ℕ → ℕ → List ℕ
bytes_at none a n = []
bytes_at (some r) a zero = []
bytes_at (some r) a (suc n) = r.1 a ∷ bytes_at (some r) (a + 1) n

-- 305 as text in base 10
utoa_run : bytes_at (utoa 20 text 305 300 10) 300 4 ≡ 51 ∷ 48 ∷ 53 ∷ 0 ∷ []
unfolding utoa utoa_digits reverse swap_ends strlen digit_char store
utoa_run = refl
