-- ===== src/Bitmap.antt =====
-- kernel/src/mm/bitmap.c and kernel/include/mm/bitmap.h: a bitmap in memory.
pub mod Laws
use learning_os.Base.{
  ℕ, ◌+◌, ◌/◌, ◌%◌, bit_and, bit_or, Bool, ltb, leb, ◌==◌, if◌then◌else◌, Mem, store, u8, not32,
  int_bit, ◌>>>◌,
}
use learning_os.Strings.{memset}

pub record Bitmap : Type 0 where
  pub base : ℕ
  pub size_bytes : ℕ

unfoldable pub bmp_init : Mem → ℕ → ℕ → Bitmap × Mem
bmp_init m base size_bits =
    let size_bytes = (size_bits + 7) / 8 in
    (record { base = base; size_bytes = size_bytes }, memset m base 0 size_bytes)

unfoldable pub bmp_get_bit : Mem → Bitmap → ℕ → ℕ
bmp_get_bit m bmp index =
    let byte_index = index / 8 in
    if leb bmp.size_bytes byte_index
    then 0
    else bit_and (m (bmp.base + byte_index) >>> (index % 8)) 1

-- The first part is the result, the second the memory behind the call.
unfoldable pub bmp_set_bit : Mem → Bitmap → ℕ → ℕ → ℕ × Mem
bmp_set_bit m bmp index value =
    let byte_index = index / 8 in
    let byte = m (bmp.base + byte_index) in
    let bit = int_bit (index % 8) in
    if leb bmp.size_bytes byte_index
    then (0, m)
    else if ltb 0 value
    then (1, store m (bmp.base + byte_index) (u8 (bit_or byte bit)))
    else (1, store m (bmp.base + byte_index) (u8 (bit_and byte (not32 bit))))

unfoldable pub bmp_toggle_bit : Mem → Bitmap → ℕ → ℕ × Mem
bmp_toggle_bit m bmp index =
    let byte_index = index / 8 in
    let bit_mask = u8 (int_bit (index % 8)) in
    let byte = m (bmp.base + byte_index) in
    if leb bmp.size_bytes byte_index
    then (0, m)
    else if bit_and byte bit_mask == 0
    then (1, store m (bmp.base + byte_index) (u8 (bit_or byte bit_mask)))
    else (0, store m (bmp.base + byte_index) (u8 (bit_and byte (not32 bit_mask))))
