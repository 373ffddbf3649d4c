-- ===== src/Tests/Bitmap.antt =====
-- The theorems on kernel/src/mm/bitmap.c and `memset` at concrete memory.
use learning_os.Base.{◌-◌, ◌≡◌, ltb, ◌==◌, if◌then◌else◌, Mem, IsBytes, arith}
use learning_os.Bitmap.{Bitmap, bmp_get_bit, bmp_set_bit, bmp_toggle_bit}
use learning_os.Bitmap.Laws.{get_bit-set_bit, get_bit-toggle_bit}

abbrev stripes : Mem
stripes = λ a. 0x55

stripes-IsBytes : IsBytes stripes
stripes-IsBytes a = omega arith

abbrev sixteen_bits : Bitmap
sixteen_bits = record { base = 100; size_bytes = 2 }

get_bit-set_bit_example :
    ((bmp_set_bit stripes sixteen_bits 9 1).0 ≡ 1)
    × (bmp_get_bit (bmp_set_bit stripes sixteen_bits 9 1).1 sixteen_bits 8
        ≡ (if 8 == 9 then (if ltb 0 1 then 1 else 0) else bmp_get_bit stripes sixteen_bits 8))
get_bit-set_bit_example =
    get_bit-set_bit stripes sixteen_bits stripes-IsBytes 9 8 1 (omega arith) (omega arith)

get_bit-toggle_bit_example :
    ((bmp_toggle_bit stripes sixteen_bits 9).0 ≡ 1 - bmp_get_bit stripes sixteen_bits 9)
    × (bmp_get_bit (bmp_toggle_bit stripes sixteen_bits 9).1 sixteen_bits 9 ≡ (
        if 9 == 9
        then 1 - bmp_get_bit stripes sixteen_bits 9
        else bmp_get_bit stripes sixteen_bits 9))
get_bit-toggle_bit_example =
    get_bit-toggle_bit stripes sixteen_bits stripes-IsBytes 9 9 (omega arith) (omega arith)
