-- ===== src/Tests/Isr.antt =====
-- The theorems on kernel/src/cpu/isr.c, kernel/src/cpu/idt.c and kernel/src/driver/pic.c at
-- interrupts.
use learning_os.Base.{
  ℕ, ◌+◌, ◌*◌, ◌%◌, ◌^◌, ◌<◌, ◌≤◌, ◌≡◌, some, [], ◌∷◌, ◌==◌, if◌then◌else◌, Mem, IsBytes, arith,
}
use learning_os.Bitmap.Laws.Bytes.{bit_at}
use learning_os.Pic.{byte_out, pic1_cmd_port, pic_eoi, pic_set_mask, pic_clear_mask}
use learning_os.Pic.Masks.{port_of, masks_lem}
use learning_os.Isr.{report, call, write, root_isr_handler, set_gates, empty_gate, int_attr}
use learning_os.Isr.Gates.{address_of_gate, set_gates_lem}
use learning_os.Isr.Dispatch.{irq_lem}

-- The keyboard, interrupt 33, and line 12 have handlers.
abbrev handlers : Mem
handlers i = if i == 33 then 0x1000 else if i == 44 then 0x2000 else if i == 14 then 0x3000 else 0

irq_example :
    root_isr_handler handlers 44
    ≡ some (
        (if handlers 44 == 0 then report (44 % 8) else call (handlers 44))
        ∷ write (byte_out pic1_cmd_port pic_eoi)
        ∷ [])
irq_example = irq_lem handlers 44 (omega arith) (omega arith)

abbrev stubs : ℕ → ℕ
stubs i = 0xFFFFFFFF80100000 + 16 * (i % 64)

stubs_fit : (j : ℕ) → stubs j < 2 ^ 64
stubs_fit j = omega arith

set_gates_example :
    (33 < 48
      → (address_of_gate (set_gates stubs 48 33) ≡ stubs 33)
        × ((set_gates stubs 48 33).attributes ≡ int_attr))
    × (48 ≤ 33 → set_gates stubs 48 33 ≡ empty_gate)
set_gates_example = set_gates_lem stubs 48 33 stubs_fit

-- Every line is masked.
abbrev all_masked : ℕ → ℕ
all_masked port = 0xFF

all_masked-IsBytes : IsBytes all_masked
all_masked-IsBytes port = omega arith

masks_example :
    ((pic_set_mask all_masked 12).port ≡ port_of 12)
    × ((pic_clear_mask all_masked 12).port ≡ port_of 12)
    × (bit_at (pic_set_mask all_masked 12).value 4
        ≡ (if 4 == 12 % 8 then 1 else bit_at (all_masked (port_of 12)) 4))
    × (bit_at (pic_clear_mask all_masked 12).value 4
        ≡ (if 4 == 12 % 8 then 0 else bit_at (all_masked (port_of 12)) 4))
masks_example = masks_lem all_masked 12 4 all_masked-IsBytes (omega arith) (omega arith)
