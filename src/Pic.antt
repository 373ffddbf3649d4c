-- ===== src/Pic.antt =====
-- kernel/src/driver/pic.c and kernel/include/driver/pic.h: the two interrupt controllers. A call
-- is the sequence of its port writes; what `byte_in` reads from a port is an argument.
pub mod Masks
use learning_os.Base.{
  ℕ, ◌+◌, ◌-◌, bit_and, bit_or, List, [], ◌∷◌, ◌++◌, leb, if◌then◌else◌, u8, not32, int_bit,
}

abbrev pub pic1_cmd_port : ℕ
pic1_cmd_port = 0x20

abbrev pub pic1_data_port : ℕ
pic1_data_port = 0x21

abbrev pub pic2_cmd_port : ℕ
pic2_cmd_port = 0xA0

abbrev pub pic2_data_port : ℕ
pic2_data_port = 0xA1

abbrev pub icw1_init : ℕ
icw1_init = 0x10

abbrev pub icw1_icw4 : ℕ
icw1_icw4 = 0x01

abbrev pub icw4_8086 : ℕ
icw4_8086 = 0x01

abbrev pub pic_eoi : ℕ
pic_eoi = 0x20

-- `byte_out` of a value to a port
pub record PortWrite : Type 0 where
  pub port : ℕ
  pub value : ℕ

abbrev pub byte_out : ℕ → ℕ → PortWrite
byte_out port value = record { port = port; value = value }

abbrev pub io_wait : PortWrite
io_wait = byte_out 0x80 0

unfoldable pub pic_remap : (ℕ → ℕ) → ℕ → ℕ → List PortWrite
pic_remap byte_in offset1 offset2 =
    let mask1 = byte_in pic1_data_port in
    let mask2 = byte_in pic2_data_port in
    byte_out pic1_cmd_port (bit_or icw1_init icw1_icw4)
    ∷ byte_out pic2_cmd_port (bit_or icw1_init icw1_icw4)
    ∷ byte_out pic1_data_port offset1
    ∷ io_wait
    ∷ byte_out pic2_data_port offset2
    ∷ io_wait
    ∷ byte_out pic1_data_port 4
    ∷ io_wait
    ∷ byte_out pic2_data_port 2
    ∷ io_wait
    ∷ byte_out pic1_data_port icw4_8086
    ∷ io_wait
    ∷ byte_out pic2_data_port icw4_8086
    ∷ io_wait
    ∷ byte_out pic1_data_port mask1
    ∷ io_wait
    ∷ byte_out pic2_data_port mask2
    ∷ io_wait
    ∷ []

unfoldable pub pic_send_eoi : ℕ → List PortWrite
pic_send_eoi irq_number =
    if leb 8 irq_number
    then byte_out pic2_cmd_port pic_eoi ∷ byte_out pic1_cmd_port pic_eoi ∷ []
    else byte_out pic1_cmd_port pic_eoi ∷ []

unfoldable pub pic_set_mask : (ℕ → ℕ) → ℕ → PortWrite
pic_set_mask byte_in irq_number =
    let pic_port = if leb 8 irq_number then pic2_data_port else pic1_data_port in
    let irq = if leb 8 irq_number then irq_number - 8 else irq_number in
    byte_out pic_port (u8 (bit_or (byte_in pic_port) (int_bit irq)))

unfoldable pub pic_clear_mask : (ℕ → ℕ) → ℕ → PortWrite
pic_clear_mask byte_in irq_number =
    let pic_port = if leb 8 irq_number then pic2_data_port else pic1_data_port in
    let irq = if leb 8 irq_number then irq_number - 8 else irq_number in
    byte_out pic_port (u8 (bit_and (byte_in pic_port) (not32 (int_bit irq))))
