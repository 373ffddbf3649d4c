-- ===== src/Pic/Masks.antt =====
-- What the masks of kernel/src/driver/pic.c do to the lines of a controller.
use learning_os.Base.{
  ℕ, ◌-◌, ◌%◌, ◌<◌, ◌≡◌, refl, inl, inr, leb, ◌==◌, if◌then◌else◌, IsBytes, Bool-cases, arith,
}
use learning_os.Bitmap.Laws.Bytes.{bit_at, bit_at-turn_on, bit_at-turn_off}
use learning_os.Pic.{pic1_data_port, pic2_data_port, pic_set_mask, pic_clear_mask}

-- The data port of the controller of a line
abbrev pub port_of : ℕ → ℕ
port_of irq = if leb 8 irq then pic2_data_port else pic1_data_port

module _ (byte_in : ℕ → ℕ) (irq line : ℕ) (bytes : IsBytes byte_in) (small : irq < 16)
    (inside : line < 8) where
  -- For lines 0 to 15 of the machine, `pic_set_mask` writes to the controller of the line its mask,
  -- read as a byte, with the bit of the line turned on and every other bit as it was, and
  -- `pic_clear_mask` the one with the bit turned off.
  pub masks_lem :
      ((pic_set_mask byte_in irq).port ≡ port_of irq)
      × ((pic_clear_mask byte_in irq).port ≡ port_of irq)
      × (bit_at (pic_set_mask byte_in irq).value line
          ≡ (if line == irq % 8 then 1 else bit_at (byte_in (port_of irq)) line))
      × (bit_at (pic_clear_mask byte_in irq).value line
          ≡ (if line == irq % 8 then 0 else bit_at (byte_in (port_of irq)) line))
  unfolding pic_set_mask pic_clear_mask
  masks_lem = elim (Bool-cases (leb 8 irq)) [
    | inl second ↦
        let place : irq - 8 ≡ irq % 8 = ground arith in
        rw (second, place)
          (
            refl,
            refl,
            bit_at-turn_on (byte_in pic2_data_port) (irq % 8) line (bytes _) (omega arith) inside,
            bit_at-turn_off (byte_in pic2_data_port) (irq % 8) line (bytes _) (omega arith) inside,
          )
    | inr first ↦
        let place : irq % 8 ≡ irq = ground arith in
        rw (first, place)
          (
            refl,
            refl,
            bit_at-turn_on (byte_in pic1_data_port) irq line (bytes _) (ground arith) inside,
            bit_at-turn_off (byte_in pic1_data_port) irq line (bytes _) (ground arith) inside,
          )
  ]
