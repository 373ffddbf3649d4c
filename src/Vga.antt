-- ===== src/Vga.antt =====
-- kernel/src/driver/vga.c and kernel/include/driver/vga.h: the text console. The state is the text
-- area, a function from positions to characters, and the registers of the cathode ray tube
-- controller, one byte for each register number: a number written to the command port, then a
-- byte to or from the data port, is an access to the register of this number.
pub mod Scroll
pub mod Typing
pub mod Texts
use learning_os.Base.{
  ℕ, zero, suc, ◌+◌, ◌-◌, ◌*◌, ◌/◌, bit_and, bit_or, Option, none, some, Mem, ◌==◌, leb,
  if◌then◌else◌, ◌>>=◌, u8, u16, ◌<<<◌, ◌>>>◌,
}

abbrev pub vga_width : ℕ
vga_width = 80

abbrev pub vga_height : ℕ
vga_height = 25

abbrev pub vga_extent : ℕ
vga_extent = 80 * 25

abbrev color_blk : ℕ
color_blk = 0

abbrev color_wht : ℕ
color_wht = 15

pub record VgaChar : Type 0 where
  pub character : ℕ
  pub style : ℕ

abbrev pub TextArea : Type 0
TextArea = ℕ → VgaChar

pub record Console : Type 0 where
  pub text_area : TextArea
  pub registers : Mem

-- one assignment to `TEXT_AREA[position]`
abbrev pub put_char : TextArea → ℕ → VgaChar → TextArea
put_char t position c a = if a == position then c else t a

-- a register number at the command port, then a byte at the data port
abbrev pub write_register : ℕ → ℕ → Console → Console
write_register r v s = record {
  text_area = s.text_area;
  registers = λ a. if a == r then v else s.registers a;
}

unfoldable pub vga_color : ℕ → ℕ → ℕ
vga_color fg_color bg_color = bit_or (u8 (bg_color <<< 4)) (bit_and fg_color 0x0F)

-- the loop of `clearwin`, for the positions below the number given
unfoldable pub clear_cells : VgaChar → ℕ → TextArea → TextArea
clear_cells c zero t = t
clear_cells c (suc i) t = put_char (clear_cells c i t) i c

unfoldable pub clearwin : ℕ → ℕ → Console → Console
clearwin fg_color bg_color s = record {
  text_area =
      clear_cells (record { character = 0x20; style = vga_color fg_color bg_color }) vga_extent
        (s.text_area);
  registers = s.registers;
}

unfoldable pub get_cursor_pos : Console → ℕ
get_cursor_pos s = u16 (bit_or (s.registers 0x0F) (s.registers 0x0E <<< 8))

-- the two registers of the cursor, as both `advance_cursor` and `set_cursor_pos` write them
unfoldable pub write_cursor : ℕ → Console → Console
write_cursor pos s =
    write_register 0x0E (bit_and (pos >>> 8) 0xFF) (write_register 0x0F (bit_and pos 0xFF) s)

unfoldable pub show_cursor : Console → Console
show_cursor s =
    let s1 = write_register 0x0A (bit_and (s.registers 0x0A) 0xC0) s in
    write_register 0x0B (bit_and (s1.registers 0x0B) 0xE0) s1

unfoldable pub hide_cursor : Console → Console
hide_cursor s = write_register 0x0A 0x20 s

unfoldable pub set_cursor_pos : ℕ → ℕ → Console → Console
set_cursor_pos x y s =
    let pos = u16 (x + vga_width * y) in
    write_cursor (if leb vga_extent pos then vga_extent - 1 else pos) s

-- the columns below the number given of row `i`, each copied to the row above
unfoldable pub copy_columns : ℕ → ℕ → TextArea → TextArea
copy_columns i zero t = t
copy_columns i (suc j) t =
    let t1 = copy_columns i j t in put_char t1 (j + (i - 1) * vga_width) (t1 (j + i * vga_width))

-- the rows from 1 to the number given
unfoldable pub copy_rows : ℕ → TextArea → TextArea
copy_rows zero t = t
copy_rows (suc i) t = copy_columns (suc i) vga_width (copy_rows i t)

-- the columns below the number given of the last row
unfoldable pub clear_columns : ℕ → TextArea → TextArea
clear_columns zero t = t
clear_columns (suc j) t =
    let t1 = clear_columns j t in
    let pos = j + (vga_height - 1) * vga_width in
    put_char t1 pos (record { character = 0x20; style = (t1 pos).style })

unfoldable pub scroll_line : Console → Console
scroll_line s = set_cursor_pos 0 (vga_height - 1) (record {
  text_area = clear_columns vga_width (copy_rows (vga_height - 1) (s.text_area));
  registers = s.registers;
})

-- The position is written after a scroll as well, past the last one.
unfoldable pub advance_cursor : Console → Console
advance_cursor s =
    let pos = u16 (get_cursor_pos s + 1) in
    write_cursor pos (if leb vga_extent pos then scroll_line s else s)

-- the last branch of `kputchar`
unfoldable pub put_printed : ℕ → ℕ → ℕ → Console → Console
put_printed character fg_color bg_color s = advance_cursor (record {
  text_area =
      put_char (s.text_area) (get_cursor_pos s)
        (record { character = character; style = vga_color fg_color bg_color });
  registers = s.registers;
})

-- the branch of `kputchar` for a tab: four spaces, then a step of the cursor
unfoldable pub put_tab : ℕ → ℕ → Console → Console
put_tab fg_color bg_color s =
    let space = put_printed 0x20 fg_color bg_color in
    advance_cursor (space (space (space (space s))))

unfoldable pub kputchar : ℕ → ℕ → ℕ → Console → Console
kputchar character fg_color bg_color s =
    let row = u8 (get_cursor_pos s / vga_width) in
    let next_row = u8 (row + 1) in
    if character == 0x0A
    then (if leb vga_height next_row then scroll_line s else set_cursor_pos 0 next_row s)
    else if character == 0x0D
    then set_cursor_pos 0 row s
    else if character == 0x09
    then put_tab fg_color bg_color s
    else put_printed character fg_color bg_color s

-- The fuel bounds the length of the string.
unfoldable pub kputstr : ℕ → Mem → ℕ → ℕ → ℕ → Console → Option Console
kputstr zero m string fg_color bg_color s = none
kputstr (suc fuel) m string fg_color bg_color s =
    let rest =
      kputstr fuel m (string + 1) fg_color bg_color (kputchar (m string) fg_color bg_color s) in
    if m string == 0 then some s else rest

unfoldable pub kputs : ℕ → Mem → ℕ → Console → Option Console
kputs fuel m string s = kputstr fuel m string color_wht color_blk s

-- the literal "\n", at the address 0
abbrev newline : Mem
newline a = if a == 0 then 0x0A else 0

unfoldable kprintln : ℕ → Mem → ℕ → Console → Option Console
kprintln fuel m string s = do
  s1 ← kputstr fuel m string color_wht color_blk s
  kputstr fuel newline 0 color_wht color_blk s1
