-- ===== src/Vga/Scroll.antt =====
-- The cursor and the scrolling of kernel/src/driver/vga.c.
use learning_os.Base.{
  ℕ, zero, suc, ◌+◌, ◌-◌, ◌*◌, ◌/◌, ◌%◌, ◌^◌, ◌≤◌, ◌<◌, ◌≡◌, ◌∙◌, arith, ltb, leb, bit_and, min,
  if◌then◌else◌, u16,
}
use learning_os.Base.Bits.{bit_and_mask}
use learning_os.Base.Bits.Parts.{bit_or_below}
use learning_os.Vga.{
  VgaChar, TextArea, Console, vga_width, vga_extent, write_cursor, get_cursor_pos, set_cursor_pos,
  copy_columns, copy_rows, clear_columns, scroll_line,
}

pub get_cursor-write_cursor :
    (s : Console) (pos : ℕ) → pos < 2 ^ 16 → get_cursor_pos (write_cursor pos s) ≡ pos
unfolding get_cursor_pos write_cursor
get_cursor-write_cursor s pos fits =
    let low : bit_and pos 0xFF ≡ pos % 256 = bit_and_mask 8 pos in
    let high : bit_and (pos / 2 ^ 8) 0xFF ≡ pos / 256 % 256 = bit_and_mask 8 (pos / 256) in
    rw (low, high) (omega (arith, bit_or_below 8 (pos / 256 % 256) (pos % 256) (omega arith)))

copy_columns_lem :
    (i n : ℕ) (t : TextArea) (a : ℕ)
    → n ≤ vga_width
    → copy_columns (suc i) n t a
      ≡ (if leb (i * 80) a then (if ltb a (i * 80 + n) then t (a + 80) else t a) else t a)
unfolding copy_columns
copy_columns_lem i zero t a small = ground arith
copy_columns_lem i (suc n) t a small =
    let before = copy_columns_lem i n t a (omega arith) in
    let source = copy_columns_lem i n t (n + (i + 1) * 80) (omega arith) in
    ground (arith, before, source)

copy_rows_lem :
    (n : ℕ) (t : TextArea) (a : ℕ) → copy_rows n t a ≡ (if ltb a (n * 80) then t (a + 80) else t a)
unfolding copy_rows
copy_rows_lem zero t a = ground arith
copy_rows_lem (suc n) t a =
    let row = copy_columns_lem n vga_width (copy_rows n t) a (omega arith) in
    ground (arith, row, copy_rows_lem n t a, copy_rows_lem n t (a + 80))

-- A blank cell in the style that `c` has.
abbrev pub blanked : VgaChar → VgaChar
blanked c = record { character = 0x20; style = c.style }

clear_columns_lem :
    (n : ℕ) (t : TextArea) (a : ℕ)
    → n ≤ vga_width
    → clear_columns n t a
      ≡ (if leb 1920 a then (if ltb a (1920 + n) then blanked (t a) else t a) else t a)
unfolding clear_columns
clear_columns_lem zero t a small = ground arith
clear_columns_lem (suc n) t a small =
    let before = clear_columns_lem n t a (omega arith) in
    let here = clear_columns_lem n t (1920 + n) (omega arith) in ground (arith, before, here)

-- The text area a row further up, with a blank last row.
abbrev pub scrolled : TextArea → ℕ → VgaChar
scrolled t a =
    if ltb a 1920 then t (a + vga_width) else if ltb a vga_extent then blanked (t a) else t a

pub scroll_text : (s : Console) (a : ℕ) → (scroll_line s).text_area a ≡ scrolled s.text_area a
unfolding scroll_line set_cursor_pos write_cursor
scroll_text s a =
    let last = clear_columns_lem vga_width (copy_rows 24 s.text_area) a (omega arith) in
    last ∙ ground (arith, copy_rows_lem 24 s.text_area a)

pub get_cursor-set_cursor :
    (s : Console) (x y : ℕ)
    → x + vga_width * y < 2 ^ 16
    → get_cursor_pos (set_cursor_pos x y s) ≡ min (x + vga_width * y) (vga_extent - 1)
unfolding set_cursor_pos
get_cursor-set_cursor s x y fits =
    let pos =
      if leb vga_extent (u16 (x + vga_width * y))
      then vga_extent - 1
      else u16 (x + vga_width * y) in
    get_cursor-write_cursor s pos (ground arith) ∙ ground arith

pub scroll_cursor : (s : Console) → get_cursor_pos (scroll_line s) ≡ 1920
unfolding scroll_line
scroll_cursor s = get_cursor-set_cursor _ 0 24 (omega arith)
