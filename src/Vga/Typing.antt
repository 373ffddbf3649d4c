-- ===== src/Vga/Typing.antt =====
-- `kputchar` and `kputstr` of kernel/src/driver/vga.c.
use learning_os.Base.{
  ℕ, ◌+◌, ◌*◌, ◌/◌, ◌<◌, ◌≡◌, ◌≢◌, refl, ◌∙◌, ap, arith, ltb, leb, ◌==◌, if◌then◌else◌, u8, u16,
  true, false, Bool-cases, inl, inr,
}
use learning_os.Vga.{
  TextArea, Console, vga_width, vga_extent, put_char, write_cursor, get_cursor_pos, vga_color,
  set_cursor_pos, advance_cursor, put_printed, kputchar,
}
use learning_os.Vga.Scroll.{
  get_cursor-write_cursor, get_cursor-set_cursor, scrolled, scroll_text, scroll_cursor,
}

-- What a character other than a tab makes of the text area and the cursor.
abbrev pub typed : ℕ → ℕ → ℕ → TextArea → ℕ → TextArea × ℕ
typed character fg_color bg_color t p =
    let row = p / vga_width in
    let printed =
      put_char t p (record { character = character; style = vga_color fg_color bg_color }) in
    if character == 0x0A
    then (if ltb row 24 then (t, (row + 1) * vga_width) else (scrolled t, 24 * vga_width))
    else if character == 0x0D
    then (t, row * vga_width)
    else (if ltb (p + 1) vga_extent then printed else scrolled printed, p + 1)

set_cursor_text : (s : Console) (x y : ℕ) → (set_cursor_pos x y s).text_area ≡ s.text_area
unfolding set_cursor_pos write_cursor
set_cursor_text s x y = refl

advance_cursor_text :
    (s : Console) (a : ℕ)
    → get_cursor_pos s < vga_extent
    → (advance_cursor s).text_area a
      ≡ (if ltb (get_cursor_pos s + 1) vga_extent then s.text_area a else scrolled s.text_area a)
unfolding advance_cursor write_cursor
advance_cursor_text s a h =
    let next : u16 (get_cursor_pos s + 1) ≡ get_cursor_pos s + 1 = omega arith in
    ground (arith, next, scroll_text s a)

get_cursor-advance_cursor :
    (s : Console)
    → get_cursor_pos s < vga_extent
    → get_cursor_pos (advance_cursor s) ≡ get_cursor_pos s + 1
unfolding advance_cursor
get_cursor-advance_cursor s h =
    let next : u16 (get_cursor_pos s + 1) ≡ get_cursor_pos s + 1 = omega arith in
    rw next (get_cursor-write_cursor _ (get_cursor_pos s + 1) (omega arith))

-- The text area of `s`, with a character at the cursor.
abbrev pub printed_text : ℕ → ℕ → ℕ → Console → TextArea
printed_text character fg_color bg_color s =
    put_char s.text_area (get_cursor_pos s)
      (record { character = character; style = vga_color fg_color bg_color })

pub put_printed_text :
    (character fg_color bg_color : ℕ) (s : Console) (a : ℕ)
    → get_cursor_pos s < vga_extent
    → (put_printed character fg_color bg_color s).text_area a ≡ (
        if ltb (get_cursor_pos s + 1) vga_extent
        then printed_text character fg_color bg_color s a
        else scrolled (printed_text character fg_color bg_color s) a)
unfolding put_printed get_cursor_pos
put_printed_text character fg_color bg_color s a h =
    advance_cursor_text
      (record { text_area = printed_text character fg_color bg_color s; registers = s.registers }) a
      h

pub get_cursor-put_printed :
    (character fg_color bg_color : ℕ) (s : Console)
    → get_cursor_pos s < vga_extent
    → get_cursor_pos (put_printed character fg_color bg_color s) ≡ get_cursor_pos s + 1
unfolding put_printed get_cursor_pos
get_cursor-put_printed character fg_color bg_color s h =
    get_cursor-advance_cursor
      (record { text_area = printed_text character fg_color bg_color s; registers = s.registers }) h

-- `kputchar` of any character but a tab, with the cursor on the screen: the text area and the
-- cursor are as `typed` says. A line feed goes to the start of the next row, behind the last row
-- after a scroll; a carriage return to the start of the row; any other character is put at the
-- cursor, and the cursor goes on by one. In the last cell the area scrolls by a row, and the cursor
-- is still moved on by one, past the last cell.
pub kputchar_lem :
    (character fg_color bg_color : ℕ) (s : Console)
    → character ≢ 0x09
    → get_cursor_pos s < vga_extent
    → ((a : ℕ)
        → (kputchar character fg_color bg_color s).text_area a
          ≡ (typed character fg_color bg_color s.text_area (get_cursor_pos s)).0 a)
      × (get_cursor_pos (kputchar character fg_color bg_color s)
          ≡ (typed character fg_color bg_color s.text_area (get_cursor_pos s)).1)
unfolding kputchar
kputchar_lem character fg_color bg_color s no_tab h =
    let p = get_cursor_pos s in
    let row : u8 (p / vga_width) ≡ p / vga_width = omega arith in
    let next : u8 (p / vga_width + 1) ≡ p / vga_width + 1 = omega arith in
    let tab : (character == 0x09) ≡ false = ground arith in
    elim (Bool-cases (character == 0x0A)) [
      | inl feed ↦ elim (Bool-cases (ltb (p / vga_width) 24)) [
        | inl above ↦
            let inside : leb 25 (p / vga_width + 1) ≡ false = ground arith in
            rw (feed, row, next, above, inside)
              (
                λ a. ap (λ (t : TextArea). t a) (set_cursor_text s 0 (p / vga_width + 1)),
                get_cursor-set_cursor s 0 (p / vga_width + 1) (ground arith) ∙ ground arith,
              )
        | inr last ↦
            let outside : leb 25 (p / vga_width + 1) ≡ true = ground arith in
            rw (feed, row, next, last, outside) (scroll_text s, scroll_cursor s)
      ]
      | inr other ↦ elim (Bool-cases (character == 0x0D)) [
        | inl return ↦
            rw (other, return, row)
              (
                λ a. ap (λ (t : TextArea). t a) (set_cursor_text s 0 (p / vga_width)),
                get_cursor-set_cursor s 0 (p / vga_width) (omega arith) ∙ ground arith,
              )
        | inr plain ↦
            rw (other, plain, tab)
              (
                λ a. ground (arith, put_printed_text character fg_color bg_color s a h),
                get_cursor-put_printed character fg_color bg_color s h,
              )
      ]
    ]
