-- ===== src/Vga/Texts.antt =====
-- `kputstr` of kernel/src/driver/vga.c.
use learning_os.Base.{
  ℕ, zero, suc, ◌+◌, ◌-◌, ◌<◌, ◌≡◌, ◌≢◌, refl, ◌∙◌, ap, arith, ltb, leb, ◌==◌, true, false,
  if◌then◌else◌, some, Mem, subst,
}
use learning_os.Strings.Length.{IsString}
use learning_os.Vga.{
  VgaChar, Console, vga_extent, get_cursor_pos, vga_color, put_printed, kputchar, kputstr,
}
use learning_os.Vga.Typing.{put_printed_text, get_cursor-put_printed}

-- None of the `n` characters moves the cursor without printing.
abbrev pub Prints : Mem → ℕ → ℕ → Type 0
Prints m string n =
    (i : ℕ) → i < n → (m (string + i) ≢ 0x09) × (m (string + i) ≢ 0x0A) × (m (string + i) ≢ 0x0D)

kputchar-prints :
    (character fg_color bg_color : ℕ) (s : Console)
    → character ≢ 0x09
    → character ≢ 0x0A
    → character ≢ 0x0D
    → kputchar character fg_color bg_color s ≡ put_printed character fg_color bg_color s
unfolding kputchar
kputchar-prints character fg_color bg_color s no_tab no_feed no_return =
    let tab : (character == 0x09) ≡ false = ground arith in
    let feed : (character == 0x0A) ≡ false = ground arith in
    let return : (character == 0x0D) ≡ false = ground arith in rw (feed, return, tab) refl

-- A cell of `s` behind a text of `n` characters at the cursor.
abbrev pub shown : Mem → ℕ → ℕ → ℕ → Console → ℕ → VgaChar
shown m string n style s a =
    let p = get_cursor_pos s in
    if leb p a
    then (if ltb a (p + n)
        then record { character = m (string + (a - p)); style = style }
        else s.text_area a)
    else s.text_area a

-- `kputstr` of a string of `n` printed characters that ends in front of the last cell of the
-- screen returns after `n + 1` rounds. The characters stand from the cursor on, in the color
-- asked for, the other cells are as before, and the cursor is behind the last character.
pub kputstr_lem :
    (k n : ℕ) (m : Mem) (string fg_color bg_color : ℕ) (s : Console)
    → IsString m string n
    → Prints m string n
    → get_cursor_pos s + n < vga_extent
    → n < k
    → (s' : Console) × (kputstr k m string fg_color bg_color s ≡ some s')
      × (get_cursor_pos s' ≡ get_cursor_pos s + n)
      × ((a : ℕ) → s'.text_area a ≡ shown m string n (vga_color fg_color bg_color) s a)
unfolding kputstr
kputstr_lem zero n m string fg_color bg_color s chars prints fits enough = absurd (omega arith)
kputstr_lem (suc k) zero m string fg_color bg_color s (chars, end) prints fits enough =
    let here : string + 0 ≡ string = omega arith in
    let empty : (m string == 0) ≡ true = ground (arith, ap m here, end) in
    rw (empty, kputstr) (s, refl, omega arith, λ a. ground arith)
kputstr_lem (suc k) (suc n) m string fg_color bg_color s (chars, end) prints fits enough =
    let here : string + 0 ≡ string = omega arith in
    let more : (m string == 0) ≡ false = ground (arith, ap m here, chars 0 (omega arith)) in
    let (no_tab, no_feed, no_return) = rw here at (prints 0 (omega arith)) in
    let first = put_printed (m string) fg_color bg_color s in
    let plain = kputchar-prints (m string) fg_color bg_color s no_tab no_feed no_return in
    let moved = get_cursor-put_printed (m string) fg_color bg_color s (omega arith) in
    let (s', returns, cursor, text) =
      kputstr_lem k n m (string + 1) fg_color bg_color first
        (
          (λ i lt. subst (λ a. m a ≢ 0) (omega arith) (chars (suc i) (omega arith))),
          ap m (omega arith) ∙ end,
        )
        (λ i lt.
          subst (λ a. (m a ≢ 0x09) × (m a ≢ 0x0A) × (m a ≢ 0x0D)) (omega arith)
            (prints (suc i) (omega arith)))
        (omega (arith, moved)) (omega arith) in
    let cells : (a : ℕ)
        → s'.text_area a ≡ shown m string (suc n) (vga_color fg_color bg_color) s a =
      λ a.
        let rest = rw moved at (text a) in
        let start = put_printed_text (m string) fg_color bg_color s a (omega arith) in
        let later : get_cursor_pos s < a
            → m (string + 1 + (a - (get_cursor_pos s + 1))) ≡ m (string + (a - get_cursor_pos s)) =
          λ lt. ap m (omega arith) in
        let at_first : a ≡ get_cursor_pos s → m (string + (a - get_cursor_pos s)) ≡ m string =
          λ e. ap m (omega arith) in
        ground (arith, rest, start, later, at_first) in
    rw (more, kputstr, plain) (s', returns, omega (arith, cursor, moved), λ a. cells a)
