-- ===== src/Tests/Console.antt =====
-- The theorems on kernel/src/driver/vga.c at concrete states.
use learning_os.Base.{ℕ, ◌+◌, ◌≡◌, refl, arith, some, Mem, ◌==◌, if◌then◌else◌}
use learning_os.Vga.{Console, get_cursor_pos, vga_color, kputchar, kputstr}
use learning_os.Vga.Typing.{typed, kputchar_lem}
use learning_os.Vga.Texts.{shown, kputstr_lem}

-- The cursor in the last cell of an area of zeros.
abbrev last_cell : Console
last_cell = record {
  text_area = λ a. record { character = 0; style = 0 };
  registers = λ r. if r == 0x0E then 7 else if r == 0x0F then 207 else 0;
}

last_cell_cursor : get_cursor_pos last_cell ≡ 1999
unfolding get_cursor_pos
last_cell_cursor = refl

kputchar_example :
    ((a : ℕ)
      → (kputchar 65 15 0 last_cell).text_area a
        ≡ (typed 65 15 0 last_cell.text_area (get_cursor_pos last_cell)).0 a)
    × (get_cursor_pos (kputchar 65 15 0 last_cell)
        ≡ (typed 65 15 0 last_cell.text_area (get_cursor_pos last_cell)).1)
kputchar_example =
    kputchar_lem 65 15 0 last_cell (λ e. absurd (omega arith)) (omega (arith, last_cell_cursor))

-- The cursor in the first cell.
abbrev first_cell : Console
first_cell = record { text_area = λ a. record { character = 0; style = 0 }; registers = λ r. 0 }

first_cell_cursor : get_cursor_pos first_cell ≡ 0
unfolding get_cursor_pos
first_cell_cursor = refl

-- "AA" at the address 0
abbrev two_letters : Mem
two_letters a = if a == 0 then 65 else if a == 1 then 65 else 0

kputstr_example :
    (s' : Console) × (kputstr 5 two_letters 0 15 0 first_cell ≡ some s')
    × (get_cursor_pos s' ≡ get_cursor_pos first_cell + 2)
    × ((a : ℕ) → s'.text_area a ≡ shown two_letters 0 2 (vga_color 15 0) first_cell a)
kputstr_example =
    kputstr_lem 5 2 two_letters 0 15 0 first_cell (λ i lt. ground arith, refl)
      (λ i lt. ground arith) (omega (arith, first_cell_cursor)) (omega arith)
