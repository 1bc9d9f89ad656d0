-- ===== src/Tty.antt =====
-- kernel/kernel/drivers/tty.c: the VGA text terminal. The buffer is a function from the index of a
-- cell of `terminal_buffer` to its 16-bit entry; it is total, so that a write out of the screen
-- would show.
pub mod Scroll
pub mod Tape
use brownie_os.Base.{
  ℕ, zero, suc, ◌+◌, ◌-◌, ◌*◌, ◌%◌, ◌^◌, ◌<◌, bit_or, Bool, true, false, List, [], ◌∷◌, ◌==◌,
  if◌then◌else◌, update,
}

abbrev pub vga_width : ℕ
vga_width = 80

abbrev pub vga_height : ℕ
vga_height = 25

-- `enum vga_color`, and the numbers of its members
pub data VgaColor : Type 0 where
  black blue green cyan red magenta brown light_grey : VgaColor
  dark_grey light_blue light_green light_cyan light_red light_magenta light_brown white : VgaColor

abbrev pub color_number : VgaColor → ℕ
color_number black = 0
color_number blue = 1
color_number green = 2
color_number cyan = 3
color_number red = 4
color_number magenta = 5
color_number brown = 6
color_number light_grey = 7
color_number dark_grey = 8
color_number light_blue = 9
color_number light_green = 10
color_number light_cyan = 11
color_number light_red = 12
color_number light_magenta = 13
color_number light_brown = 14
color_number white = 15

-- `vga_entry_color`
unfoldable pub vga_entry_color : (fg bg : VgaColor) → ℕ
vga_entry_color fg bg = bit_or (color_number fg) (color_number bg * 16) % 2 ^ 8

-- `vga_entry`
unfoldable pub vga_entry : (uc color : ℕ) → ℕ
vga_entry uc color = bit_or uc (color * 256) % 2 ^ 16

-- `' '`
abbrev pub space : ℕ
space = 32

-- `'\n'`
abbrev pub newline : ℕ
newline = 10

-- terminal_row, terminal_column, terminal_color and what terminal_buffer points to
pub record Terminal : Type 0 where
  pub row : ℕ
  pub column : ℕ
  pub color : ℕ
  pub buffer : ℕ → ℕ

-- The loops of `terminal_initialize`: the first `n` cells of row `y`, and the first `n` rows.
pub clear_cells : (n y entry : ℕ) → (ℕ → ℕ) → ℕ → ℕ
clear_cells zero y entry b = b
clear_cells (suc x) y entry b = update (clear_cells x y entry b) (y * vga_width + x) entry

pub clear_rows : (n entry : ℕ) → (ℕ → ℕ) → ℕ → ℕ
clear_rows zero entry b = b
clear_rows (suc y) entry b = clear_cells vga_width y entry (clear_rows y entry b)

-- `terminal_initialize`
unfoldable pub terminal_initialize : Terminal → Terminal
terminal_initialize t =
    let color = vga_entry_color light_green black in
    record {
      row = 0;
      column = 0;
      color = color;
      buffer = clear_rows vga_height (vga_entry space color) t.buffer;
    }

-- `terminal_setcolor`
abbrev pub terminal_setcolor : (color : ℕ) → Terminal → Terminal
terminal_setcolor color t = record t { color = color }

-- `terminal_putentryat`
unfoldable pub terminal_putentryat : (c color x y : ℕ) → (ℕ → ℕ) → ℕ → ℕ
terminal_putentryat c color x y b = update b (y * vga_width + x) (vga_entry c color)

-- The loop of `terminal_delete_last_line`
pub delete_cells : (n entry : ℕ) → (ℕ → ℕ) → ℕ → ℕ
delete_cells zero entry b = b
delete_cells (suc x) entry b =
    update (delete_cells x entry b) (x + (vga_height - 1) * vga_width) entry

-- `terminal_delete_last_line`
unfoldable pub terminal_delete_last_line : (color : ℕ) → (ℕ → ℕ) → ℕ → ℕ
terminal_delete_last_line color b = delete_cells vga_width (vga_entry space color) b

-- The loops of `terminal_scroll`: the first `n` cells of row `y`, and the `n` rows from row 1 on.
pub scroll_cells : (n y : ℕ) → (ℕ → ℕ) → ℕ → ℕ
scroll_cells zero y b = b
scroll_cells (suc x) y b =
    let b' = scroll_cells x y b in
    let index = y * vga_width + x in update b' (index - vga_width) (b' index)

pub scroll_rows : (n : ℕ) → (ℕ → ℕ) → ℕ → ℕ
scroll_rows zero b = b
scroll_rows (suc n) b = scroll_cells vga_width (n + 1) (scroll_rows n b)

-- `terminal_scroll`
unfoldable pub terminal_scroll : (color : ℕ) → (ℕ → ℕ) → ℕ → ℕ
terminal_scroll color b = terminal_delete_last_line color (scroll_rows (vga_height - 1) b)

-- `if (++terminal_row == VGA_HEIGHT) { terminal_scroll(); terminal_row = VGA_HEIGHT-1; }`
unfoldable pub next_row : Terminal → Terminal
next_row t =
    if t.row + 1 == vga_height
    then record t { row = vga_height - 1; buffer = terminal_scroll t.color t.buffer }
    else record t { row = t.row + 1 }

-- `terminal_putchar`
unfoldable pub terminal_putchar : Terminal → (c : ℕ) → Terminal
terminal_putchar t c =
    if c == newline
    then record (next_row t) { column = 0 }
    else let t' = record t {
      buffer = terminal_putentryat c t.color t.column t.row t.buffer;
      column = t.column + 1;
    } in
      if t.column + 1 == vga_width then next_row (record t' { column = 0 }) else t'

-- `terminal_write`, on the `size` characters that `data` points to.
pub terminal_write : Terminal → List ℕ → Terminal
terminal_write t [] = t
terminal_write t (c ∷ text) = terminal_write (terminal_putchar t c) text
