-- ===== src/Terminal.antt =====
-- The terminal of kernel.c: its cursor and the video memory. `int`s are given by their patterns, and
-- `video_mem` is the word at each index, which is the pattern of an `int` too.
pub mod Cursor
pub mod Erase
mod Tests
use bimble_os.Common.{
  ℕ, zero, suc, ◌+◌, ◌*◌, ◌%◌, bit_or, Bool, ◌&&◌, List, [], ◌∷◌, ◌==◌, leb, ltb, if◌then◌else◌,
}
use mathlib.Core.Bool.{not}
use bimble_os.Common.Word.{add32, sub32, mul32}

abbrev pub vga_width : ℕ
vga_width = 80

abbrev pub vga_height : ℕ
vga_height = 25

pub record Terminal : Type 0 where
  pub terminal_row : ℕ
  pub terminal_column : ℕ
  pub video_mem : ℕ → ℕ

-- A `char` as an `int`.
abbrev pub char_to_int : ℕ → ℕ
char_to_int c = if ltb c 128 then c else c + 0xffff_ff00

-- A `uint16_t`.
unfoldable pub terminal_make_char : ℕ → ℕ → ℕ
terminal_make_char character color =
    bit_or (mul32 (char_to_int color) 256) (char_to_int character) % 0x1_0000

unfoldable pub terminal_putchar : ℕ → ℕ → ℕ → ℕ → Terminal → Terminal
terminal_putchar x y character color t =
    let index = add32 (mul32 vga_width y) x in
    let word = terminal_make_char character color in
    record t { video_mem = λ i. if i == index then word else t.video_mem i }

-- `terminal_column >= VGA_WIDTH`.
abbrev pub behind_row : ℕ → Bool
behind_row column = leb vga_width column && ltb column 0x8000_0000

-- The part of `terminal_writechar` behind its tests for a newline and a backspace.
unfoldable pub write_visible : ℕ → ℕ → Terminal → Terminal
unfolding terminal_putchar
write_visible character color t =
    let put = terminal_putchar t.terminal_column t.terminal_row character color t in
    let moved : Terminal = record put { terminal_column = add32 put.terminal_column 1 } in
    if behind_row moved.terminal_column
    then record moved { terminal_row = add32 moved.terminal_row 1; terminal_column = 0 }
    else moved

-- Its call of `terminal_writechar` is for a space, which is neither a newline nor a backspace.
unfoldable pub terminal_backspace : Terminal → Terminal
unfolding write_visible
terminal_backspace t =
    let above : Terminal =
      if t.terminal_column == 0
      then record t { terminal_row = sub32 t.terminal_row 1; terminal_column = vga_width }
      else t in
    let back : Terminal = record above { terminal_column = sub32 above.terminal_column 1 } in
    let blank = write_visible b' ' 15 back in
    if t.terminal_row == 0 && t.terminal_column == 0
    then t
    else record blank { terminal_column = sub32 blank.terminal_column 1 }

unfoldable pub terminal_writechar : ℕ → ℕ → Terminal → Terminal
unfolding write_visible terminal_backspace
terminal_writechar character color t =
    if character == 0x0a
    then record t { terminal_row = add32 t.terminal_row 1; terminal_column = 0 }
    else if character == 0x08
    then terminal_backspace t
    else write_visible character color t

unfoldable pub print : List ℕ → Terminal → Terminal
print [] t = t
print (c ∷ str) t = print str (terminal_writechar c 15 t)

-- The loop over the columns of a row from `x` on, with the rounds left.
unfoldable pub clear_row : ℕ → ℕ → ℕ → Terminal → Terminal
clear_row zero x y t = t
clear_row (suc n) x y t = clear_row n (x + 1) y (terminal_putchar x y b' ' 0 t)

-- The loop over the rows from `y` on.
unfoldable pub clear_rows : ℕ → ℕ → Terminal → Terminal
clear_rows zero y t = t
clear_rows (suc n) y t = clear_rows n (y + 1) (clear_row vga_width 0 y t)

unfoldable pub terminal_initialize : Terminal → Terminal
unfolding clear_rows clear_row
terminal_initialize t = clear_rows vga_height 0 (record t { terminal_row = 0; terminal_column = 0 })
