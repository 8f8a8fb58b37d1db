-- ===== src/Terminal/Tests.antt =====
-- Runs of the terminal's functions, and the theorems about them at concrete screens.
use bimble_os.Common.{ℕ, ◌+◌, ◌-◌, ◌≡◌, refl, inl, arith, List, [], ◌∷◌, get_or, if◌then◌else◌}
use bimble_os.Memory.Laws.{within}
use bimble_os.Terminal.{
  Terminal, print, terminal_backspace, terminal_writechar, write_visible, terminal_putchar,
}
use bimble_os.Terminal.Cursor.{IsCursor, IsVisible, AreVisible, position, print_lem}

-- Two columns are left in the first row.
abbrev nearly_end : Terminal
nearly_end = record { terminal_row = 0; terminal_column = 78; video_mem = λ i. 0 }

abbrev second_row : Terminal
second_row = record { terminal_row = 1; terminal_column = 0; video_mem = λ i. 0x0f41 }

abbrev hey : List ℕ
hey = b'h' ∷ b'e' ∷ b'y' ∷ []

h-IsVisible : IsVisible b'h'
h-IsVisible = (omega arith, (λ e. omega arith), (λ e. omega arith))

e-IsVisible : IsVisible b'e'
e-IsVisible = (omega arith, (λ e. omega arith), (λ e. omega arith))

y-IsVisible : IsVisible b'y'
y-IsVisible = (omega arith, (λ e. omega arith), (λ e. omega arith))

hey-AreVisible : AreVisible hey
hey-AreVisible = (h-IsVisible, (e-IsVisible, (y-IsVisible, tt)))

nearly_end-IsCursor : IsCursor nearly_end
nearly_end-IsCursor = record { row = omega arith; column = inl (omega arith); word = omega arith }

second_row-IsCursor : IsCursor second_row
second_row-IsCursor = record { row = omega arith; column = inl (omega arith); word = omega arith }

-- After the last column of a row comes the first of the next.
print_wraps : (print hey nearly_end).terminal_column ≡ 1
unfolding print terminal_writechar write_visible terminal_putchar
print_wraps = refl

-- A backspace at the start of a row leaves the column -1; a newline then leads to the row below the
-- cursor's.
backspace_then_newline :
    (terminal_writechar 0x0a 15 (terminal_backspace second_row)).terminal_row ≡ 2
unfolding terminal_writechar terminal_backspace write_visible terminal_putchar
backspace_then_newline = refl

print_example :
    IsCursor (print hey nearly_end)
    × (position (print hey nearly_end) ≡ 78 + 3)
    × ((print hey nearly_end).video_mem 80
        ≡ (if within 78 3 80 then 0x0f00 + get_or hey (80 - 78) 0 else 0))
print_example = print_lem hey nearly_end 80 nearly_end-IsCursor hey-AreVisible (omega arith)
