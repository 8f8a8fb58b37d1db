-- ===== src/Terminal/Cursor.antt =====
-- The cursor as one position in the video memory, and what printing and erasing do there.
use bimble_os.Common.{
  ℕ, suc, ◌+◌, ◌-◌, ◌≤◌, ◌<◌, ◌≡◌, ◌≢◌, ◌⊎◌, inl, inr, refl, ap, ◌∙◌, true, false, Bool-cases, List,
  [], ◌∷◌, arith, length, get_or, ◌==◌, leb, ltb, if◌then◌else◌, bit_or,
}
use bimble_os.Common.Bits.{bit_or-shl}
use bimble_os.Common.Word.{word_size, add32, mul32}
use bimble_os.Memory.Laws.{within}
use bimble_os.Terminal.{
  Terminal, vga_width, behind_row, terminal_make_char, terminal_putchar, write_visible,
  terminal_writechar, print,
}

-- The index of the cursor in the video memory.
abbrev pub position : Terminal → ℕ
position t = add32 (mul32 vga_width t.terminal_row) t.terminal_column

-- The column is not behind the row's end; it can be negative.
pub record IsCursor (t : Terminal) : Type 0 where
  pub row : t.terminal_row < word_size
  pub column : (t.terminal_column < vga_width) ⊎ (0x8000_0000 ≤ t.terminal_column)
  pub word : t.terminal_column < word_size

-- An ASCII character that is printed as it is.
abbrev pub IsVisible : ℕ → Type 0
IsVisible c = (c < 128) × (c ≢ 0x0a) × (c ≢ 0x08)

abbrev pub AreVisible : List ℕ → Type 0
AreVisible [] = Unit
AreVisible (c ∷ str) = IsVisible c × AreVisible str

make_char_white : (c : ℕ) → c < 128 → terminal_make_char c 15 ≡ 0x0f00 + c
unfolding terminal_make_char
make_char_white c h =
    let ascii : ltb c 128 ≡ true = ground arith in
    let fields : bit_or 3840 c ≡ 3840 + c = bit_or-shl 8 3840 15 c refl (omega arith) in
    rw (ascii, fields) (omega arith)

-- What `write_visible` does.
write_cells :
    (c : ℕ) (t : Terminal) (i : ℕ)
    → (write_visible c 15 t).video_mem i
      ≡ (if i == position t then terminal_make_char c 15 else t.video_mem i)
unfolding write_visible terminal_putchar
write_cells c t i = elim (Bool-cases (behind_row (add32 t.terminal_column 1))) [
  | inl end ↦ rw end refl
  | inr inside ↦ rw inside refl
]

last_column :
    (column : ℕ)
    → column < word_size
    → (column < vga_width) ⊎ (0x8000_0000 ≤ column)
    → behind_row (add32 column 1) ≡ true
    → column ≡ 79
last_column column w h end = ground arith

next_row : (row : ℕ) → add32 (mul32 80 (add32 row 1)) 0 ≡ add32 (add32 (mul32 80 row) 79) 1
next_row row = omega arith

next_column : (x column : ℕ) → add32 x (add32 column 1) ≡ add32 (add32 x column) 1
next_column x column = omega arith

still_inside :
    (column : ℕ)
    → column < word_size
    → (column < vga_width) ⊎ (0x8000_0000 ≤ column)
    → behind_row (add32 column 1) ≡ false
    → (add32 column 1 < vga_width) ⊎ (0x8000_0000 ≤ add32 column 1)
still_inside column w h inside = ground arith

pub write_position :
    (c : ℕ) (t : Terminal) → IsCursor t → position (write_visible c 15 t) ≡ add32 (position t) 1
unfolding write_visible terminal_putchar
write_position c t v = elim (Bool-cases (behind_row (add32 t.terminal_column 1))) [
  | inl end ↦
      let e : t.terminal_column ≡ 79 = last_column (t.terminal_column) v.word v.column end in
      rw (end, e) (next_row (t.terminal_row))
  | inr inside ↦ rw inside (next_column (mul32 80 t.terminal_row) (t.terminal_column))
]

pub write-IsCursor : (c : ℕ) (t : Terminal) → IsCursor t → IsCursor (write_visible c 15 t)
unfolding write_visible terminal_putchar
write-IsCursor c t v = elim (Bool-cases (behind_row (add32 t.terminal_column 1))) [
  | inl end ↦ rw end (record { row = ground arith; column = inl (omega arith); word = omega arith })
  | inr inside ↦ rw inside (record {
    row = v.row;
    column = still_inside (t.terminal_column) v.word v.column inside;
    word = ground arith;
  })
]

-- A visible character is written at the cursor, in white.
pub writechar_visible :
    (c : ℕ) (t : Terminal) → IsVisible c → terminal_writechar c 15 t ≡ write_visible c 15 t
unfolding terminal_writechar
writechar_visible c t v =
    let newline : (c == 0x0a) ≡ false = ground (arith, v.1) in
    let erase : (c == 0x08) ≡ false = ground (arith, v.2) in rw (newline, erase) refl

-- The cells of a text are its first one and those of the rest.
cell_step :
    (c : ℕ) (str : List ℕ) (p i old : ℕ)
    → (if within (p + 1) (length str) i
        then 0x0f00 + get_or str (i - (p + 1)) 0
        else if i == p
        then 0x0f00 + c
        else old)
      ≡ (if within p (suc (length str)) i then 0x0f00 + get_or (c ∷ str) (i - p) 0 else old)
cell_step c str p i old = elim (Bool-cases (leb (p + 1) i)) [
  | inl behind ↦ let e : i - p ≡ suc (i - (p + 1)) = ground arith in rw e (ground arith)
  | inr before ↦ elim (Bool-cases (i == p)) [
    | inl here ↦ let e : i - p ≡ 0 = ground arith in rw e (ground arith)
    | inr there ↦ ground arith
  ]
]

print_step :
    (c : ℕ) (str : List ℕ) (t : Terminal)
    → IsVisible c
    → print (c ∷ str) t ≡ print str (write_visible c 15 t)
unfolding print
print_step c str t v = ap (print str) (writechar_visible c t v)

pub first_cell :
    (c : ℕ) (t : Terminal) (i : ℕ)
    → c < 128
    → (write_visible c 15 t).video_mem i ≡ (if i == position t then 0x0f00 + c else t.video_mem i)
first_cell c t i h =
    write_cells c t i ∙ ap (λ x. if i == position t then x else t.video_mem i) (make_char_white c h)

-- Printing visible characters writes each of them, in white on black, at the positions from the cursor on, over
-- any number of rows, leaves the rest of the video memory as it is, and moves the cursor behind
-- them, if these positions lie within the address space.
pub print_lem :
    (str : List ℕ) (t : Terminal) (i : ℕ)
    → IsCursor t
    → AreVisible str
    → position t + length str < word_size
    → IsCursor (print str t)
      × (position (print str t) ≡ position t + length str)
      × ((print str t).video_mem i ≡ (
          if within (position t) (length str) i
          then 0x0f00 + get_or str (i - position t) 0
          else t.video_mem i))
unfolding print
print_lem [] t i v visible room = (v, ground arith, ground arith)
print_lem (c ∷ str) t i v visible room =
    let t' = write_visible c 15 t in
    let here : position t' ≡ position t + 1 = write_position c t v ∙ omega arith in
    let (v', moved, cells) =
      print_lem str t' i (write-IsCursor c t v) visible.1 (omega (arith, here)) in
    rw (print_step c str t visible.0) (
      v',
      omega (arith, moved, here),
      rw (cells, here, first_cell c t i visible.0.0)
          (cell_step c str (position t) i (t.video_mem i)),
    )
