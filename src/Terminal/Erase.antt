-- ===== src/Terminal/Erase.antt =====
-- What terminal_backspace does at the cursor's position.
use bimble_os.Common.{
  ℕ, ◌-◌, ◌≤◌, ◌<◌, ◌≡◌, ◌≢◌, ◌⊎◌, inl, inr, refl, ap, ◌∙◌, false, Bool-cases, arith, ◌==◌, ◌&&◌,
  if◌then◌else◌,
}
use bimble_os.Common.Word.{word_size, add32, sub32, mul32}
use bimble_os.Terminal.{
  Terminal, vga_width, behind_row, write_visible, terminal_putchar, terminal_backspace,
}
use bimble_os.Terminal.Cursor.{IsCursor, position, first_cell, write_position, write-IsCursor}

-- The cursor one column back.
abbrev back : Terminal → Terminal
back t = record t { terminal_column = sub32 t.terminal_column 1 }

-- The cursor behind the end of the row above, where it is at the start of a row.
abbrev above : Terminal → Terminal
above t =
    if t.terminal_column == 0
    then record t { terminal_row = sub32 t.terminal_row 1; terminal_column = vga_width }
    else t

back_position :
    (x column : ℕ) → column < word_size → add32 x (sub32 column 1) ≡ sub32 (add32 x column) 1
back_position x column h = omega arith

position-above : (t : Terminal) → IsCursor t → position (above t) ≡ position t
position-above t v = elim (Bool-cases (t.terminal_column == 0)) [
  | inl start ↦
      let e : t.terminal_column ≡ 0 = ground arith in
      rw (start, e) (row_above (t.terminal_row) v.row)
  | inr inside ↦ rw inside refl
]
  where
    row_above :
        (row : ℕ) → row < word_size → add32 (mul32 80 (sub32 row 1)) 80 ≡ add32 (mul32 80 row) 0
    row_above row h = omega arith

column_before :
    (column : ℕ)
    → column < word_size
    → (column < vga_width) ⊎ (0x8000_0000 ≤ column)
    → (column == 0) ≡ false
    → column ≢ 0x8000_0000
    → (sub32 column 1 < vga_width) ⊎ (0x8000_0000 ≤ sub32 column 1)
column_before column w h inside ne = ground arith

back-IsCursor :
    (t : Terminal) → IsCursor t → t.terminal_column ≢ 0x8000_0000 → IsCursor (back (above t))
back-IsCursor t v ne = elim (Bool-cases (t.terminal_column == 0)) [
  | inl start ↦
      rw start (record { row = omega arith; column = inl (omega arith); word = omega arith })
  | inr inside ↦ rw inside (record {
    row = v.row;
    column = column_before (t.terminal_column) v.word v.column inside ne;
    word = omega arith;
  })
]

written_column :
    (column : ℕ)
    → column < word_size
    → (column < vga_width) ⊎ (0x8000_0000 ≤ column)
    → behind_row (add32 column 1) ≡ false
    → (sub32 (add32 column 1) 1 < vga_width) ⊎ (0x8000_0000 ≤ sub32 (add32 column 1) 1)
written_column column w h inside = ground arith

blank-IsCursor : (c : ℕ) (t : Terminal) → IsCursor t → IsCursor (back (write_visible c 15 t))
unfolding write_visible terminal_putchar
blank-IsCursor c t v = elim (Bool-cases (behind_row (add32 t.terminal_column 1))) [
  | inl end ↦ rw end (record { row = omega arith; column = inr (omega arith); word = omega arith })
  | inr inside ↦ rw inside (record {
    row = v.row;
    column = written_column (t.terminal_column) v.word v.column inside;
    word = omega arith;
  })
]

not_origin : (row column : ℕ) → 0 < add32 (mul32 80 row) column → (row == 0 && column == 0) ≡ false
not_origin row column h = ground arith

above_word : (t : Terminal) → IsCursor t → (above t).terminal_column < word_size
above_word t v = elim (Bool-cases (t.terminal_column == 0)) [
  | inl start ↦ rw start (omega arith)
  | inr inside ↦ rw inside v.word
]

above_cells : (t : Terminal) (i : ℕ) → (above t).video_mem i ≡ t.video_mem i
above_cells t i = elim (Bool-cases (t.terminal_column == 0)) [
  | inl start ↦ rw start refl
  | inr inside ↦ rw inside refl
]

before : (p : ℕ) → 0 < p → p < word_size → sub32 p 1 ≡ p - 1
before p h w = omega arith

after_before : (p : ℕ) → p < word_size → sub32 (add32 p 1) 1 ≡ p
after_before p w = omega arith

position_word : (t : Terminal) → position t < word_size
position_word t = omega arith

moved_back :
    (t : Terminal) → IsCursor t → 0 < position t → position (back (above t)) ≡ position t - 1
moved_back t v h =
    back_position (mul32 80 (above t).terminal_row) ((above t).terminal_column) (above_word t v)
    ∙ ap (λ p. sub32 p 1) (position-above t v)
    ∙ before (position t) h (position_word t)

-- Writing a character and going one column back leaves the cursor where it was.
written_back :
    (c : ℕ) (t : Terminal) → IsCursor t → position (back (write_visible c 15 t)) ≡ position t
written_back c t v =
    let t' = write_visible c 15 t in
    back_position (mul32 80 t'.terminal_row) (t'.terminal_column) (write-IsCursor c t v).word
    ∙ ap (λ p. sub32 p 1) (write_position c t v)
    ∙ after_before (position t) (position_word t)

backspace_eq :
    (t : Terminal)
    → IsCursor t
    → 0 < position t
    → terminal_backspace t ≡ back (write_visible b' ' 15 (back (above t)))
unfolding terminal_backspace
backspace_eq t v h =
    let away : (t.terminal_row == 0 && t.terminal_column == 0) ≡ false =
      not_origin (t.terminal_row) (t.terminal_column) h in
    rw away refl

-- terminal_backspace moves a cursor that is not at position 0 one position back, over the end of the row
-- above where it is at the start of a row, writes a space there, and leaves the rest of the video memory as it is. The
-- column must not be the least `int`.
pub terminal_backspace_lem :
    (t : Terminal) (i : ℕ)
    → IsCursor t
    → t.terminal_column ≢ 0x8000_0000
    → 0 < position t
    → IsCursor (terminal_backspace t)
      × (position (terminal_backspace t) ≡ position t - 1)
      × ((terminal_backspace t).video_mem i
          ≡ (if i == position t - 1 then 0x0f20 else t.video_mem i))
terminal_backspace_lem t i v ne h =
    let t' = back (above t) in
    let v' : IsCursor t' = back-IsCursor t v ne in
    let at : position t' ≡ position t - 1 = moved_back t v h in
    rw (backspace_eq t v h) (
      blank-IsCursor b' ' t' v',
      written_back b' ' t' v' ∙ at,
      first_cell b' ' t' i (omega arith) ∙ rw (at, above_cells t i) refl,
    )
