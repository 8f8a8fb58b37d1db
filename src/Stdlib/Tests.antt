-- ===== src/Stdlib/Tests.antt =====
-- The theorems about the program library at concrete texts.
use bimble_os.Common.{
  ℕ, ◌+◌, ◌≡◌, refl, true, some, none, List, [], ◌∷◌, arith, length, replicate, map,
}
use bimble_os.Stdlib.{
  itoa, write_digits, printf, bimbleos_parse_command, bimbleos_terminal_realine, copied,
}
use bimble_os.Stdlib.Commands.{words, bimbleos_parse_command_lem}
use bimble_os.Stdlib.Digits.{IntText, itoa_lem}
use bimble_os.Stdlib.Formats.{
  Piece, plain, int_piece, text_piece, ArePlain, format_of, arguments_of, Shown, printf_lem,
}
use bimble_os.Stdlib.Joined.{AreWords}
use bimble_os.Stdlib.Lines.{edited, onto, HasReturn, bimbleos_terminal_realine_lem}

-- -2147483648.
itoa_example :
    IntText 0x8000_0000 (itoa 0x8000_0000).1
    × ((itoa 0x8000_0000).0 + length (itoa 0x8000_0000).1 ≡ 11)
itoa_example = itoa_lem 0x8000_0000 (omega arith)

itoa_runs : itoa 0xffff_ffff ≡ (9, b'-' ∷ b'1' ∷ [])
unfolding itoa write_digits
itoa_runs = refl

-- " ls  a".
abbrev command : List ℕ
command = b' ' ∷ b'l' ∷ b's' ∷ b' ' ∷ b' ' ∷ b'a' ∷ []

parse_command_example :
    bimbleos_parse_command (λ n. true) command 1024 none
    ≡ (map (copied 512) (words [] (copied 1025 command)), none)
parse_command_example =
    bimbleos_parse_command_lem (λ n. true) (λ n. refl) command 1024 (omega arith)

words_runs : words [] command ≡ (b'l' ∷ b's' ∷ []) ∷ (b'a' ∷ []) ∷ []
unfolding words
words_runs = refl

abbrev two_words : List (List ℕ)
two_words = (b'l' ∷ b's' ∷ []) ∷ (b'a' ∷ []) ∷ []

two_words-AreWords : AreWords two_words
unfolding AreWords
two_words-AreWords = (
  omega arith,
  omega arith,
  (omega arith, (omega arith, tt)),
  (omega arith, omega arith, (omega arith, tt), tt),
)

-- "%i-%s" with 7 and "a".
abbrev pieces : List Piece
pieces = int_piece 7 ∷ plain b'-' ∷ text_piece (b'a' ∷ []) ∷ []

pieces-ArePlain : ArePlain pieces
unfolding ArePlain
pieces-ArePlain = (omega arith, (λ e. omega (arith, e), tt))

printf_example :
    (s : List ℕ) × (printf (format_of pieces) (arguments_of pieces) ≡ some s) × Shown pieces s
printf_example = printf_lem pieces pieces-ArePlain

-- "lz", backspace, "s" and the return key.
abbrev keys : List ℕ
keys = b'l' ∷ b'z' ∷ 8 ∷ b's' ∷ 13 ∷ []

keys-HasReturn : HasReturn keys
unfolding HasReturn
keys-HasReturn = tt

realine_example :
    (rest : List ℕ) × (printed : List ℕ) × (bimbleos_terminal_realine (replicate 8 0) 8 true keys
      ≡ some (onto (edited [] keys) (0 ∷ rest), printed))
realine_example =
    bimbleos_terminal_realine_lem keys (replicate 8 0) 8 true keys-HasReturn (omega arith) refl
      (omega arith)

edited_runs : edited [] keys ≡ b's' ∷ b'l' ∷ []
unfolding edited
edited_runs = refl
