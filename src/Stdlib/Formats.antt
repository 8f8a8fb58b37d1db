-- ===== src/Stdlib/Formats.antt =====
-- printf of formats made of characters, %i and %s.
use bimble_os.Common.{ℕ, ◌≡◌, ◌≢◌, refl, ◌<◌, false, some, List, [], ◌∷◌, ◌++◌, arith, take, ◌==◌}
use bimble_os.Common.Word.{word_size}
use bimble_os.Stdlib.Digits.{IntText, itoa_lem}
use bimble_os.Stdlib.{printf, itoa, Argument, int_argument, text_argument}

pub data Piece : Type 0 where
  plain : ℕ → Piece
  int_piece : ℕ → Piece
  text_piece : List ℕ → Piece

-- The format, its arguments and what is meant to be printed.
abbrev pub format_of : List Piece → List ℕ
format_of [] = []
format_of (plain c ∷ ps) = c ∷ format_of ps
format_of (int_piece i ∷ ps) = b'%' ∷ b'i' ∷ format_of ps
format_of (text_piece t ∷ ps) = b'%' ∷ b's' ∷ format_of ps

abbrev pub arguments_of : List Piece → List Argument
arguments_of [] = []
arguments_of (plain c ∷ ps) = arguments_of ps
arguments_of (int_piece i ∷ ps) = int_argument i ∷ arguments_of ps
arguments_of (text_piece t ∷ ps) = text_argument t ∷ arguments_of ps

-- The text is one that is meant to be printed: a string's first 1023 characters.
abbrev pub Shown : List Piece → List ℕ → Type 0
Shown [] s = s ≡ []
Shown (plain c ∷ ps) s = (rest : List ℕ) × (s ≡ c ∷ rest) × Shown ps rest
Shown (int_piece i ∷ ps) s =
    (t : List ℕ) × (rest : List ℕ) × (s ≡ t ++ rest) × IntText i t × Shown ps rest
Shown (text_piece t ∷ ps) s = (rest : List ℕ) × (s ≡ take 1023 t ++ rest) × Shown ps rest

-- No plain character is a percent sign, and the numbers are those of `int`s.
unfoldable pub ArePlain : List Piece → Type 0
ArePlain [] = Unit
ArePlain (plain c ∷ ps) = (c ≢ b'%') × ArePlain ps
ArePlain (int_piece i ∷ ps) = (i < word_size) × ArePlain ps
ArePlain (text_piece t ∷ ps) = ArePlain ps

-- `printf` of a format of characters other than the percent sign, %i and %s, with an `int` for each %i
-- and a string for each %s, prints in order the characters, the decimal digits of the `int`s, behind
-- a minus sign where they are negative and only there, and the first 1023 characters of the strings.
pub printf_lem :
    (ps : List Piece)
    → ArePlain ps
    → (s : List ℕ) × (printf (format_of ps) (arguments_of ps) ≡ some s) × Shown ps s
unfolding printf ArePlain
printf_lem [] h = ([], refl, refl)
printf_lem (plain c ∷ ps) h =
    let other : (c == b'%') ≡ false = let n = h.0 in ground arith in
    let (rest, e, shows) = printf_lem ps h.1 in (c ∷ rest, rw (other, e) refl, (rest, refl, shows))
printf_lem (int_piece i ∷ ps) h =
    let (rest, e, shows) = printf_lem ps h.1 in
    ((itoa i).1 ++ rest, rw e refl, ((itoa i).1, rest, refl, (itoa_lem i h.0).0, shows))
printf_lem (text_piece t ∷ ps) h =
    let (rest, e, shows) = printf_lem ps h in (take 1023 t ++ rest, rw e refl, (rest, refl, shows))
