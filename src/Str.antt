-- ===== src/Str.antt =====
-- string/string.c: a C string is the list of its bytes before the terminating 0, and a buffer the list
-- of its bytes. A write behind a buffer's end changes nothing here. An `int` result is its bit pattern.
-- The program library has the same text in programs/stdlib/src/string.c.
pub mod Compare
pub mod Copy
mod Tests
use bimble_os.Common.{
  ℕ, zero, suc, ◌+◌, ◌-◌, Bool, ◌&&◌, ◌||◌, List, [], ◌∷◌, ◌==◌, leb, if◌then◌else◌, length, set,
}
use mathlib.Core.Bool.{not}
use bimble_os.Common.Word.{sub32}

-- `*s` and `s + 1`.
abbrev pub first_char : List ℕ → ℕ
first_char [] = 0
first_char (c ∷ s) = c

abbrev pub next_chars : List ℕ → List ℕ
next_chars [] = []
next_chars (c ∷ s) = s

unfoldable pub tolower : ℕ → ℕ
tolower s1 = if leb 65 s1 && leb s1 90 then s1 + 32 else s1

unfoldable pub strlen : List ℕ → ℕ
strlen str = length str

unfoldable pub strnlen : List ℕ → ℕ → ℕ
strnlen str zero = 0
strnlen str (suc max) = if first_char str == 0 then 0 else suc (strnlen (next_chars str) max)

unfoldable pub is_digit : ℕ → Bool
is_digit c = leb 48 c && leb c 57

unfoldable pub to_numeric_digit : ℕ → ℕ
to_numeric_digit c = sub32 c 48

unfoldable pub istrncmp : List ℕ → List ℕ → ℕ → ℕ
istrncmp s1 s2 zero = 0
istrncmp s1 s2 (suc n) =
    let u1 = first_char s1 in
    let u2 = first_char s2 in
    let rest = istrncmp (next_chars s1) (next_chars s2) n in
    if not (u1 == u2) && not (tolower u1 == tolower u2)
    then sub32 u1 u2
    else if u1 == 0
    then 0
    else rest

unfoldable pub strnlen_terminator : List ℕ → ℕ → ℕ → ℕ
strnlen_terminator str zero terminator = 0
strnlen_terminator str (suc max) terminator =
    let c = first_char str in
    if c == 0 || c == terminator
    then 0
    else suc (strnlen_terminator (next_chars str) max terminator)

unfoldable pub strncmp : List ℕ → List ℕ → ℕ → ℕ
strncmp str1 str2 zero = 0
strncmp str1 str2 (suc n) =
    let u1 = first_char str1 in
    let u2 = first_char str2 in
    let rest = strncmp (next_chars str1) (next_chars str2) n in
    if not (u1 == u2) then sub32 u1 u2 else if u1 == 0 then 0 else rest

-- The loop of `strcpy` from index `i` of the buffer on, and the 0 behind the text.
unfoldable pub strcpy_from : List ℕ → ℕ → List ℕ → List ℕ
strcpy_from dest i [] = set dest i 0
strcpy_from dest i (c ∷ src) = strcpy_from (set dest i c) (i + 1) src

unfoldable pub strcpy : List ℕ → List ℕ → List ℕ
unfolding strcpy_from
strcpy dest src = strcpy_from dest 0 src

-- The loop of `strncpy` with the rounds left, and the 0 behind it.
unfoldable pub strncpy_from : ℕ → List ℕ → ℕ → List ℕ → List ℕ
strncpy_from zero dest i src = set dest i 0
strncpy_from (suc n) dest i src =
    let rest = strncpy_from n (set dest i (first_char src)) (i + 1) (next_chars src) in
    if first_char src == 0 then set dest i 0 else rest

unfoldable pub strncpy : List ℕ → List ℕ → ℕ → List ℕ
unfolding strncpy_from
strncpy dest src count = strncpy_from (count - 1) dest 0 src
