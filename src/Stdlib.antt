-- ===== src/Stdlib.antt =====
-- programs/stdlib/src: the C library that the programs of the system are linked with. The system calls
-- below it are not modelled: keys, allocations and arguments are given. A C string is the list of its
-- characters up to its 0; an `int` is its bit pattern.
pub mod Commands
pub mod Digits
pub mod Formats
pub mod Joined
pub mod Lines
mod Tests
use bimble_os.Common.{
  ℕ, zero, suc, ◌+◌, ◌-◌, ◌/◌, ◌%◌, Bool, true, false, ◌&&◌, ◌||◌, Option, none, some, List, [],
  ◌∷◌, ◌++◌, leb, ltb, ◌==◌, if◌then◌else◌, take, set,
}
use bimble_os.Common.Word.{word_size, sub32}

-- The rounds of the loop of `itoa`, of which the text has room for fewer.
abbrev pub text_size : ℕ
text_size = 12

-- The loop of `itoa`, with fuel: `m` is -i, `loc` the index in `text`, and `s` the characters from
-- there on.
unfoldable pub write_digits : ℕ → ℕ → ℕ × List ℕ → ℕ × List ℕ
write_digits zero m (loc, s) = (loc, s)
write_digits (suc fuel) m (loc, s) =
    let rest = write_digits fuel (m / 10) (loc - 1, (48 + m % 10) ∷ s) in
    if m == 0 then (loc, s) else rest

-- The index of the first character in `text`, and the characters.
unfoldable pub itoa : ℕ → ℕ × List ℕ
itoa i =
    let neg = leb 0x8000_0000 i in
    let m = if neg then word_size - i else i in
    let written = write_digits text_size m (11, []) in
    let (loc, s) : ℕ × List ℕ =
      if written.0 == 11 then (written.0 - 1, b'0' ∷ written.1) else written in
    if neg then (loc - 1, b'-' ∷ s) else (loc, s)

-- The inner loop of `strtok` over the delimiters, with its test `i < len`.
unfoldable pub is_delimiter : List ℕ → ℕ → Bool
is_delimiter [] c = false
is_delimiter (d ∷ deliminators) c = c == d || is_delimiter deliminators c

-- The first loop of `strtok`: the text from its first character that is no delimiter.
unfoldable pub skip_delimiters : List ℕ → List ℕ → List ℕ
skip_delimiters deliminators [] = []
skip_delimiters deliminators (c ∷ s) =
    let rest = skip_delimiters deliminators s in if is_delimiter deliminators c then rest else c ∷ s

-- The second loop: the characters up to a delimiter, and `sp` behind it or at the end.
unfoldable pub token_end : List ℕ → List ℕ → List ℕ × List ℕ
token_end deliminators [] = ([], [])
token_end deliminators (c ∷ s) =
    let rest = token_end deliminators s in
    if is_delimiter deliminators c then ([], s) else (c ∷ rest.0, rest.1)

-- The result and the global `sp`, where NULL is `none`. A string is looked at only while `sp` is NULL.
unfoldable pub strtok :
    Option (List ℕ) → List ℕ → Option (List ℕ) → Option (List ℕ) × Option (List ℕ)
strtok str deliminators sp =
    let start : List ℕ → Option (List ℕ) × Option (List ℕ) = λ s.
      elim (skip_delimiters deliminators s) [
        | [] ↦ (none, none)
        | c ∷ rest ↦
            let (token, behind) = token_end deliminators (c ∷ rest) in (some token, some behind)
      ] in
    elim sp [ some s ↦ start s | none ↦ elim str [ some s ↦ start s | none ↦ (none, none) ] ]

abbrev pub space : List ℕ
space = b' ' ∷ []

-- The text that `strncpy` of at most `n` bytes leaves in a buffer.
abbrev pub copied : ℕ → List ℕ → List ℕ
copied n s = take (n - 1) s

-- Whether the n-th allocation succeeds is given.
module _ (succeeds : ℕ → Bool) where
  -- The loop of `bimbleos_parse_command`, with fuel: the arguments behind those found so far, of which
  -- there are `n`, and `sp`.
  unfoldable pub more_arguments : ℕ → ℕ → Option (List ℕ) → List (List ℕ) × Option (List ℕ)
  more_arguments zero n sp = ([], sp)
  more_arguments (suc fuel) n sp =
      let (token, sp') = strtok none space sp in
      elim token [
        | none ↦ ([], sp')
        | some t ↦
            let rest = more_arguments fuel (n + 1) sp' in
            if succeeds n then (copied 512 t ∷ rest.0, rest.1) else ([], sp')
      ]

  -- NULL is the empty list. Each call of `strtok` takes a character, so that the fuel is enough.
  unfoldable pub bimbleos_parse_command :
      List ℕ → ℕ → Option (List ℕ) → List (List ℕ) × Option (List ℕ)
  bimbleos_parse_command command max sp =
      let scommand = copied 1025 command in
      let (token, sp') = strtok (some scommand) space sp in
      let parsed : List (List ℕ) × Option (List ℕ) = elim token [
        | none ↦ ([], sp')
        | some t ↦
            let rest = more_arguments 1025 1 sp' in
            if succeeds 0 then (copied 512 t ∷ rest.0, rest.1) else ([], sp')
      ] in
      if leb 1025 max && ltb max 0x8000_0000 then ([], sp) else parsed

-- `bimbleos_system_run`, down to the system call: its arguments, or -1 where there are none.
unfoldable pub bimbleos_system_run :
    (ℕ → Bool) → List ℕ → Option (List ℕ) → Option (List (List ℕ)) × Option (List ℕ)
bimbleos_system_run succeeds command sp =
    let (arguments, sp') = bimbleos_parse_command succeeds (copied 1024 command) 1024 sp in
    elim arguments [ [] ↦ (none, sp') | a ∷ rest ↦ (some (a ∷ rest), sp') ]

-- An argument of `printf`.
pub data Argument : Type 0 where
  int_argument : ℕ → Argument
  text_argument : List ℕ → Argument

-- What `printf` prints; a call of `print` comes to the system call 1, which prints at most 1023
-- characters. `none` where it reads behind its format or an argument that is not there or
-- of the other type.
unfoldable mutual
  pub printf : List ℕ → List Argument → Option (List ℕ)
  printf [] ap = some []
  printf (c ∷ fmt) ap =
      let converted = format_argument fmt ap in
      let plain : Option (List ℕ) = elim (printf fmt ap) [ none ↦ none | some s ↦ some (c ∷ s) ] in
      if c == b'%' then converted else plain

  pub format_argument : List ℕ → List Argument → Option (List ℕ)
  format_argument [] ap = none
  format_argument (c ∷ fmt) [] =
      let rest = printf fmt [] in if c == b'i' || c == b's' then none else rest
  format_argument (c ∷ fmt) (int_argument i ∷ ap) =
      let rest = printf fmt (int_argument i ∷ ap) in
      let shown : Option (List ℕ) = elim (printf fmt ap) [
        | none ↦ none
        | some s ↦ some ((itoa i).1 ++ s)
      ] in
      if c == b'i' then shown else if c == b's' then none else rest
  format_argument (c ∷ fmt) (text_argument t ∷ ap) =
      let rest = printf fmt (text_argument t ∷ ap) in
      let shown : Option (List ℕ) = elim (printf fmt ap) [
        | none ↦ none
        | some s ↦ some (take 1023 t ++ s)
      ] in
      if c == b's' then shown else if c == b'i' then none else rest

-- The loop of `bimbleos_terminal_realine` over the keys that `bimbleos_getkey` gives, from index `i`
-- on: the buffer and the characters echoed, or `none` where the keys run out. `bimbleos_getkeyblock`
-- passes over the keys that are 0; a key is a character below 128.
unfoldable pub read_keys : List ℕ → ℕ → List ℕ → ℕ → List ℕ → Option (List ℕ × List ℕ)
read_keys [] max out i echoed = if ltb i (sub32 max 1) then none else some (set out i 0, echoed)
read_keys (key ∷ keys) max out i echoed =
    let skipped = read_keys keys max out i echoed in
    let erased =
      read_keys keys max (set (set out i key) (i - 1) 0) (i - 1) (echoed ++ (key ∷ [])) in
    let stored = read_keys keys max (set out i key) (i + 1) (echoed ++ (key ∷ [])) in
    if leb (sub32 max 1) i
    then some (set out i 0, echoed)
    else if key == 0
    then skipped
    else if key == 0x0D
    then some (set out i 0, echoed)
    else if key == 0x08 && leb 1 i
    then erased
    else stored

unfoldable pub bimbleos_terminal_realine : List ℕ → ℕ → Bool → List ℕ → Option (List ℕ × List ℕ)
bimbleos_terminal_realine out max echo keys = elim (read_keys keys max out 0 []) [
  | none ↦ none
  | some (buffer, echoed) ↦ some (buffer, if echo then echoed else [])
]
