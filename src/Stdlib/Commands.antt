-- ===== src/Stdlib/Commands.antt =====
-- strtok and bimbleos_parse_command against the division of a text into its words.
use bimble_os.Common.{
  ℕ, zero, suc, ◌+◌, ◌≤◌, ◌<◌, ◌≡◌, ◌⊎◌, refl, ap, ◌∙◌, true, false, Bool, Option, none, some, List,
  [], ◌∷◌, ◌++◌, inl, inr, arith, length, leb, ◌==◌, Bool-cases, if◌then◌else◌, map, take,
}
use mathlib.Core.List.{append_assoc, append-nil}
use bimble_os.Stdlib.{
  strtok, token_end, skip_delimiters, is_delimiter, space, copied, more_arguments,
  bimbleos_parse_command,
}

-- The words of a text, a word that has begun being given.
abbrev pub end_word : List ℕ → List (List ℕ) → List (List ℕ)
end_word [] ws = ws
end_word (c ∷ cs) ws = (c ∷ cs) ∷ ws

unfoldable pub words : List ℕ → List ℕ → List (List ℕ)
words begun [] = end_word begun []
words begun (c ∷ s) = if c == b' ' then end_word begun (words [] s) else words (begun ++ (c ∷ [])) s

is_delimiter-space : (c : ℕ) → is_delimiter space c ≡ (c == b' ')
unfolding is_delimiter
is_delimiter-space c = ground arith

words-skip : (s : List ℕ) → words [] s ≡ words [] (skip_delimiters space s)
unfolding words skip_delimiters
words-skip [] = refl
words-skip (c ∷ s) = elim (Bool-cases (c == b' ')) [
  | inl e ↦ rw (is_delimiter-space c, e) (words-skip s)
  | inr e ↦ rw (is_delimiter-space c, e, e) refl
]

-- What is left is empty or begins with no space.
skip_cases :
    (s : List ℕ)
    → (skip_delimiters space s ≡ [])
      ⊎ ((c : ℕ) × (rest : List ℕ) × (skip_delimiters space s ≡ c ∷ rest)
          × ((c == b' ') ≡ false)
          × (length rest < length s))
unfolding skip_delimiters
skip_cases [] = inl refl
skip_cases (d ∷ s) = elim (Bool-cases (d == b' ')) [
  | inr b ↦ inr (d, s, rw (is_delimiter-space d, b) refl, b, omega arith)
  | inl b ↦ elim (skip_cases s) [
    | inl e ↦ inl (rw (is_delimiter-space d, b) e)
    | inr (c, rest, e, h, l) ↦ inr (c, rest, rw (is_delimiter-space d, b) e, h, omega (arith, l))
  ]
]

words-token_end :
    (s begun : List ℕ)
    → words begun s ≡ end_word (begun ++ (token_end space s).0) (words [] (token_end space s).1)
unfolding words token_end
words-token_end [] begun = rw (append-nil begun) refl
words-token_end (c ∷ s) begun = elim (Bool-cases (c == b' ')) [
  | inl e ↦ rw (is_delimiter-space c, e, append-nil begun) refl
  | inr e ↦
      rw (is_delimiter-space c, e)
        (words-token_end s (begun ++ (c ∷ []))
          ∙ ap (λ t. end_word t (words [] (token_end space s).1))
              (append_assoc begun (c ∷ []) (token_end space s).0))
]

length-token_end : (s : List ℕ) → length (token_end space s).1 ≤ length s
unfolding token_end
length-token_end [] = omega arith
length-token_end (c ∷ s) = elim (Bool-cases (is_delimiter space c)) [
  | inl e ↦ rw e (omega arith)
  | inr e ↦ rw e (omega (arith, length-token_end s))
]

-- What a call of `strtok` with a space gives of a text: nothing where it has no word, or its first word
-- and where the others are.
Tokens : List ℕ → Option (List ℕ) × Option (List ℕ) → Type 0
Tokens s out =
    ((out ≡ (none, none)) × (words [] s ≡ []))
    ⊎ ((t : List ℕ) × (behind : List ℕ) × (out ≡ (some t, some behind))
        × (words [] s ≡ t ∷ words [] behind)
        × (length behind < length s))

first_word :
    (c : ℕ) (rest s : List ℕ)
    → skip_delimiters space s ≡ c ∷ rest
    → (c == b' ') ≡ false
    → words [] s ≡ (c ∷ (token_end space rest).0) ∷ words [] (token_end space rest).1
unfolding token_end
first_word c rest s e h =
    words-skip s
    ∙ ap (words []) e
    ∙ words-token_end (c ∷ rest) []
    ∙ rw (token_end, is_delimiter-space c, h) refl

strtok-Tokens : (s : List ℕ) → Tokens s (strtok none space (some s))
unfolding strtok Tokens token_end words
strtok-Tokens s = elim (skip_cases s) [
  | inl e ↦ inl (rw (strtok, e) refl, words-skip s ∙ ap (words []) e)
  | inr (c, rest, e, h, l) ↦ inr (
    c ∷ (token_end space rest).0,
    (token_end space rest).1,
    rw (strtok, e, token_end, is_delimiter-space c, h) refl,
    first_word c rest s e h,
    omega (arith, l, length-token_end rest),
  )
]

strtok-start : (s : List ℕ) → strtok (some s) space none ≡ strtok none space (some s)
unfolding strtok
strtok-start s = refl

abbrev all_copied : List (List ℕ) → List (List ℕ)
all_copied ws = map (copied 512) ws

module _ (succeeds : ℕ → Bool) (allocated : (n : ℕ) → succeeds n ≡ true) where
  more_arguments-words :
      (fuel n : ℕ) (s : List ℕ)
      → length s < fuel
      → more_arguments succeeds fuel n (some s) ≡ (all_copied (words [] s), none)
  unfolding more_arguments Tokens
  more_arguments-words zero n s lt = absurd (omega arith)
  more_arguments-words (suc fuel) n s lt = elim (strtok-Tokens s) [
    | inl (e, w) ↦ rw (more_arguments, e, e, w) refl
    | inr (t, behind, e, w, l) ↦
        rw
          (
            more_arguments,
            e,
            e,
            more_arguments-words fuel (n + 1) behind (omega (arith, l)),
            allocated n,
            w,
          )
          refl
  ]

  length-take : (n : ℕ) (s : List ℕ) → length (take n s) ≤ n
  length-take zero s = omega arith
  length-take (suc n) [] = omega arith
  length-take (suc n) (c ∷ s) = omega (arith, length-take n s)

  -- Where `strtok` has no string left from before, every allocation succeeds and the size is below
  -- 1025, `bimbleos_parse_command` gives the words of the command's first 1024 characters, as they
  -- are divided by spaces, each cut to 511 characters, and leaves `strtok` with no string.
  pub bimbleos_parse_command_lem :
      (command : List ℕ) (max : ℕ)
      → max < 1025
      → bimbleos_parse_command succeeds command max none
        ≡ (map (copied 512) (words [] (copied 1025 command)), none)
  unfolding bimbleos_parse_command Tokens
  bimbleos_parse_command_lem command max lt =
      let small : leb 1025 max ≡ false = ground arith in
      let short = length-take 1024 command in
      let start = strtok-start (copied 1025 command) in
      elim (strtok-Tokens (copied 1025 command)) [
        | inl (e, w) ↦ rw (bimbleos_parse_command, start, e, small, start, e, w) refl
        | inr (t, behind, e, w, l) ↦
            rw
              (
                bimbleos_parse_command,
                start,
                e,
                start,
                e,
                more_arguments-words 1025 1 behind (omega (arith, l, short)),
                allocated 0,
                small,
                w,
              )
              refl
      ]
