-- ===== src/Keyboard/Keys.antt =====
-- What is typed by a sequence of scan codes.
use bimble_os.Common.{
  ℕ, ◌+◌, ◌-◌, ◌≤◌, ◌<◌, ◌⊎◌, ◌≡◌, ◌≢◌, refl, ap, ◌∙◌, Bool, Bool-cases, inl, inr, true, false,
  some, List, [], ◌∷◌, ◌++◌, arith, ◌==◌, leb, if◌then◌else◌, length, get_or,
}
use mathlib.Core.Bool.{not}
use bimble_os.Str.{tolower}
use bimble_os.Keyboard.{
  KeyboardBuffer, keyboard_scan_set_one, key_released, capslock_code, keyboard_push,
  classic_keyboard_scancode_to_char, classic_keyboard_handle_interrupt,
}
use bimble_os.Keyboard.Scan.{
  released_typed, capslock_typed, classic_keyboard_handle_interrupt_lem,
  classic_keyboard_scancode_to_char_lem,
}
use bimble_os.Keyboard.Typing.{push_all}

-- The character of a key: that of the table, in lower case where the caps lock is off.
abbrev pub key_char : Bool → ℕ → ℕ
key_char capslock code =
    let c = get_or keyboard_scan_set_one code 0 in if capslock then c else tolower c

-- A character other than 0, and nothing for 0.
abbrev pub unless_nul : ℕ → List ℕ
unless_nul c = if c == 0 then [] else c ∷ []

-- The caps lock behind a code, and the character that the code types, if it types one.
abbrev pub key : Bool → ℕ → Bool × List ℕ
key capslock code =
    if leb key_released code
    then (capslock, [])
    else if code == capslock_code
    then (not capslock, [])
    else (capslock, unless_nul (key_char capslock code))

-- The characters that a sequence of codes types.
abbrev pub typed : Bool → List ℕ → List ℕ
typed capslock [] = []
typed capslock (code ∷ codes) = (key capslock code).1 ++ typed ((key capslock code).0) codes

-- A code of a key of the table that is pressed or released.
abbrev pub IsKey : ℕ → Type 0
IsKey code =
    (code < length keyboard_scan_set_one)
    ⊎ ((key_released ≤ code) × (code < key_released + length keyboard_scan_set_one))

char_lem :
    (behind code : ℕ) (capslock : Bool)
    → code < length keyboard_scan_set_one
    → classic_keyboard_scancode_to_char behind capslock code ≡ key_char capslock code
char_lem behind code true h = (classic_keyboard_scancode_to_char_lem behind code h).0
char_lem behind code false h = (classic_keyboard_scancode_to_char_lem behind code h).1

push_char :
    (c : ℕ) (kb : KeyboardBuffer) → keyboard_push c (some kb) ≡ push_all (unless_nul c) (some kb)
unfolding keyboard_push
push_char c kb = elim (Bool-cases (c == 0)) [
  | inl nul ↦ rw nul refl
  | inr char ↦ rw char (rw char refl)
]

-- A scan code puts what its key types at the end of the buffer.
pub key_lem :
    (behind code : ℕ) (capslock : Bool) (kb : KeyboardBuffer)
    → IsKey code
    → classic_keyboard_handle_interrupt behind code (capslock, some kb)
      ≡ ((key capslock code).0, push_all (key capslock code).1 (some kb))
key_lem behind code capslock kb (inl h) =
    let down : leb 128 code ≡ false = ground (arith, h) in
    elim (Bool-cases (code == 58)) [
      | inl lock ↦
          let e : code ≡ 58 = ground arith in rw e (capslock_typed behind capslock (some kb))
      | inr other ↦
          let ne : code ≢ capslock_code = ground arith in
          let pressed =
            (classic_keyboard_handle_interrupt_lem behind code capslock (some kb) h ne).2 in
          rw (pressed, down, other, char_lem behind code capslock h)
            (ap (λ p. (capslock, p)) (push_char (key_char capslock code) kb))
    ]
key_lem behind code capslock kb (inr h) =
    let up : leb 128 code ≡ true = ground (arith, h) in
    let e : code ≡ (code - 128) + 128 = omega (arith, h.0) in
    rw up (
      ap (λ n. classic_keyboard_handle_interrupt behind n (capslock, some kb)) e
      ∙ released_typed behind (code - 128) capslock (some kb) (omega (arith, h.1)))
