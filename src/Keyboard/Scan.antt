-- ===== src/Keyboard/Scan.antt =====
-- What the scan code table gives, and what an interrupt does.
use bimble_os.Common.{
  ℕ, zero, suc, ◌+◌, ◌<◌, ◌≡◌, ◌≢◌, refl, ap, Bool, true, false, Option, none, some, List, [], ◌∷◌,
  arith, length, get_or, ◌==◌, ltb, if◌then◌else◌, bit_and,
}
use mathlib.Core.Bool.{not}
use bimble_os.Common.Bits.{bit_and-shl-ones}
use bimble_os.Str.{tolower}
use bimble_os.Keyboard.{
  KeyboardBuffer, keyboard_scan_set_one, key_released, capslock_code,
  classic_keyboard_scancode_to_char, classic_keyboard_handle_interrupt, keyboard_push,
}

get_or_default : (xs : List ℕ) (i a b : ℕ) → i < length xs → get_or xs i a ≡ get_or xs i b
get_or_default [] i a b h = absurd (omega arith)
get_or_default (x ∷ xs) zero a b h = refl
get_or_default (x ∷ xs) (suc i) a b h = get_or_default xs i a b (omega arith)

-- A scan code within the table gives the table's character with the caps lock on, and this character
-- under tolower with the caps lock off, whatever lies behind the table.
pub classic_keyboard_scancode_to_char_lem :
    (behind scancode : ℕ)
    → scancode < length keyboard_scan_set_one
    → (classic_keyboard_scancode_to_char behind true scancode
        ≡ get_or keyboard_scan_set_one scancode 0)
      × (classic_keyboard_scancode_to_char behind false scancode
          ≡ tolower (get_or keyboard_scan_set_one scancode 0))
unfolding classic_keyboard_scancode_to_char tolower
classic_keyboard_scancode_to_char_lem behind scancode h =
    let inside : ltb 82 scancode ≡ false = ground arith in
    let e : get_or keyboard_scan_set_one scancode behind ≡ get_or keyboard_scan_set_one scancode 0 =
      get_or_default keyboard_scan_set_one scancode behind 0 h in
    rw (inside, e) (refl, refl)

-- With the caps lock on, the scan code that is the table's length gives the byte behind the table.
pub classic_keyboard_scancode_to_char_behind :
    (behind : ℕ) → classic_keyboard_scancode_to_char behind true 82 ≡ behind
unfolding classic_keyboard_scancode_to_char
classic_keyboard_scancode_to_char_behind behind = refl

pressed : (scancode : ℕ) → scancode < 128 → bit_and scancode 128 ≡ 0
pressed scancode h = bit_and-shl-ones 7 1 scancode 0 scancode (omega arith) h (omega arith)

released : (scancode : ℕ) → scancode < 128 → bit_and (scancode + 128) 128 ≡ 128
released scancode h = bit_and-shl-ones 7 1 (scancode + 128) 1 scancode (omega arith) h (omega arith)

push_nul :
    (c : ℕ) (process : Option KeyboardBuffer)
    → (if not (c == 0) then keyboard_push c process else process) ≡ keyboard_push c process
unfolding keyboard_push
push_nul c none = ground arith
push_nul c (some kb) = ground arith

pub capslock_typed :
    (behind : ℕ) (capslock : Bool) (process : Option KeyboardBuffer)
    → classic_keyboard_handle_interrupt behind capslock_code (capslock, process)
      ≡ (not capslock, process)
unfolding classic_keyboard_handle_interrupt classic_keyboard_scancode_to_char
capslock_typed behind true process = refl
capslock_typed behind false process = refl

pub released_typed :
    (behind scancode : ℕ) (capslock : Bool) (process : Option KeyboardBuffer)
    → scancode < 128
    → classic_keyboard_handle_interrupt behind (scancode + key_released) (capslock, process)
      ≡ (capslock, process)
unfolding classic_keyboard_handle_interrupt
released_typed behind scancode capslock process h = rw (released scancode h) refl

-- The code of a released key changes nothing. The caps lock key's code inverts the caps lock's state
-- and types nothing. Every other code of the table leaves this state, and gives keyboard_push
-- its character, where 0 is not typed.
pub classic_keyboard_handle_interrupt_lem :
    (behind scancode : ℕ) (capslock : Bool) (process : Option KeyboardBuffer)
    → scancode < length keyboard_scan_set_one
    → scancode ≢ capslock_code
    → (classic_keyboard_handle_interrupt behind (scancode + key_released) (capslock, process)
        ≡ (capslock, process))
      × (classic_keyboard_handle_interrupt behind capslock_code (capslock, process)
          ≡ (not capslock, process))
      × (classic_keyboard_handle_interrupt behind scancode (capslock, process) ≡ (
        capslock,
        keyboard_push (classic_keyboard_scancode_to_char behind capslock scancode) process,
      ))
unfolding classic_keyboard_handle_interrupt
classic_keyboard_handle_interrupt_lem behind scancode capslock process h ne =
    let small : scancode < 128 = omega arith in
    let key : (scancode == 58) ≡ false = ground (arith, ne) in
    (
      released_typed behind scancode capslock process small,
      capslock_typed behind capslock process,
      rw (pressed scancode small, key)
          (ap (λ p. (capslock, p))
            (push_nul (classic_keyboard_scancode_to_char behind capslock scancode) process)),
    )
