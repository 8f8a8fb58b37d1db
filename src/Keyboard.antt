-- ===== src/Keyboard.antt =====
-- keyboard/keyboard.c and keyboard/classic.c: the buffer of typed characters that each process has, and
-- the keyboard that fills it. A process is given by its buffer, NULL is `none`, and `head` and `tail`
-- are the patterns of the two `int`s.
pub mod Empty
pub mod Interrupt
pub mod Keys
pub mod Queue
pub mod Scan
pub mod Typing
mod Tests
use bimble_os.Common.{
  ℕ, ◌+◌, ◌-◌, ◌%◌, Bool, ◌&&◌, Option, none, some, List, [], ◌∷◌, ◌==◌, leb, ltb, if◌then◌else◌,
  length, get_or, set, bit_and,
}
use mathlib.Core.Bool.{not}
use bimble_os.Common.Status.{Status, err, einvarg}
use bimble_os.Common.Word.{add32, sub32}

abbrev pub keyboard_buffer_size : ℕ
keyboard_buffer_size = 1024

pub record KeyboardBuffer : Type 0 where
  pub buffer : List ℕ
  pub tail : ℕ
  pub head : ℕ

unfoldable pub keyboard_get_tail_index : KeyboardBuffer → ℕ
keyboard_get_tail_index kb = kb.tail % keyboard_buffer_size

unfoldable pub keyboard_backspace : KeyboardBuffer → KeyboardBuffer
unfolding keyboard_get_tail_index
keyboard_backspace kb =
    let kb' : KeyboardBuffer = record kb { tail = sub32 kb.tail 1 } in
    record kb' { buffer = set kb.buffer (keyboard_get_tail_index kb') 0x00 }

-- The list of keyboards, by their addresses; 0 is NULL.
pub record KeyboardList : Type 0 where
  pub next : ℕ → ℕ
  pub keyboard_list_head : ℕ
  pub keyboard_list_last : ℕ

-- `init` is the keyboard's function, which is called at the end; `none` is NULL.
unfoldable pub keyboard_insert :
    {S : Type 0} → Option (S → Status × S) → ℕ → KeyboardList × S → Status × (KeyboardList × S)
keyboard_insert init keyboard (l, s) = elim init [
  | none ↦ (err einvarg, (l, s))
  | some f ↦
      let linked : KeyboardList =
        if l.keyboard_list_last == 0
        then record l { keyboard_list_head = keyboard; keyboard_list_last = keyboard }
        else record l {
          next = λ a. if a == l.keyboard_list_last then keyboard else l.next a;
          keyboard_list_last = keyboard;
        } in
      let (res, s') = f s in (res, (linked, s'))
]

-- The argument is the current process.
unfoldable pub keyboard_push : ℕ → Option KeyboardBuffer → Option KeyboardBuffer
unfolding keyboard_get_tail_index
keyboard_push c none = none
keyboard_push c (some kb) =
    if c == 0
    then some kb
    else some (record kb {
      buffer = set kb.buffer (keyboard_get_tail_index kb) c;
      tail = add32 kb.tail 1;
    })

-- The argument is the process of the current task.
unfoldable pub keyboard_pop : Option KeyboardBuffer → ℕ × Option KeyboardBuffer
keyboard_pop none = (0, none)
keyboard_pop (some kb) =
    let real_index = kb.head % keyboard_buffer_size in
    let c = get_or kb.buffer real_index 0 in
    if c == 0x00
    then (0, some kb)
    else (c, some (record kb { buffer = set kb.buffer real_index 0; head = add32 kb.head 1 }))

-- `keyboard_scan_set_one`.
abbrev pub keyboard_scan_set_one : List ℕ
keyboard_scan_set_one =
    0x00 ∷ 0x1b ∷ b'1' ∷ b'2' ∷ b'3' ∷ b'4' ∷ b'5' ∷ b'6' ∷ b'7' ∷ b'8' ∷ b'9' ∷ b'0' ∷ b'-' ∷ b'='
    ∷ 0x08 ∷ 0x09 ∷ b'Q' ∷ b'W' ∷ b'E' ∷ b'R' ∷ b'T' ∷ b'Y' ∷ b'U' ∷ b'I' ∷ b'O' ∷ b'P' ∷ b'['
    ∷ b']' ∷ 0x0d ∷ 0x00 ∷ b'A' ∷ b'S' ∷ b'D' ∷ b'F' ∷ b'G' ∷ b'H' ∷ b'J' ∷ b'K' ∷ b'L' ∷ b';'
    ∷ 0x27 ∷ b'`' ∷ 0x00 ∷ 0x5c ∷ b'Z' ∷ b'X' ∷ b'C' ∷ b'V' ∷ b'B' ∷ b'N' ∷ b'M' ∷ b',' ∷ b'.'
    ∷ b'/' ∷ 0x00 ∷ b'*' ∷ 0x00 ∷ 0x20 ∷ 0x00 ∷ 0x00 ∷ 0x00 ∷ 0x00 ∷ 0x00 ∷ 0x00 ∷ 0x00 ∷ 0x00
    ∷ 0x00 ∷ 0x00 ∷ 0x00 ∷ b'7' ∷ b'8' ∷ b'9' ∷ b'-' ∷ b'4' ∷ b'5' ∷ b'6' ∷ b'+' ∷ b'1' ∷ b'2'
    ∷ b'3' ∷ b'0' ∷ b'.' ∷ []

-- CLASSIC_KEYBOARD_KEY_RELEASED and CLASSIC_KEYBOARD_CAPSLOCK.
abbrev pub key_released : ℕ
key_released = 0x80

abbrev pub capslock_code : ℕ
capslock_code = 0x3a

-- `behind` is the byte that memory holds behind the table.
unfoldable pub classic_keyboard_scancode_to_char : ℕ → Bool → ℕ → ℕ
classic_keyboard_scancode_to_char behind capslock scancode =
    let size_of_keyboard_set_one = length keyboard_scan_set_one in
    if ltb size_of_keyboard_set_one scancode
    then 0
    else let c = get_or keyboard_scan_set_one scancode behind in
      if not capslock && (leb b'A' c && leb c b'Z') then c + 32 else c

-- What `classic_keyboard_handle_interrupt` does with a scan code: the state of the caps lock, and the
-- current process. Keyboard/Interrupt has the page switches around it.
unfoldable pub classic_keyboard_handle_interrupt :
    ℕ → ℕ → Bool × Option KeyboardBuffer → Bool × Option KeyboardBuffer
unfolding classic_keyboard_scancode_to_char keyboard_push
classic_keyboard_handle_interrupt behind scancode (capslock, process) =
    if not (bit_and scancode key_released == 0)
    then (capslock, process)
    else let capslock' = if scancode == capslock_code then not capslock else capslock in
      let c = classic_keyboard_scancode_to_char behind capslock' scancode in
      (capslock', if not (c == 0) then keyboard_push c process else process)
