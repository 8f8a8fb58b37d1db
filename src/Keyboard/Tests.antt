-- ===== src/Keyboard/Tests.antt =====
-- Runs of the keyboard's functions, and the theorems about them at concrete buffers.
use bimble_os.Common.{
  ℕ, zero, suc, ◌+◌, ◌%◌, ◌<◌, ◌≡◌, refl, true, false, some, [], ◌∷◌, arith, get_or, replicate,
  length-replicate,
}
use bimble_os.Keyboard.{
  KeyboardBuffer, keyboard_push, classic_keyboard_scancode_to_char,
  classic_keyboard_handle_interrupt,
}
use bimble_os.Keyboard.Queue.{IsQueue, NoNul}
use bimble_os.Keyboard.Empty.{empty_buffer, get_or-replicate}
use bimble_os.Keyboard.Scan.{classic_keyboard_scancode_to_char_behind}

-- "hi" has been typed.
abbrev hi_buffer : KeyboardBuffer
hi_buffer = record { buffer = b'h' ∷ b'i' ∷ replicate 1022 0; tail = 2; head = 0 }

abbrev full_buffer : KeyboardBuffer
full_buffer = record { buffer = replicate 1024 b'A'; tail = 1024; head = 0 }

NoNul-replicate : (n : ℕ) → NoNul (replicate n b'A')
NoNul-replicate zero = tt
NoNul-replicate (suc n) = (omega arith, NoNul-replicate n)

index_small : (i : ℕ) → i < 1024 → (0 + i) % 1024 ≡ i
index_small i h = omega arith

hi_cells : (i : ℕ) → get_or hi_buffer.buffer i 0 ≡ get_or (b'h' ∷ b'i' ∷ []) i 0
hi_cells zero = refl
hi_cells (suc zero) = refl
hi_cells (suc (suc i)) = get_or-replicate 1022 i

hi-IsQueue : IsQueue hi_buffer (b'h' ∷ b'i' ∷ [])
hi-IsQueue = record {
  size = refl;
  fits = omega arith;
  ends = refl;
  word = omega arith;
  chars = (omega arith, (omega arith, tt));
  cells = λ i h. rw (index_small i h) (hi_cells i);
}

full-IsQueue : IsQueue full_buffer (replicate 1024 b'A')
full-IsQueue = record {
  size = length-replicate {A = ℕ} 1024 b'A';
  fits = omega arith;
  ends = refl;
  word = omega arith;
  chars = NoNul-replicate 1024;
  cells = λ i h. rw (index_small i h);
}

-- The code of the key H, pressed and then released.
typed_h :
    (classic_keyboard_handle_interrupt 0 0xa3
      (classic_keyboard_handle_interrupt 0 0x23 (false, some empty_buffer)))
    ≡ (false, keyboard_push b'h' (some empty_buffer))
unfolding classic_keyboard_handle_interrupt classic_keyboard_scancode_to_char
typed_h = refl

scancode_behind_example : classic_keyboard_scancode_to_char 7 true 82 ≡ 7
scancode_behind_example = classic_keyboard_scancode_to_char_behind 7
