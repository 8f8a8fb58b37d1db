-- ===== src/Keyboard/Interrupt.antt =====
-- keyboard/classic.c: the interrupt of the keyboard, with the page switches around it, and the start of
-- the keyboard. What a read of the keyboard's port gives is an argument; a write to a port is no part of
-- the state.
use bimble_os.Common.{ℕ, Bool, false, Option, none, some, List, ◌==◌, if◌then◌else◌, bit_and}
use mathlib.Core.Bool.{not}
use bimble_os.Common.Status.{Status, done}
use bimble_os.Idt.{back, idt_register_interrupt_callback}
use bimble_os.Idt.Handlers.{Handler}
use bimble_os.Keyboard.{KeyboardBuffer, key_released, classic_keyboard_handle_interrupt}
use bimble_os.Process.System.{HasKernel, System, with_process, space_of, put_space}
use bimble_os.Task.Space.{kernel_page, task_page}

abbrev pub keyboard_interrupt : ℕ
keyboard_interrupt = 0x21

-- The callbacks and the state of the caps lock that it leaves.
unfoldable pub classic_keyboard_init :
    {A : Type 0} → A → List (Option A) → Status × (List (Option A) × Bool)
unfolding idt_register_interrupt_callback
classic_keyboard_init handler callbacks =
    (done, ((idt_register_interrupt_callback keyboard_interrupt handler callbacks).1, false))

module _ {W P : Type 0} (memory : HasKernel W) where
  -- A scan code, in the state of the whole kernel. The code returns early where a key is released.
  unfoldable pub keyboard_handler : ℕ → ℕ → Handler (System W P)
  unfolding classic_keyboard_handle_interrupt kernel_page task_page
  keyboard_handler behind scancode frame s =
      let s0 = put_space memory (kernel_page (space_of memory s)) s in
      let process = s0.current_process in
      let before : Option KeyboardBuffer =
        if process == 0 then none else some ((s0.process_at process).keyboard) in
      let (capslock, after) =
        classic_keyboard_handle_interrupt behind scancode (s0.capslock, before) in
      let s1 : System W P = record s0 { capslock = capslock } in
      let s2 : System W P = elim after [
        | none ↦ s1
        | some keyboard ↦
            with_process process (record (s1.process_at process) { keyboard = keyboard }) s1
      ] in
      let released = not (bit_and scancode key_released == 0) in
      (back 0, if released then s2 else put_space memory (task_page (space_of memory s2)) s2)
