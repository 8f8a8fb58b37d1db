-- ===== src/Isr80h/Keys.antt =====
-- The keyboard's interrupts and the system call 2, from the keys to what the program reads.
use bimble_os.Common.{
  ℕ, ◌<◌, ◌≡◌, ◌≢◌, refl, ap, ◌∙◌, Bool, Bool-cases, inl, inr, true, false, Option, none, some,
  List, arith, ◌==◌, if◌then◌else◌, length, bit_and, get_or-set_self,
}
use mathlib.Core.Bool.{not}
use bimble_os.Idt.{Flow, back, halt, idt_register_interrupt_callback}
use bimble_os.Idt.Handlers.{Handler, interrupt_handler, isr80h_handler, enter, leave}
use bimble_os.Isr80h.{system_commands, isr80h_command2_getkey}
use bimble_os.Isr80h.Running.{table_of, call_in_table}
use bimble_os.Isr80h.Sum.{entered, enter_lem}
use bimble_os.Keyboard.{
  KeyboardBuffer, key_released, keyboard_pop, classic_keyboard_handle_interrupt,
}
use bimble_os.Keyboard.Interrupt.{keyboard_interrupt, classic_keyboard_init, keyboard_handler}
use bimble_os.Process.System.{HasKernel, System, system_space, with_process, space_of, put_space}
use bimble_os.Task.{InterruptFrame, task_save_state}
use bimble_os.Task.Space.{Space, kernel_page, task_page, switch_to}
use bimble_os.Terminal.{char_to_int}

module _ {W P : Type 0} (memory : HasKernel W) where
  -- The task that runs is one of the current process, which has this buffer.
  pub record Focused (s : System W P) (capslock : Bool) (kb : KeyboardBuffer) : Type 0 where
    pub runs : s.tasks.current_task ≢ 0
    pub own : (s.tasks.task_at s.tasks.current_task).process ≡ s.current_process
    pub has_process : s.current_process ≢ 0
    pub lock : s.capslock ≡ capslock
    pub keys : (s.process_at s.current_process).keyboard ≡ kb

  -- The state in which a handler runs.
  abbrev inside : InterruptFrame → System W P → System W P
  inside frame s = put_space memory (entered frame (space_of memory s)) s

  inside-Focused :
      (frame : InterruptFrame) (s : System W P) (capslock : Bool) (kb : KeyboardBuffer)
      → Focused s capslock kb
      → Focused (inside frame s) capslock kb
  unfolding task_save_state kernel_page
  inside-Focused frame s capslock kb v =
      let here : (s.tasks.current_task == s.tasks.current_task) ≡ true = ground arith in
      record {
        runs = v.runs;
        own = rw here (v.own);
        has_process = v.has_process;
        lock = v.lock;
        keys = v.keys;
      }

  -- The way out of a handler that returns.
  leave-Focused :
      (r : ℕ) (s : System W P) (capslock : Bool) (kb : KeyboardBuffer)
      → Focused s capslock kb
      → Focused (leave (system_space memory) (back r, s)).1 capslock kb
  unfolding leave task_page switch_to
  leave-Focused r s capslock kb v = record {
    runs = v.runs;
    own = v.own;
    has_process = v.has_process;
    lock = v.lock;
    keys = v.keys;
  }

  -- The state once the current process has a buffer.
  abbrev pressed : Bool → KeyboardBuffer → System W P → System W P
  pressed capslock keyboard s =
      let s0 = put_space memory (kernel_page (space_of memory s)) s in
      let s1 : System W P = record s0 { capslock = capslock } in
      with_process s0.current_process
        (record (s1.process_at s0.current_process) { keyboard = keyboard }) s1

  pressed-Focused :
      (s : System W P) (capslock capslock' : Bool) (kb kb' : KeyboardBuffer)
      → Focused s capslock kb
      → Focused (pressed capslock' kb' s) capslock' kb'
  unfolding kernel_page
  pressed-Focused s capslock capslock' kb kb' v =
      let here : (s.current_process == s.current_process) ≡ true = ground arith in
      record {
        runs = v.runs;
        own = v.own;
        has_process = v.has_process;
        lock = refl;
        keys = rw here refl;
      }

  handler_eq :
      (behind scancode : ℕ) (frame : InterruptFrame) (s : System W P) (capslock capslock' : Bool)
      (kb kb' : KeyboardBuffer)
      → Focused s capslock kb
      → classic_keyboard_handle_interrupt behind scancode (capslock, some kb)
        ≡ (capslock', some kb')
      → keyboard_handler memory behind scancode frame s ≡ (
        back 0,
        if not (bit_and scancode key_released == 0)
            then pressed capslock' kb' s
            else put_space memory
                (task_page (space_of memory (pressed capslock' kb' s)))
                (pressed capslock' kb' s),
      )
  unfolding keyboard_handler kernel_page
  handler_eq behind scancode frame s capslock capslock' kb kb' v e =
      let ne : (s.current_process == 0) ≡ false = ground (arith, v.has_process) in
      let before : Option KeyboardBuffer =
        if s.current_process == 0 then none else some (s.process_at s.current_process).keyboard in
      let same : (s.capslock, before) ≡ (capslock, some kb) = rw (ne, v.lock, v.keys) refl in
      let s0 = put_space memory (kernel_page (space_of memory s)) s in
      let after : Bool × Option KeyboardBuffer → Flow × System W P = λ k.
        let s1 : System W P = record s0 { capslock = k.0 } in
        let s2 : System W P = elim k.1 [
          | none ↦ s1
          | some keyboard ↦
              with_process s0.current_process
                (record (s1.process_at s0.current_process) { keyboard = keyboard }) s1
        ] in
        (
          back 0,
          if not (bit_and scancode key_released == 0)
              then s2
              else put_space memory (task_page (space_of memory s2)) s2,
        ) in
      ap after (ap (classic_keyboard_handle_interrupt behind scancode) same ∙ e)

  handler-Focused :
      (behind scancode : ℕ) (frame : InterruptFrame) (s : System W P) (capslock capslock' : Bool)
      (kb kb' : KeyboardBuffer)
      → Focused s capslock kb
      → classic_keyboard_handle_interrupt behind scancode (capslock, some kb)
        ≡ (capslock', some kb')
      → (s' : System W P) × (keyboard_handler memory behind scancode frame s ≡ (back 0, s'))
        × Focused s' capslock' kb'
  unfolding leave
  handler-Focused behind scancode frame s capslock capslock' kb kb' v e =
      let all = handler_eq behind scancode frame s capslock capslock' kb kb' v e in
      let done = pressed-Focused s capslock capslock' kb kb' v in
      let s2 = pressed capslock' kb' s in
      elim (Bool-cases (not (bit_and scancode key_released == 0))) [
        | inl released ↦ (s2, rw (all, released) refl, done)
        | inr held ↦ (
          put_space memory (task_page (space_of memory s2)) s2,
          rw (all, held) refl,
          leave-Focused 0 s2 capslock' kb' done,
        )
      ]

  -- The keyboard's interrupt, once `classic_keyboard_init` has registered its handler.
  pub interrupt-Focused :
      (callbacks : List (Option (Handler (System W P)))) (behind scancode : ℕ)
      (frame : InterruptFrame) (s : System W P) (capslock capslock' : Bool)
      (kb kb' : KeyboardBuffer)
      → keyboard_interrupt < length callbacks
      → Focused s capslock kb
      → classic_keyboard_handle_interrupt behind scancode (capslock, some kb)
        ≡ (capslock', some kb')
      → let table =
          (classic_keyboard_init (keyboard_handler memory behind scancode) callbacks).1.0 in
        Focused
          (interrupt_handler (system_space memory) table keyboard_interrupt frame s).1
          capslock'
          kb'
  unfolding classic_keyboard_init idt_register_interrupt_callback interrupt_handler
  interrupt-Focused callbacks behind scancode frame s capslock capslock' kb kb' size v e =
      let handler : Handler (System W P) = keyboard_handler memory behind scancode in
      let (s', out, v') =
        handler-Focused behind scancode frame (inside frame s) capslock capslock' kb kb'
          (inside-Focused frame s capslock kb v) e in
      let called : Option Space → Flow × System W P = λ x. elim x [
        | none ↦ (halt, s)
        | some y ↦ leave (system_space memory) (handler frame (put_space memory y s))
      ] in
      let found : Option (Handler (System W P)) → Flow × System W P = λ h. elim h [
        | none ↦
            leave (system_space memory)
              (back 0, put_space memory (kernel_page (space_of memory s)) s)
        | some callback ↦ elim (enter frame (space_of memory s)) [
          | none ↦ (halt, s)
          | some y ↦ leave (system_space memory) (callback frame (put_space memory y s))
        ]
      ] in
      let all =
        ap found (get_or-set_self callbacks keyboard_interrupt (some handler) none size)
        ∙ ap called (enter_lem frame (space_of memory s) v.runs)
        ∙ ap (leave (system_space memory)) out in
      rw all (leave-Focused 0 s' capslock' kb' v')

  getkey-Focused :
      (frame : InterruptFrame) (s : System W P) (capslock : Bool) (kb kb' : KeyboardBuffer) (c : ℕ)
      → Focused s capslock kb
      → keyboard_pop (some kb) ≡ (c, some kb')
      → (s' : System W P) × (isr80h_command2_getkey memory frame s ≡ (back (char_to_int c), s'))
        × Focused s' capslock kb'
  unfolding isr80h_command2_getkey
  getkey-Focused frame s capslock kb kb' c v e =
      let ne : (s.tasks.current_task == 0) ≡ false = ground (arith, v.runs) in
      let process = (s.tasks.task_at s.tasks.current_task).process in
      let here : (s.current_process == process) ≡ true = ground (arith, v.own) in
      let p = s.process_at process in
      let before : Option KeyboardBuffer =
        if s.tasks.current_task == 0 then none else some (p.keyboard) in
      let same : before ≡ some kb = rw (ne, v.own, v.keys) refl in
      let put : KeyboardBuffer → System W P =
        λ k. with_process process (record p { keyboard = k }) s in
      let after : ℕ × Option KeyboardBuffer → Flow × System W P =
        λ r. (back (char_to_int r.0), elim r.1 [ none ↦ s | some k ↦ put k ]) in
      (
        put kb',
        ap after (ap keyboard_pop same ∙ e),
        record {
          runs = v.runs;
          own = v.own;
          has_process = v.has_process;
          lock = v.lock;
          keys = rw here refl;
        },
      )

  -- The system call 2 takes a character off the buffer.
  pub read-Focused :
      (rounds uninitialised : ℕ) (buf name : List ℕ) (frame : InterruptFrame) (s : System W P)
      (capslock : Bool) (kb kb' : KeyboardBuffer) (c : ℕ)
      → Focused s capslock kb
      → keyboard_pop (some kb) ≡ (c, some kb')
      → let commands = system_commands memory rounds uninitialised buf name in
        let out = isr80h_handler (system_space memory) (table_of commands 1014) 2 frame s in
        (out.0 ≡ back (char_to_int c)) × Focused out.1 capslock kb'
  unfolding system_commands leave
  read-Focused rounds uninitialised buf name frame s capslock kb kb' c v e =
      let commands = system_commands {P = P} memory rounds uninitialised buf name in
      let (s', out, v') =
        getkey-Focused frame (inside frame s) capslock kb kb' c
          (inside-Focused frame s capslock kb v) e in
      let inner : Option Space → Flow × System W P = λ x. elim x [
        | none ↦ (halt, s)
        | some y ↦
            leave (system_space memory) (isr80h_command2_getkey memory frame (put_space memory y s))
      ] in
      let all =
        call_in_table (system_space memory) commands 1014 2 frame s (omega arith)
        ∙ ap inner (enter_lem frame (space_of memory s) v.runs)
        ∙ ap (leave (system_space memory)) out in
      rw all (refl, leave-Focused (char_to_int c) s' capslock kb' v')
