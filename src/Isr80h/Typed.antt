-- ===== src/Isr80h/Typed.antt =====
-- Keys pressed one after the other, and the characters that a program reads afterwards.
use bimble_os.Common.{
  ℕ, ◌+◌, ◌≤◌, ◌<◌, ◌≡◌, refl, ap, sym, ◌∙◌, Bool, Bool-cases, inl, inr, Option, none, some, List,
  [], ◌∷◌, ◌++◌, map, arith, ◌==◌, leb, length, set,
}
use bimble_os.Common.Word.{word_size, add32}
use bimble_os.Idt.{Flow, back}
use bimble_os.Idt.Handlers.{Handler, interrupt_handler, isr80h_handler}
use bimble_os.Isr80h.{system_commands}
use bimble_os.Isr80h.Keys.{Focused, interrupt-Focused, read-Focused}
use bimble_os.Isr80h.Running.{table_of}
use bimble_os.Keyboard.{
  KeyboardBuffer, keyboard_buffer_size, keyboard_get_tail_index, keyboard_push,
}
use bimble_os.Keyboard.Interrupt.{keyboard_interrupt, classic_keyboard_init, keyboard_handler}
use bimble_os.Keyboard.Keys.{key, key_lem, typed, unless_nul, key_char, IsKey}
use bimble_os.Keyboard.Queue.{IsQueue, NoNul, keyboard_pop_lem}
use bimble_os.Keyboard.Typing.{push_all, push_all_lem}
use bimble_os.Process.System.{HasKernel, System, system_space}
use bimble_os.Task.{InterruptFrame}
use bimble_os.Terminal.{char_to_int}

-- Interrupts of the keyboard: a scan code and the frame of the task that is interrupted.
abbrev pub codes_of : List (ℕ × InterruptFrame) → List ℕ
codes_of [] = []
codes_of (k ∷ keys) = k.0 ∷ codes_of keys

abbrev pub AreKeys : List ℕ → Type 0
AreKeys [] = Unit
AreKeys (code ∷ codes) = IsKey code × AreKeys codes

push_all-append :
    (a b : List ℕ) (process : Option KeyboardBuffer)
    → push_all (a ++ b) process ≡ push_all b (push_all a process)
push_all-append [] b process = refl
push_all-append (c ∷ a) b process = push_all-append a b (keyboard_push c process)

keyboard_push-some :
    (c : ℕ) (kb : KeyboardBuffer) → (kb' : KeyboardBuffer) × (keyboard_push c (some kb) ≡ some kb')
unfolding keyboard_push
keyboard_push-some c kb = elim (Bool-cases (c == 0)) [
  | inl nul ↦ (kb, rw nul refl)
  | inr char ↦
      let kb' : KeyboardBuffer = record kb {
        buffer = set kb.buffer (keyboard_get_tail_index kb) c;
        tail = add32 kb.tail 1;
      } in
      (kb', rw char refl)
]

push_all-some :
    (cs : List ℕ) (kb : KeyboardBuffer)
    → (kb' : KeyboardBuffer) × (push_all cs (some kb) ≡ some kb')
push_all-some [] kb = (kb, refl)
push_all-some (c ∷ cs) kb =
    let (kb1, e) = keyboard_push-some c kb in let (kb2, f) = push_all-some cs kb1 in (kb2, rw e f)

append-NoNul : (a b : List ℕ) → NoNul a → NoNul b → NoNul (a ++ b)
append-NoNul [] b n m = m
append-NoNul (c ∷ a) b n m = (n.0, append-NoNul a b n.1 m)

unless_nul-NoNul : (c : ℕ) → NoNul (unless_nul c)
unless_nul-NoNul c = elim (Bool-cases (c == 0)) [
  | inl nul ↦ rw nul tt
  | inr char ↦ rw char (ground (arith, char), tt)
]

key-NoNul : (capslock : Bool) (code : ℕ) → NoNul (key capslock code).1
key-NoNul capslock code = elim (Bool-cases (leb 128 code)) [
  | inl up ↦ rw up tt
  | inr down ↦ elim (Bool-cases (code == 58)) [
    | inl lock ↦ rw (down, lock) tt
    | inr other ↦ rw (down, other) (unless_nul-NoNul (key_char capslock code))
  ]
]

typed-NoNul : (capslock : Bool) (codes : List ℕ) → NoNul (typed capslock codes)
typed-NoNul capslock [] = tt
typed-NoNul capslock (code ∷ codes) =
    let k = key capslock code in
    append-NoNul k.1 (typed k.0 codes) (key-NoNul capslock code) (typed-NoNul k.0 codes)

module _ {W P : Type 0} (memory : HasKernel W) where
  -- The state after interrupts of the keyboard, with the handler that `classic_keyboard_init` registers.
  abbrev pub presses :
      List (Option (Handler (System W P))) → ℕ → List (ℕ × InterruptFrame) → System W P → System W P
  presses callbacks behind [] s = s
  presses callbacks behind (k ∷ keys) s =
      let handler : Handler (System W P) = keyboard_handler memory behind k.0 in
      let table = (classic_keyboard_init handler callbacks).1.0 in
      presses callbacks behind keys
        (interrupt_handler (system_space memory) table keyboard_interrupt k.1 s).1

  -- What the system call 2 gives, once for each frame.
  abbrev pub reads : List (Handler (System W P)) → List InterruptFrame → System W P → List Flow
  reads commands [] s = []
  reads commands (frame ∷ frames) s =
      let out = isr80h_handler (system_space memory) (table_of commands 1014) 2 frame s in
      out.0 ∷ reads commands frames out.1

  presses_lem :
      (callbacks : List (Option (Handler (System W P)))) (behind : ℕ)
      (keys : List (ℕ × InterruptFrame)) (s : System W P) (capslock : Bool)
      (kb kb' : KeyboardBuffer)
      → keyboard_interrupt < length callbacks
      → Focused memory s capslock kb
      → AreKeys (codes_of keys)
      → push_all (typed capslock (codes_of keys)) (some kb) ≡ some kb'
      → (capslock' : Bool) × Focused memory (presses callbacks behind keys s) capslock' kb'
  presses_lem callbacks behind [] s capslock kb kb' size v known e =
      let same : kb ≡ kb' =
        ap (λ (o : Option KeyboardBuffer). elim o [ none ↦ kb | some k ↦ k ]) e in
      (capslock, rw (sym same) v)
  presses_lem callbacks behind (k ∷ keys) s capslock kb kb' size v known e =
      let (kb1, pushed) = push_all-some (key capslock k.0).1 kb in
      let step =
        interrupt-Focused memory callbacks behind k.0 k.1 s capslock (key capslock k.0).0 kb kb1
          size v
          (key_lem behind k.0 capslock kb known.0 ∙ ap (λ p. ((key capslock k.0).0, p)) pushed) in
      let rest = typed (key capslock k.0).0 (codes_of keys) in
      presses_lem callbacks behind keys _ (key capslock k.0).0 kb1 kb' size step known.1 (
        ap (push_all rest) (sym pushed)
        ∙ sym (push_all-append (key capslock k.0).1 rest (some kb))
        ∙ e)

  reads_lem :
      (rounds uninitialised : ℕ) (buf name : List ℕ) (frames : List InterruptFrame) (q : List ℕ)
      (s : System W P) (capslock : Bool) (kb : KeyboardBuffer)
      → Focused memory s capslock kb
      → IsQueue kb q
      → length frames ≡ length q
      → reads (system_commands memory rounds uninitialised buf name) frames s
        ≡ map (λ c. back (char_to_int c)) q
  reads_lem rounds uninitialised buf name [] [] s capslock kb v w h = refl
  reads_lem rounds uninitialised buf name [] (c ∷ q) s capslock kb v w h = absurd (omega (arith, h))
  reads_lem rounds uninitialised buf name (f ∷ frames) [] s capslock kb v w h =
      absurd (omega (arith, h))
  reads_lem rounds uninitialised buf name (f ∷ frames) (c ∷ q) s capslock kb v w h =
      let (kb', e, w', same) = keyboard_pop_lem c q w in
      let (out, v') = read-Focused memory rounds uninitialised buf name f s capslock kb kb' c v e in
      rw out (
        ap (λ l. back (char_to_int c) ∷ l)
          (reads_lem rounds uninitialised buf name frames q _ capslock kb' v' w'
            (omega (arith, h))))

  -- Where the task that runs belongs to the current process, of which the buffer is empty, interrupts of the
  -- keyboard with scan codes of keys of the table that are pressed or released, which type at most 1024
  -- characters, and then as many system calls 2, with any frames: the calls give the characters that
  -- the codes type, in their order. A key types its character of the table, in lower case where the caps
  -- lock is off; its release types nothing; the caps lock key turns the caps lock over. The tail of the
  -- buffer does not wrap around.
  pub reads-presses :
      (callbacks : List (Option (Handler (System W P)))) (behind rounds uninitialised : ℕ)
      (buf name : List ℕ) (keys : List (ℕ × InterruptFrame)) (frames : List InterruptFrame)
      (s : System W P) (capslock : Bool) (kb : KeyboardBuffer)
      → keyboard_interrupt < length callbacks
      → Focused memory s capslock kb
      → IsQueue kb []
      → AreKeys (codes_of keys)
      → length (typed capslock (codes_of keys)) ≤ keyboard_buffer_size
      → kb.tail + length (typed capslock (codes_of keys)) < word_size
      → length frames ≡ length (typed capslock (codes_of keys))
      → reads
          (system_commands memory rounds uninitialised buf name)
          frames
          (presses callbacks behind keys s)
        ≡ map (λ c. back (char_to_int c)) (typed capslock (codes_of keys))
  reads-presses callbacks behind rounds uninitialised buf name keys frames s capslock kb size v
        empty known room wide enough =
      let cs = typed capslock (codes_of keys) in
      let (kb', pushed, queue) =
        push_all_lem cs [] empty (typed-NoNul capslock (codes_of keys)) (omega arith) wide in
      let (capslock', v') =
        presses_lem callbacks behind keys s capslock kb kb' size v known pushed in
      reads_lem rounds uninitialised buf name frames cs (presses callbacks behind keys s) capslock'
        kb' v' queue enough
