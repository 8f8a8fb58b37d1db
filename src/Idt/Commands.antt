-- ===== src/Idt/Commands.antt =====
-- The table of system calls: a command is called by the number that it was registered with.
use bimble_os.Common.{
  ℕ, ◌<◌, ◌≡◌, ◌≢◌, refl, false, Option, none, some, List, arith, length, get_or, set,
  get_or-set_self, get_or-set_ne, leb,
}
use bimble_os.Idt.{Flow, max_isr80h_commands, isr80h_register_command, isr80h_handle_command}

module _ {Frame W : Type 0} where
  -- Where its number is below 1024 and free, `isr80h_register_command` puts a command into the table: the
  -- number then calls it, every other number calls what it called before, and the number
  -- cannot be registered again, which is a panic.
  pub isr80h_handle_command-isr80h_register_command :
      (id : ℕ) (command again : Frame → W → Flow × W)
      (commands : List (Option (Frame → W → Flow × W))) (other : ℕ) (frame : Frame) (w : W)
      → length commands ≡ max_isr80h_commands
      → id < max_isr80h_commands
      → get_or commands id none ≡ none
      → other ≢ id
      → (commands' : List (Option (Frame → W → Flow × W))) × (isr80h_register_command id command
            commands
          ≡ some commands')
        × (isr80h_handle_command id frame commands' w ≡ command frame w)
        × (isr80h_handle_command other frame commands' w
            ≡ isr80h_handle_command other frame commands w)
        × (isr80h_register_command id again commands' ≡ none)
  unfolding isr80h_handle_command isr80h_register_command
  isr80h_handle_command-isr80h_register_command id command again commands other frame w size lt free
        ne =
      let low : leb 1024 id ≡ false = ground arith in
      let here = get_or-set_self commands id (some command) none (omega (arith, size)) in
      let there =
        get_or-set_ne commands id other (some command) none (λ e. ne (omega (arith, e))) in
      (
        set commands id (some command),
        rw (low, free) refl,
        rw (low, here) refl,
        rw there refl,
        rw (low, here) refl,
      )
