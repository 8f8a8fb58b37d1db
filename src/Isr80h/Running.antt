-- ===== src/Isr80h/Running.antt =====
-- A system call from the interrupt to its result.
use bimble_os.Common.{
  ℕ, zero, suc, ◌∙◌, ◌==◌, if◌then◌else◌, true, false, ◌≤◌, ◌≡◌, refl, ap, Bool-cases, inl, inr,
  Option, none, some, List, [], ◌∷◌, ◌++◌, map, arith, length, get_or, replicate, leb,
}
use mathlib.Core.Path.{fun_ext}
use bimble_os.Idt.{
  Flow, back, resume, halt, isr80h_handle_command, isr80h_register_command, max_isr80h_commands,
}
use bimble_os.Idt.Handlers.{Handler, isr80h_handler, HasSpace, enter, leave}
use bimble_os.Process.System.{HasKernel, System, system_space}
use bimble_os.Task.{InterruptFrame, task_save_state, task_current_save_state}
use bimble_os.Task.Space.{Space, kernel_page, task_page, switch_to}
use bimble_os.Isr80h.{isr80h_register_commands, system_commands}

module _ {S : Type 0} where
  -- A handler between the kernel's entry and its exit.
  abbrev pub through : HasSpace S → Handler S → Handler S
  through within handler frame s = elim (enter frame (within.space s)) [
    | none ↦ (halt, s)
    | some entered ↦ leave within (handler frame (within.with_space entered s))
  ]

  -- What a command of a list does, by its number.
  abbrev pub call : List (Handler S) → ℕ → Handler S
  call commands command frame s = elim (get_or (map some commands) command none) [
    | none ↦ (back 0, s)
    | some f ↦ f frame s
  ]

  entry_of_table :
      (commands : List (Handler S)) (command n : ℕ)
      → get_or (map some commands ++ replicate n none) command none
        ≡ get_or (map some commands) command none
  entry_of_table [] command zero = refl
  entry_of_table [] zero (suc n) = refl
  entry_of_table [] (suc command) (suc n) = entry_of_table [] command n
  entry_of_table (c ∷ commands) zero n = refl
  entry_of_table (c ∷ commands) (suc command) n = entry_of_table commands command n

  past_end :
      (commands : List (Handler S)) (command : ℕ)
      → length commands ≤ command
      → get_or (map some commands) command none ≡ none
  past_end [] command h = refl
  past_end (c ∷ commands) zero h = absurd (omega arith)
  past_end (c ∷ commands) (suc command) h = past_end commands command (omega (arith, h))

  -- The table of the commands, with the free places behind them.
  abbrev pub table_of : List (Handler S) → ℕ → List (Option (Handler S))
  table_of commands free = map some commands ++ replicate free none

  dispatch :
      (commands : List (Handler S)) (free command : ℕ) (frame : InterruptFrame) (s : S)
      → length commands ≤ max_isr80h_commands
      → isr80h_handle_command command frame (table_of commands free) s
        ≡ call commands command frame s
  unfolding isr80h_handle_command
  dispatch commands free command frame s h = elim (Bool-cases (leb 1024 command)) [
    | inl large ↦
        let e = past_end commands command (ground (arith, h, large)) in rw (call, e, large) refl
    | inr small ↦ rw (small, entry_of_table commands command free) refl
  ]

  pub call_in_table :
      (within : HasSpace S) (commands : List (Handler S)) (free command : ℕ)
      (frame : InterruptFrame) (s : S)
      → length commands ≤ max_isr80h_commands
      → isr80h_handler within (table_of commands free) command frame s
        ≡ through within (call commands command) frame s
  unfolding isr80h_handler
  call_in_table within commands free command frame s h =
      ap (λ (g : Handler S). through within g frame s)
        (fun_ext (λ f. fun_ext (λ t. dispatch commands free command f t h)))

-- The state in which a command runs: the frame is saved in the task that runs, and the kernel's page directory
-- is in use.
abbrev pub saved : InterruptFrame → Space → Space
saved frame x = record x {
  tasks = task_save_state (x.tasks.current_task) frame x.tasks;
  current_directory = x.kernel_page_directory.directory_entry;
}

-- The page directory of the task that runs is in use again.
abbrev pub resumed : Space → Space
resumed x = record x {
  current_directory = (x.tasks.task_at (x.tasks.current_task)).page_directory.directory_entry;
}

enter-idle :
    (frame : InterruptFrame) (x : Space) → (x.tasks.current_task == 0) ≡ true → enter frame x ≡ none
unfolding enter task_current_save_state
enter-idle frame x idle = rw (enter, idle) refl

enter-saved :
    (frame : InterruptFrame) (x : Space)
    → (x.tasks.current_task == 0) ≡ false
    → enter frame x ≡ some (saved frame x)
unfolding enter task_current_save_state kernel_page
enter-saved frame x runs = rw (enter, runs) refl

module _ {S : Type 0} (within : HasSpace S) where
  abbrev pub returned : Flow × S → Flow × S
  returned (back r, s) = (back r, within.with_space (resumed (within.space s)) s)
  returned (resume registers, s) = (resume registers, s)
  returned (halt, s) = (halt, s)

  -- What a system call does: the code panics where no task runs.
  abbrev pub system_call : Handler S → Handler S
  system_call handler frame s =
      let out = returned (handler frame (within.with_space (saved frame (within.space s)) s)) in
      if (within.space s).tasks.current_task == 0 then (halt, s) else out

  leave-returned : (r : Flow × S) → leave within r ≡ returned r
  unfolding leave task_page switch_to
  leave-returned (back r, s) = refl
  leave-returned (resume registers, s) = refl
  leave-returned (halt, s) = refl

  through-system_call :
      (handler : Handler S) (frame : InterruptFrame) (s : S)
      → through within handler frame s ≡ system_call handler frame s
  through-system_call handler frame s =
      let inner : Option Space → Flow × S = λ e. elim e [
        | none ↦ (halt, s)
        | some entered ↦ leave within (handler frame (within.with_space entered s))
      ] in
      elim (Bool-cases ((within.space s).tasks.current_task == 0)) [
        | inl idle ↦ rw idle (ap inner (enter-idle frame (within.space s) idle))
        | inr runs ↦ rw runs (
            ap inner (enter-saved frame (within.space s) runs)
            ∙ leave-returned (handler frame (within.with_space (saved frame (within.space s)) s)))
      ]

module _ {W P : Type 0} (memory : HasKernel W) where
  registered :
      (rounds uninitialised : ℕ) (buf name : List ℕ)
      → isr80h_register_commands {P = P} memory rounds uninitialised buf name (replicate 1024 none)
        ≡ some (table_of (system_commands {P = P} memory rounds uninitialised buf name) 1014)
  unfolding isr80h_register_commands system_commands isr80h_register_command
  registered rounds uninitialised buf name = refl

  -- On a table without commands `isr80h_register_commands` does not panic. With the table that it makes, a system
  -- call of a number of `enum SystemCommands`, where a task runs, calls the command of that number in the
  -- state in which the frame is saved in that task and the kernel's page directory is in use; where
  -- the command returns, the page directory of the task that is current then is in use. A call of any
  -- other number does the same without a command, and its result is 0.
  pub isr80h_register_commands_lem :
      (rounds uninitialised : ℕ) (buf name : List ℕ) (command : ℕ) (frame : InterruptFrame)
      (s : System W P)
      → (table : List (Option (Handler (System W P)))) × (isr80h_register_commands memory rounds
            uninitialised buf name
            (replicate max_isr80h_commands none)
          ≡ some table)
        × (isr80h_handler (system_space memory) table command frame s
            ≡ system_call
                (system_space memory)
                (call (system_commands memory rounds uninitialised buf name) command)
                frame
                s)
  unfolding system_commands
  isr80h_register_commands_lem rounds uninitialised buf name command frame s =
      let commands = system_commands {P = P} memory rounds uninitialised buf name in
      (
        table_of commands 1014,
        registered rounds uninitialised buf name,
        call_in_table (system_space memory) commands 1014 command frame s (omega arith)
            ∙ through-system_call (system_space memory) (call commands command) frame s,
      )
