-- ===== src/Idt/Handlers.antt =====
-- idt/idt.c: interrupt_handler, the handlers of the clock, and isr80h_handler. The state is any that has
-- the tasks' space as a part. The acknowledgement of an interrupt, a write to a port, changes no state.
use bimble_os.Common.{ℕ, ◌≡◌, Option, none, some, List, get_or, refl}
use bimble_os.Idt.{Flow, back, resume, halt, isr80h_handle_command}
use bimble_os.Task.{InterruptFrame, task_current_save_state}
use bimble_os.Task.Space.{Space, kernel_page, task_page, next_task}

pub record HasSpace (S : Type 0) : Type 0 where
  pub space : S → Space
  pub with_space : Space → S → S
  pub space-with_space : (x : Space) (s : S) → space (with_space x s) ≡ x

-- The space itself.
abbrev pub whole : HasSpace Space
whole = record { space = λ s. s; with_space = λ x s. x; space-with_space = λ x s. refl }

abbrev pub Handler : Type 0 → Type 0
Handler S = InterruptFrame → S → Flow × S

-- `kernel_page` and `task_current_save_state`; `none` is the panic.
unfoldable pub enter : InterruptFrame → Space → Option Space
unfolding kernel_page
enter frame x = elim (task_current_save_state frame x.tasks) [
  | none ↦ none
  | some tasks ↦ some (record (kernel_page x) { tasks = tasks })
]

module _ {S : Type 0} (within : HasSpace S) where
  open within use {space, with_space}

  -- `task_page`, where the handler has returned.
  unfoldable pub leave : Flow × S → Flow × S
  unfolding task_page
  leave (back r, s) = (back r, with_space (task_page (space s)) s)
  leave (resume registers, s) = (resume registers, s)
  leave (halt, s) = (halt, s)

  -- An interrupt is a number below 256.
  unfoldable pub interrupt_handler : List (Option (Handler S)) → ℕ → Handler S
  unfolding enter leave
  interrupt_handler interrupt_callbacks interrupt frame s =
      elim (get_or interrupt_callbacks interrupt none) [
        | none ↦ leave (back 0, with_space (kernel_page (space s)) s)
        | some callback ↦ elim (enter frame (space s)) [
          | none ↦ (halt, s)
          | some entered ↦ leave (callback frame (with_space entered s))
        ]
      ]

  unfoldable pub isr80h_handler : List (Option (Handler S)) → ℕ → Handler S
  unfolding enter leave isr80h_handle_command
  isr80h_handler isr80h_commands command frame s = elim (enter frame (space s)) [
    | none ↦ (halt, s)
    | some entered ↦
        leave (isr80h_handle_command command frame isr80h_commands (with_space entered s))
  ]

  -- The end of a handler by `task_next`.
  unfoldable pub go_on : S → Flow × S
  unfolding next_task
  go_on s = elim (next_task (space s)) [
    | none ↦ (halt, s)
    | some (registers, x) ↦ (resume registers, with_space x s)
  ]

  unfoldable pub idt_clock : Handler S
  unfolding go_on
  idt_clock frame s = go_on s
