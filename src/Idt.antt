-- ===== src/Idt.antt =====
-- idt/idt.c: the interrupt descriptors, the table of interrupt callbacks and the table of system calls.
-- Handlers are given by their addresses in descriptors, and by values of any type in the tables.
-- `interrupt_handler` and `isr80h_handler`, which switch pages around a call, are in Idt/Handlers.
pub mod Clock
pub mod Descriptors
pub mod Handlers
pub mod Preemption
pub mod Commands
mod Tests
use bimble_os.Common.{
  ℕ, zero, suc, ◌+◌, ◌/◌, bit_and, Option, none, some, List, [], ◌∷◌, ◌==◌, leb, if◌then◌else◌,
  get_or, set, replicate,
}
use bimble_os.Common.Status.{Status, done, err, einvarg}
use bimble_os.Task.{Registers}

abbrev pub total_interrupts : ℕ
total_interrupts = 256

abbrev pub max_isr80h_commands : ℕ
max_isr80h_commands = 1024

abbrev pub kernel_code_selector : ℕ
kernel_code_selector = 0x08

-- `zero_byte` is the field `zero`.
pub record IdtDesc : Type 0 where
  pub offset_1 : ℕ
  pub selector : ℕ
  pub zero_byte : ℕ
  pub type_attr : ℕ
  pub offset_2 : ℕ

abbrev pub cleared : IdtDesc
cleared = record { offset_1 = 0; selector = 0; zero_byte = 0; type_attr = 0; offset_2 = 0 }

-- The fields that `idt_set` gives a descriptor.
abbrev pub desc_for : ℕ → IdtDesc
desc_for address = record {
  offset_1 = bit_and address 0xffff;
  selector = kernel_code_selector;
  zero_byte = 0;
  type_attr = 0xee;
  offset_2 = address / 0x1_0000;
}

unfoldable pub idt_set : ℕ → ℕ → List IdtDesc → List IdtDesc
idt_set interrupt_no address descriptors = set descriptors interrupt_no (desc_for address)

-- The loop of `idt_init` from interrupt `i` on, with the rounds left.
unfoldable pub set_all : (ℕ → ℕ) → ℕ → ℕ → List IdtDesc → List IdtDesc
set_all interrupt_pointer_table zero i descriptors = descriptors
set_all interrupt_pointer_table (suc n) i descriptors =
    set_all interrupt_pointer_table n (i + 1) (idt_set i (interrupt_pointer_table i) descriptors)

-- The descriptors that `idt_init` makes. The handlers' addresses are `interrupt_pointer_table`, in
-- assembly, and those of `divide_by_zero` and `isr80h_wrapper`.
unfoldable pub init_descriptors : (ℕ → ℕ) → ℕ → ℕ → List IdtDesc
unfolding set_all idt_set
init_descriptors interrupt_pointer_table divide_by_zero isr80h_wrapper =
    let all =
      set_all interrupt_pointer_table total_interrupts 0 (replicate total_interrupts cleared) in
    idt_set 0x80 isr80h_wrapper (idt_set 0x0 divide_by_zero all)

module _ {A : Type 0} where
  -- A negative `int` has a pattern of at least 2 ^ 31.
  unfoldable pub idt_register_interrupt_callback :
      ℕ → A → List (Option A) → Status × List (Option A)
  idt_register_interrupt_callback interrupt callback callbacks =
      if leb total_interrupts interrupt
      then (err einvarg, callbacks)
      else (done, set callbacks interrupt (some callback))

  -- The loop that registers the handler of exceptions.
  unfoldable pub register_exceptions : ℕ → ℕ → A → List (Option A) → List (Option A)
  unfolding idt_register_interrupt_callback
  register_exceptions zero i callback callbacks = callbacks
  register_exceptions (suc n) i callback callbacks =
      register_exceptions n (i + 1) callback
        (idt_register_interrupt_callback i callback callbacks).1

  -- The callbacks that `idt_init` registers.
  unfoldable pub init_callbacks : A → A → List (Option A) → List (Option A)
  unfolding register_exceptions idt_register_interrupt_callback
  init_callbacks idt_handle_exception idt_clock callbacks =
      let exceptions = register_exceptions 0x20 0 idt_handle_exception callbacks in
      (idt_register_interrupt_callback 0x20 idt_clock exceptions).1

  -- `none` is a panic.
  unfoldable pub isr80h_register_command : ℕ → A → List (Option A) → Option (List (Option A))
  isr80h_register_command command_id command commands =
      if leb max_isr80h_commands command_id then none else elim (get_or commands command_id none) [
        | some taken ↦ none
        | none ↦ some (set commands command_id (some command))
      ]

-- What a handler ends with: it returns a result, `task_return` goes on with a task's registers, or it
-- panics.
pub data Flow : Type 0 where
  back : ℕ → Flow
  resume : Registers → Flow
  halt : Flow

-- A command takes the frame and the state to its end and the state; it is as if 0 were returned where
-- there is no command.
unfoldable pub isr80h_handle_command :
    {Frame W : Type 0} → ℕ → Frame → List (Option (Frame → W → Flow × W)) → W → Flow × W
isr80h_handle_command {Frame = Frame} {W = W} command frame commands w =
    let result : Flow × W = elim (get_or commands command none) [
      | none ↦ (back 0, w)
      | some f ↦ f frame w
    ] in
    if leb max_isr80h_commands command then (back 0, w) else result
